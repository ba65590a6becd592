-- ===== src/LockFree/Concurrent/Linked.antt =====
-- The step of a concurrent call of `_st_lock_free_enqueue` that links its node, and a new call.
use mathlib.Core.List.{append_assoc, map-append}
use st_nvs.Base.{
  ℕ, ◌+◌, ◌<◌, ◌≡◌, ◌++◌, false, Option, none, some, List, [], ◌∷◌, ◌==◌, ==→eq, arith, count,
  count-append, refl, Bool-cases, inl, inr, ap, sym, subst, ◌∙◌,
}
use st_nvs.LockFree.{Heap}
use st_nvs.LockFree.Chain.{
  Cell, cell, addrs, next_of, value_of, Seg-last, Seg-append, Seg-out, Seg-end, Seg-fresh,
}
use st_nvs.LockFree.Concurrent.{idle, top, linked, Moved, System, moved, called}
use st_nvs.LockFree.Concurrent.Own.{Waiting, node_at, Own-Waiting, Inv, Alone-set_pc}
use st_nvs.LockFree.Concurrent.Links.{one_next, off}
use st_nvs.LockFree.Concurrent.Kept.{on, Own-set, Alone-set}

module _ (xs log : List ℕ) (s : System) (inv : Inv xs log s) (i : ℕ) where
  open inv use {cells, last, path, ends, apart, not_null, holds, tail, own, alone}

  abbrev chain : List ℕ
  chain = on xs log s inv i

  -- The step that links a node.
  module _ (g : Heap) (n t a c : ℕ) where
    abbrev longer : List Cell
    longer = cells ++ cell n t ∷ []

    count-longer :
        (a : ℕ) → count a (s.queue.head.ptr ∷ addrs longer) ≡ count a chain + count a (n ∷ [])
    count-longer a =
        ap (λ l. count a (s.queue.head.ptr ∷ l))
          (map-append (λ (c : Cell). c.addr) cells (cell n t ∷ []))
        ∙ count-append a chain (n ∷ [])

    abbrev pub link_step : Moved
    link_step = record { queue = record (s.queue) { heap = g }; pc = linked t a c; log = t ∷ [] }

    pub link-Inv :
        a ≡ last
        → Waiting s.queue.heap chain n t
        → node_at (s.pc i) ≡ n
        → ((b : ℕ) → (b == last) ≡ false → g b ≡ s.queue.heap b)
        → value_of (g last) ≡ value_of (s.queue.heap last)
        → next_of (g last) ≡ some n
        → Inv xs (log ++ t ∷ []) (moved i link_step s)
    link-Inv at w mine same kept next =
        let there = Seg-last s.queue.heap s.queue.head.ptr last cells path in
        let other : (n == last) ≡ false = off n last chain w.out there in
        record {
          cells = longer;
          last = n;
          path =
              Seg-append g s.queue.head.ptr last n cells (cell n t ∷ [])
                (Seg-end s.queue.heap g s.queue.head.ptr last cells path apart same kept)
                (next, ap value_of (same n other) ∙ w.value, refl);
          ends = ap next_of (same n other) ∙ w.next;
          apart = λ a. ground (arith, count-longer a, apart a, w.out);
          not_null = ground (arith, count-longer 0, not_null, w.real);
          holds =
              map-append (λ (c : Cell). c.thread) cells (cell n t ∷ [])
              ∙ ap (λ l. l ++ t ∷ []) holds
              ∙ append_assoc xs log (t ∷ []);
          tail = omega (arith, count-longer s.queue.tail.ptr, tail);
          own =
              Own-set xs log s inv i g (s.queue.head.ptr ∷ addrs longer) (log ++ t ∷ [])
                (linked t a c)
                (λ j ne. record {
                  waits = λ u v.
                      let here =
                        same (node_at (s.pc j)) (off (node_at (s.pc j)) last chain v.out there) in
                      record {
                        value = ap value_of here ∙ v.value;
                        next = ap next_of here ∙ v.next;
                        out = ground (
                          arith,
                          count-longer (node_at (s.pc j)),
                          v.out,
                          alone j i ne v.real,
                          mine,
                        );
                        real = v.real;
                      };
                  stays = λ a h. omega (arith, count-longer a, h);
                  follows = λ a b h f real. elim (Bool-cases (a == last)) [
                    | inl hit ↦ absurd (
                        ground (
                          arith,
                          one_next (next_of (s.queue.heap a)) b 0 (f real)
                              (ap (λ x. next_of (s.queue.heap x)) (==→eq a last hit) ∙ ends),
                          real,
                        ))
                    | inr miss ↦ ap next_of (same a miss) ∙ f real
                  ];
                  logged = λ u h. omega (arith, h, count-append u log (t ∷ []));
                })
                (
                  ground (arith, count-append t log (t ∷ [])),
                  subst (λ b. 0 < count b (s.queue.head.ptr ∷ addrs longer)) (sym at)
                      (omega (arith, count-longer last, there)),
                );
          alone = Alone-set xs log s inv i (linked t a c) (λ real. absurd (ground (arith, real)));
        }

  -- The state that a new call leaves.
  pub call-Inv :
      (n t : ℕ)
      → s.pc i ≡ idle
      → s.queue.heap n ≡ none
      → (n == 0) ≡ false
      → Inv xs log (called i n t s)
  call-Inv n t rests free real =
      let g : Heap = (called i n t s).queue.heap in
      let out = Seg-fresh s.queue.heap n s.queue.head.ptr last 0 cells path ends free in
      let same : (b : ℕ) → (b == n) ≡ false → g b ≡ s.queue.heap b = λ b ne. rw ne refl in
      let else_where : (a : ℕ) → 0 < count a chain → g a ≡ s.queue.heap a =
        λ a h. same a (ground (arith, off n a chain out h)) in
      record {
        cells = cells;
        last = last;
        path = Seg-out s.queue.heap g n s.queue.head.ptr last cells path out same;
        ends =
            ap next_of (else_where last (Seg-last s.queue.heap s.queue.head.ptr last cells path))
            ∙ ends;
        apart = apart;
        not_null = not_null;
        holds = holds;
        tail = tail;
        own =
            Own-set xs log s inv i g chain log (top n t)
              (λ j ne. record {
                waits = λ u v.
                    let here = same (node_at (s.pc j)) (unlike n (node_at (s.pc j)) v.next free) in
                    record {
                      value = ap value_of here ∙ v.value;
                      next = ap next_of here ∙ v.next;
                      out = v.out;
                      real = v.real;
                    };
                stays = λ a h. h;
                follows = λ a b h f some_next. ap next_of (else_where a h) ∙ f some_next;
                logged = λ u h. h;
              })
              (record { value = ground arith; next = ground arith; out = out; real = real });
        alone = Alone-set_pc i (top n t) s.pc alone (λ j ne r.
            elim (Bool-cases (node_at (s.pc j) == 0)) [
              | inl nothing ↦ ground (arith, real)
              | inr other ↦
                  let (u, v) = Own-Waiting s.queue.heap chain log (s.pc j) (own j) other in
                  ground (arith, unlike n (node_at (s.pc j)) v.next free)
            ]);
      }
    where
      nothing : {o : Option ℕ} → o ≡ none → o ≡ some 0 → ⊥
      nothing e f = cc

      unlike :
          (n m : ℕ) → next_of (s.queue.heap m) ≡ some 0 → s.queue.heap n ≡ none → (m == n) ≡ false
      unlike n m e f = elim (Bool-cases (m == n)) [
        | inl hit ↦ absurd (nothing (ap next_of (ap s.queue.heap (==→eq m n hit) ∙ f)) e)
        | inr miss ↦ miss
      ]
