-- ===== src/LockFree/Concurrent/Kept.antt =====
-- Steps of a concurrent call of `_st_lock_free_enqueue` that link no node.
use mathlib.Core.List.{append-nil}
use st_nvs.Base.{
  ℕ, ◌<◌, ◌≡◌, ◌++◌, false, List, [], ◌∷◌, ◌==◌, arith, count, sym, subst, ◌∙◌, Ensures, if_both,
}
use st_nvs.LockFree.{Pointer, Heap}
use st_nvs.LockFree.Chain.{addrs, next_of, value_of}
use st_nvs.LockFree.Concurrent.{Pc, System, set_pc, moved, quiet}
use st_nvs.LockFree.Concurrent.Own.{node_at, Own, Unnoticed, Own-stays, Alone, Inv, Alone-set_pc}
use st_nvs.LockFree.Concurrent.Links.{Seg-same}

module _ (xs log : List ℕ) (s : System) (inv : Inv xs log s) (i : ℕ) where
  open inv use {cells, last, path, ends, apart, not_null, holds, tail, own, alone}

  abbrev pub on : List ℕ
  on = s.queue.head.ptr ∷ addrs cells

  pub Alone-set :
      (p : Pc)
      → ((node_at p == 0) ≡ false → node_at p ≡ node_at (s.pc i))
      → Alone (λ j. node_at (set_pc i p s.pc j))
  Alone-set p same =
      Alone-set_pc i p s.pc alone (λ j ne real. ground (arith, alone i j, same real, ne, real))

  -- The other calls do not notice a step, and the one that makes it knows what it must.
  pub Own-set :
      (g : Heap) (on' log' : List ℕ) (p : Pc)
      → ((j : ℕ) → (j == i) ≡ false → Unnoticed s.queue.heap g on on' log log' (node_at (s.pc j)))
      → Own g on' log' p
      → (j : ℕ) → Own g on' log' (set_pc i p s.pc j)
  Own-set g on' log' p u o j =
      if_both (Own g on' log') (j == i) p (s.pc j) (λ e. o)
        (λ ne. Own-stays s.queue.heap g on on' log log' (s.pc j) (u j ne) (own j))

  -- A step that leaves the heap as it is.
  pub quiet-Inv :
      (t : Pointer) (p : Pc)
      → 0 < count t.ptr on
      → ((node_at p == 0) ≡ false → node_at p ≡ node_at (s.pc i))
      → Own s.queue.heap on log p
      → Ensures (λ m. Inv xs (log ++ m.log) (moved i m s)) (quiet (record (s.queue) { tail = t }) p)
  quiet-Inv t p there same o =
      subst
        (λ l.
          Inv xs l (moved i (record { queue = record (s.queue) { tail = t }; pc = p; log = [] }) s))
        (sym (append-nil log))
        (record {
          cells = cells;
          last = last;
          path = path;
          ends = ends;
          apart = apart;
          not_null = not_null;
          holds = holds;
          tail = there;
          own =
              Own-set s.queue.heap on log p
                (λ j ne. record {
                  waits = λ t w. w;
                  stays = λ a h. h;
                  follows = λ a b h f. f;
                  logged = λ t h. h;
                })
                o;
          alone = Alone-set p same;
        })

  -- A step that changes nothing of the heap but the count of a node.
  pub count-Inv :
      (g : Heap) (p : Pc)
      → ((b : ℕ)
          → (next_of (g b) ≡ next_of (s.queue.heap b))
            × (value_of (g b) ≡ value_of (s.queue.heap b)))
      → (node_at p ≡ 0)
      → Own g on log p
      → Ensures (λ m. Inv xs (log ++ m.log) (moved i m s)) (quiet (record (s.queue) { heap = g }) p)
  count-Inv g p same none_left o =
      subst
        (λ l.
          Inv xs l (moved i (record { queue = record (s.queue) { heap = g }; pc = p; log = [] }) s))
        (sym (append-nil log))
        (record {
          cells = cells;
          last = last;
          path = Seg-same s.queue.heap g s.queue.head.ptr last cells same path;
          ends = (same last).0 ∙ ends;
          apart = apart;
          not_null = not_null;
          holds = holds;
          tail = tail;
          own =
              Own-set g on log p
                (λ j ne. record {
                  waits = λ t w. record {
                    value = (same (node_at (s.pc j))).1 ∙ w.value;
                    next = (same (node_at (s.pc j))).0 ∙ w.next;
                    out = w.out;
                    real = w.real;
                  };
                  stays = λ a h. h;
                  follows = λ a b h f real. (same a).0 ∙ f real;
                  logged = λ t h. h;
                })
                o;
          alone = Alone-set p (λ real. absurd (ground (arith, none_left, real)));
        })
