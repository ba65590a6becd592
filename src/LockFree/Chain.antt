-- ===== src/LockFree/Chain.antt =====
-- What the nodes of the queue stand for.
use mathlib.Core.List.{map-append}
use st_nvs.Base.{
  ℕ, ◌≤◌, ◌<◌, ◌≡◌, ◌++◌, false, Option, none, some, List, [], ◌∷◌, ◌==◌, ==→eq, arith, count, map,
  refl, Bool-cases, inl, inr, ap, sym, subst, ◌∙◌,
}
use st_nvs.LockFree.{Heap, Node, Queue}

-- A node behind the dummy, with its thread.
pub record Cell : Type 0 where
  pub addr : ℕ
  pub thread : ℕ

abbrev pub cell : ℕ → ℕ → Cell
cell a t = record { addr = a; thread = t }

abbrev pub addrs : List Cell → List ℕ
addrs = map (λ c. c.addr)

abbrev pub values : List Cell → List ℕ
values = map (λ c. c.thread)

abbrev pub next_of : Option Node → Option ℕ
next_of none = none
next_of (some n) = some n.next.ptr

abbrev pub value_of : Option Node → Option ℕ
value_of none = none
value_of (some n) = some n.value

-- From `p` the links lead through the cells to `last`.
abbrev pub Seg : Heap → ℕ → List Cell → ℕ → Type 0
Seg h p [] last = p ≡ last
Seg h p (c ∷ cs) last =
    (next_of (h p) ≡ some c.addr) × (value_of (h c.addr) ≡ some c.thread) × Seg h c.addr cs last

-- The cells up to the tail and behind it: a call that finds the tail behind moves it on.
pub record IsQueue (q : Queue) (xs : List ℕ) : Type 0 where
  pub before : List Cell
  pub behind : List Cell
  pub last : ℕ
  pub to_tail : Seg q.heap q.head.ptr before q.tail.ptr
  pub from_tail : Seg q.heap q.tail.ptr behind last
  pub ends : next_of (q.heap last) ≡ some 0
  pub apart : (a : ℕ) → count a (q.head.ptr ∷ addrs before ++ addrs behind) ≤ 1
  pub not_null : count 0 (q.head.ptr ∷ addrs before ++ addrs behind) ≡ 0
  pub holds : xs ≡ values before ++ values behind

pub Seg-last :
    (h : Heap) (p last : ℕ) (cs : List Cell) → Seg h p cs last → 0 < count last (p ∷ addrs cs)
Seg-last h p last [] s = ground arith
Seg-last h p last (c ∷ cs) s = ground (arith, Seg-last h c.addr last cs s.2)

pub Seg-append :
    (h : Heap) (p mid last : ℕ) (cs ds : List Cell)
    → Seg h p cs mid
    → Seg h mid ds last
    → Seg h p (cs ++ ds) last
Seg-append h p mid last [] ds s t = subst (λ a. Seg h a ds last) (sym s) t
Seg-append h p mid last (c ∷ cs) ds s t = (s.0, s.1, Seg-append h c.addr mid last cs ds s.2 t)

-- A change elsewhere does not matter.
pub Seg-out :
    (h g : Heap) (a p last : ℕ) (cs : List Cell)
    → Seg h p cs last
    → count a (p ∷ addrs cs) ≡ 0
    → ((b : ℕ) → (b == a) ≡ false → g b ≡ h b)
    → Seg g p cs last
Seg-out h g a p last [] s out same = s
Seg-out h g a p last (c ∷ cs) s out same = (
  ground (arith, s.0, same p),
  ground (arith, s.1, same c.addr),
  Seg-out h g a c.addr last cs s.2 (ground arith) same,
)

-- Nor does a change of the last node that keeps its value.
pub Seg-end :
    (h g : Heap) (p last : ℕ) (cs : List Cell)
    → Seg h p cs last
    → ((b : ℕ) → count b (p ∷ addrs cs) ≤ 1)
    → ((b : ℕ) → (b == last) ≡ false → g b ≡ h b)
    → value_of (g last) ≡ value_of (h last)
    → Seg g p cs last
Seg-end h g p last [] s apart same kept = s
Seg-end h g p last (c ∷ cs) s apart same kept =
    let other : (p == last) ≡ false = ground (arith, apart p, Seg-last h c.addr last cs s.2) in
    let value : value_of (g c.addr) ≡ value_of (h c.addr) = elim (Bool-cases (c.addr == last)) [
      | inl hit ↦ rw (==→eq c.addr last hit) kept
      | inr miss ↦ ap value_of (same c.addr miss)
    ] in
    (
      rw (same p other) s.0,
      value ∙ s.1,
      Seg-end h g c.addr last cs s.2 (λ b. ground (arith, apart b)) same kept,
    )

-- An allocated node, from one of its fields.
pub node_of :
    (o : Option Node) (p : ℕ) → next_of o ≡ some p → (n : Node) × (o ≡ some n) × (n.next.ptr ≡ p)
node_of none p e = absurd (elim_none e)
  where
    elim_none : none ≡ some p → ⊥
    elim_none e = cc
node_of (some n) p e = (n, refl, ground arith)

-- A cell may be counted on either side of the tail.
pub addrs-move :
    (a : ℕ) (before behind : List Cell) (c : Cell)
    → count a (addrs (before ++ c ∷ []) ++ addrs behind)
      ≡ count a (addrs before ++ addrs (c ∷ behind))
addrs-move a [] behind c = refl
addrs-move a (b ∷ before) behind c = ground (arith, addrs-move a before behind c)

pub values-move :
    (before behind : List Cell) (c : Cell)
    → values (before ++ c ∷ []) ++ values behind ≡ values before ++ values (c ∷ behind)
values-move [] behind c = refl
values-move (b ∷ before) behind c = ap (λ l. b.thread ∷ l) (values-move before behind c)

-- An address that is not allocated is not in the queue.
pub Seg-fresh :
    (h : Heap) (a p last x : ℕ) (cs : List Cell)
    → Seg h p cs last
    → next_of (h last) ≡ some x
    → h a ≡ none
    → count a (p ∷ addrs cs) ≡ 0
Seg-fresh h a p last x [] s e free = elim (Bool-cases (p == a)) [
  | inl same ↦
      absurd (
        taken (sym (ap (λ b. next_of (h b)) (sym (==→eq p a same) ∙ s)) ∙ ap next_of free ∙ refl) e)
  | inr other ↦ ground arith
]
  where
    taken : next_of (h last) ≡ none → next_of (h last) ≡ some x → ⊥
    taken e e' = cc
Seg-fresh h a p last x (c ∷ cs) s e free = elim (Bool-cases (p == a)) [
  | inl same ↦ absurd (taken (ap next_of (ap h (==→eq p a same) ∙ free)) s.0)
  | inr other ↦ ground (arith, Seg-fresh h a c.addr last x cs s.2 e free)
]
  where
    taken : next_of (h p) ≡ none → next_of (h p) ≡ some c.addr → ⊥
    taken e e' = cc

pub Queue_fresh :
    (q : Queue) (xs : List ℕ) (a : ℕ)
    → (i : IsQueue q xs) → q.heap a ≡ none
    → count a (q.head.ptr ∷ addrs i.before ++ addrs i.behind) ≡ 0
Queue_fresh q xs a i free =
    let whole =
      Seg-append q.heap q.head.ptr q.tail.ptr i.last i.before i.behind i.to_tail i.from_tail in
    ap (λ l. count a (q.head.ptr ∷ l)) (sym (map-append (λ (c : Cell). c.addr) i.before i.behind))
    ∙ Seg-fresh q.heap a q.head.ptr i.last 0 (i.before ++ i.behind) whole i.ends free
