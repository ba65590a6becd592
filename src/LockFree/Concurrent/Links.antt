-- ===== src/LockFree/Concurrent/Links.antt =====
-- The links between the nodes of a chain.
use st_nvs.Base.{
  ℕ, ◌<◌, ◌≡◌, ◌++◌, false, Option, none, some, List, [], ◌∷◌, ◌==◌, ==→eq, arith, count, refl,
  Bool-cases, if_both, inl, inr, ap, sym, subst, ◌∙◌, if_both,
}
use st_nvs.LockFree.{store, Node, Heap, store}
use st_nvs.LockFree.Chain.{Cell, addrs, next_of, value_of, Seg, node_of}

abbrev pub recounted : Heap → (a c : ℕ) → Node → Heap
recounted h a c k = store a (some (record k { next = record { ptr = k.next.ptr; count = c } })) h

pub one_next : (o : Option ℕ) (x y : ℕ) → o ≡ some x → o ≡ some y → x ≡ y
one_next none x y e f = absurd (apart e)
  where
    apart : none ≡ some x → ⊥
    apart e = cc
one_next (some z) x y e f = ground (arith, e, f)

-- The node behind a node of the chain is in the chain.
pub Seg-next :
    (h : Heap) (p last a b : ℕ) (cs : List Cell)
    → Seg h p cs last
    → next_of (h last) ≡ some 0
    → 0 < count a (p ∷ addrs cs)
    → next_of (h a) ≡ some b
    → (b == 0) ≡ false
    → 0 < count b (p ∷ addrs cs)
Seg-next h p last a b [] s e on next real = grind (arith, s, e, on, next, real)
Seg-next h p last a b (c ∷ cs) s e on next real = elim (Bool-cases (p == a)) [
  | inl hit ↦
      let is_next : c.addr ≡ b =
        one_next (next_of (h a)) c.addr b (ap (λ x. next_of (h x)) (sym (==→eq p a hit)) ∙ s.0)
          next in
      ground (arith, is_next)
  | inr miss ↦
      let rest = Seg-next h c.addr last a b cs s.2 e (ground (arith, on, miss)) next real in
      ground (arith, rest)
]

-- Only behind the last node there is none.
pub Seg-stop :
    (h : Heap) (p last a : ℕ) (cs : List Cell)
    → Seg h p cs last
    → count 0 (p ∷ addrs cs) ≡ 0
    → 0 < count a (p ∷ addrs cs)
    → next_of (h a) ≡ some 0
    → a ≡ last
Seg-stop h p last a [] s real on next = ground (arith, s, on)
Seg-stop h p last a (c ∷ cs) s real on next = elim (Bool-cases (p == a)) [
  | inl hit ↦
      let is_next : c.addr ≡ 0 =
        one_next (next_of (h a)) c.addr 0 (ap (λ x. next_of (h x)) (sym (==→eq p a hit)) ∙ s.0)
          next in
      absurd (ground (arith, is_next, real))
  | inr miss ↦
      Seg-stop h c.addr last a cs s.2 (ground (arith, real)) (ground (arith, on, miss)) next
]

-- The nodes of the chain are allocated.
pub Seg-node :
    (h : Heap) (p last a : ℕ) (cs : List Cell)
    → Seg h p cs last
    → next_of (h last) ≡ some 0
    → 0 < count a (p ∷ addrs cs)
    → (n : Node) × (h a ≡ some n)
Seg-node h p last a [] s e on =
    let (n, at, end) =
      node_of (h a) 0 (ap (λ x. next_of (h x)) {x = a} {y = last} (ground (arith, s, on)) ∙ e) in
    (n, at)
Seg-node h p last a (c ∷ cs) s e on = elim (Bool-cases (p == a)) [
  | inl hit ↦
      let (n, at, next) =
        node_of (h a) c.addr (ap (λ x. next_of (h x)) (sym (==→eq p a hit)) ∙ s.0) in
      (n, at)
  | inr miss ↦ Seg-node h c.addr last a cs s.2 e (ground (arith, on, miss))
]

pub Seg-same :
    (h g : Heap) (p last : ℕ) (cs : List Cell)
    → ((b : ℕ) → (next_of (g b) ≡ next_of (h b)) × (value_of (g b) ≡ value_of (h b)))
    → Seg h p cs last
    → Seg g p cs last
Seg-same h g p last [] same s = s
Seg-same h g p last (c ∷ cs) same s =
    ((same p).0 ∙ s.0, (same c.addr).1 ∙ s.1, Seg-same h g c.addr last cs same s.2)

pub off : (a b : ℕ) (l : List ℕ) → count a l ≡ 0 → 0 < count b l → (a == b) ≡ false
off a b l out on = elim (Bool-cases (a == b)) [
  | inl same ↦ absurd (omega (arith, on, out, ap (λ c. count c l) (==→eq a b same)))
  | inr other ↦ other
]

-- A node with another count has the same links.
pub same-count :
    (h : Heap) (a c : ℕ) (k : Node)
    → h a ≡ some k
    → (b : ℕ)
    → (next_of (recounted h a c k b) ≡ next_of (h b))
      × (value_of (recounted h a c k b) ≡ value_of (h b))
same-count h a c k at b =
    if_both (λ o. (next_of o ≡ next_of (h b)) × (value_of o ≡ value_of (h b))) (b == a)
      (some (record k { next = record { ptr = k.next.ptr; count = c } })) (h b)
      (λ e. let here = ap h (==→eq b a e) ∙ at in (sym (ap next_of here), sym (ap value_of here)))
      (λ e. (refl, refl))

-- A chain may be cut at any of its nodes.
pub record Cut (h : Heap) (p mid last : ℕ) (cs : List Cell) : Type 0 where
  pub before : List Cell
  pub behind : List Cell
  pub whole : before ++ behind ≡ cs
  pub to_mid : Seg h p before mid
  pub from_mid : Seg h mid behind last

pub Seg-Cut :
    (h : Heap) (p mid last : ℕ) (cs : List Cell)
    → Seg h p cs last
    → 0 < count mid (p ∷ addrs cs)
    → Cut h p mid last cs
Seg-Cut h p mid last [] s on =
    let here : p ≡ mid = ground (arith, on) in
    record { before = []; behind = []; whole = refl; to_mid = here; from_mid = sym here ∙ s }
Seg-Cut h p mid last (c ∷ cs) s on = elim (Bool-cases (p == mid)) [
  | inl hit ↦
      let here = ==→eq p mid hit in
      record {
        before = [];
        behind = c ∷ cs;
        whole = refl;
        to_mid = here;
        from_mid = subst (λ a. Seg h a (c ∷ cs) last) here s;
      }
  | inr miss ↦
      let rest = Seg-Cut h c.addr mid last cs s.2 (ground (arith, on, miss)) in
      record {
        before = c ∷ rest.before;
        behind = rest.behind;
        whole = ap (λ l. c ∷ l) rest.whole;
        to_mid = (s.0, s.1, rest.to_mid);
        from_mid = rest.from_mid;
      }
]
