-- ===== src/Clist/Insert.antt =====
-- `ST_INSERT_BEFORE` and `ST_APPEND_LINK` on rings.
use st_nvs.Base.{
  ℕ, ◌+◌, ◌≤◌, ◌≡◌, ◌++◌, List, [], ◌∷◌, false, ◌==◌, if◌then◌else◌, arith, count, count-append,
  refl, ap, subst,
}
use st_nvs.Clist.{Links, insert_before}
use st_nvs.Clist.Ring.{Chain, Ring, Chain-append, Chain-split, Chain-frame, Chain-prev}

-- Where the insertion changes a field.
insert_next :
    (e l u : ℕ) (h : Links)
    → (e == l) ≡ false
    → (insert_before e l h).next u ≡ (if u == h.prev l then e else if u == e then l else h.next u)
unfolding insert_before
insert_next e l u h ne = ground arith

insert_prev :
    (e l u : ℕ) (h : Links)
    → (insert_before e l h).prev u ≡ (if u == l then e else if u == e then h.prev l else h.prev u)
unfolding insert_before
insert_prev e l u h = ground arith

-- The new link ends a chain in front of `p`.
Chain-insert :
    (h : Links) (e a p : ℕ) (xs : List ℕ)
    → Chain h a xs p
    → ((u : ℕ) → count u (a ∷ xs) ≤ 1)
    → count p xs ≡ 0
    → count e (a ∷ xs) ≡ 0
    → (e == p) ≡ false
    → Chain (insert_before e p h) a (xs ++ e ∷ []) p
Chain-insert h e a p [] c apart off fresh ne = (
  rw (insert_next e p a h ne) (ground (arith, c.1)),
  rw (insert_prev e p e h) (ground (arith, c.1)),
  (
    rw (insert_next e p e h ne) (ground (arith, c.1, fresh)),
    rw (insert_prev e p p h) (ground arith),
  ),
)
Chain-insert h e a p (x ∷ xs) c apart off fresh ne =
    let later = Chain-prev h x p xs c.2 in
    (
      (rw (insert_next e p a h ne) (ground (arith, c.0, later, apart a))),
      (rw (insert_prev e p x h) (ground (arith, c.1))),
      Chain-insert h e x p xs c.2 (λ u. ground (arith, apart u)) (ground arith) (ground arith) ne,
    )

-- Appending a link that is not in the ring puts it last.
pub insert_before-append :
    (h : Links) (e l : ℕ) (xs : List ℕ)
    → Ring h l xs
    → count e (l ∷ xs) ≡ 0
    → Ring (insert_before e l h) l (xs ++ e ∷ [])
insert_before-append h e l xs r fresh = record {
  chain = Chain-insert h e l l xs r.chain r.apart (ground (arith, r.apart l)) fresh (ground arith);
  apart = λ u. ground (arith, r.apart u, fresh, count-append u xs (e ∷ []));
}

append_assoc : (xs : List ℕ) (e : ℕ) (ys : List ℕ) → (xs ++ e ∷ []) ++ ys ≡ xs ++ e ∷ ys
append_assoc [] e ys = refl
append_assoc (x ∷ xs) e ys = ap (λ zs. x ∷ zs) (append_assoc xs e ys)

-- The part of the ring behind `p` does not change.
behind-Chain :
    (h : Links) (e l p : ℕ) (xs ys : List ℕ)
    → Chain h l xs p
    → Chain h p ys l
    → ((u : ℕ) → count u (l ∷ xs) + count u (p ∷ ys) ≤ 1)
    → count e (l ∷ xs) + count e (p ∷ ys) ≡ 0
    → (e == p) ≡ false
    → Chain (insert_before e p h) p ys l
behind-Chain h e l p xs ys s t apart fresh ne =
    let before = Chain-prev h l p xs s in
    Chain-frame h (insert_before e p h) p l ys t
      (λ u on. rw (insert_next e p u h ne) (ground (arith, before, apart u, fresh)))
      (λ u on. rw (insert_prev e p u h) (ground (arith, apart u, apart p, fresh)))

-- Inserting it before a member puts it there.
pub insert_before-Ring :
    (h : Links) (e l p : ℕ) (xs ys : List ℕ)
    → Ring h l (xs ++ p ∷ ys)
    → count e (l ∷ xs ++ p ∷ ys) ≡ 0
    → Ring (insert_before e p h) l (xs ++ e ∷ p ∷ ys)
insert_before-Ring h e l p xs ys r fresh =
    let (s, t) = Chain-split h l p l xs ys r.chain in
    let apart : (u : ℕ) → count u (l ∷ xs) + count u (p ∷ ys) ≤ 1 =
      λ u. ground (arith, r.apart u, count-append u xs (p ∷ ys)) in
    let off : count e (l ∷ xs) + count e (p ∷ ys) ≡ 0 =
      ground (arith, fresh, count-append e xs (p ∷ ys)) in
    let ne : (e == p) ≡ false = ground (arith, off) in
    let front =
      Chain-insert h e l p xs s (λ u. ground (arith, apart u)) (ground (arith, apart p))
        (ground (arith, off)) ne in
    record {
      chain =
          subst (λ zs. Chain (insert_before e p h) l zs l) (append_assoc xs e (p ∷ ys))
            (Chain-append (insert_before e p h) l p l (xs ++ e ∷ []) ys front
              (behind-Chain h e l p xs ys s t apart off ne));
      apart = λ u. ground (arith, apart u, off, count-append u xs (e ∷ p ∷ ys));
    }
