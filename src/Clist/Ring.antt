-- ===== src/Clist/Ring.antt =====
-- What a ring of links stands for.
use st_nvs.Base.{ℕ, ◌<◌, ◌≤◌, ◌≡◌, ◌++◌, List, [], ◌∷◌, true, arith, count, refl}
use st_nvs.Clist.{Links, clist_is_empty, init_clist}

-- From `a` the `next` fields lead through the members to `b`, and the `prev` fields back.
abbrev pub Chain : Links → ℕ → List ℕ → ℕ → Type 0
Chain h a [] b = (h.next a ≡ b) × (h.prev b ≡ a)
Chain h a (x ∷ xs) b = (h.next a ≡ x) × (h.prev x ≡ a) × Chain h x xs b

-- A list head `l` with its members, all distinct.
pub record Ring (h : Links) (l : ℕ) (xs : List ℕ) : Type 0 where
  pub chain : Chain h l xs l
  pub apart : (u : ℕ) → count u (l ∷ xs) ≤ 1

pub Chain-append :
    (h : Links) (a p b : ℕ) (xs ys : List ℕ)
    → Chain h a xs p
    → Chain h p ys b
    → Chain h a (xs ++ p ∷ ys) b
Chain-append h a p b [] ys s t = (s.0, s.1, t)
Chain-append h a p b (x ∷ xs) ys s t = (s.0, s.1, Chain-append h x p b xs ys s.2 t)

pub Chain-split :
    (h : Links) (a p b : ℕ) (xs ys : List ℕ)
    → Chain h a (xs ++ p ∷ ys) b
    → Chain h a xs p × Chain h p ys b
Chain-split h a p b [] ys c = ((c.0, c.1), c.2)
Chain-split h a p b (x ∷ xs) ys c = let (s, t) = Chain-split h x p b xs ys c.2 in ((c.0, c.1, s), t)

-- A chain reads `next` from its start and its members, and `prev` at its members and its end.
pub Chain-frame :
    (h g : Links) (a b : ℕ) (xs : List ℕ)
    → Chain h a xs b
    → ((u : ℕ) → 0 < count u (a ∷ xs) → g.next u ≡ h.next u)
    → ((u : ℕ) → 0 < count u (b ∷ xs) → g.prev u ≡ h.prev u)
    → Chain g a xs b
Chain-frame h g a b [] c n p = (ground (arith, n a, c.0), ground (arith, p b, c.1))
Chain-frame h g a b (x ∷ xs) c n p = (
  ground (arith, n a, c.0),
  ground (arith, p x, c.1),
  Chain-frame h g x b xs c.2 (λ u on. n u (ground arith)) (λ u on. p u (ground arith)),
)

-- The end's predecessor is the last member, or the start.
pub Chain-prev :
    (h : Links) (a b : ℕ) (xs : List ℕ) → Chain h a xs b → 0 < count (h.prev b) (a ∷ xs)
Chain-prev h a b [] c = ground (arith, c.1)
Chain-prev h a b (x ∷ xs) c = ground (arith, Chain-prev h x b xs c.2)

-- The start's successor is the first member, or the end.
pub Chain-next :
    (h : Links) (a b : ℕ) (xs : List ℕ) → Chain h a xs b → 0 < count (h.next a) (b ∷ xs)
Chain-next h a b [] c = ground (arith, c.0)
Chain-next h a b (x ∷ xs) c = ground (arith, c.0)

-- A list head is empty by the macro exactly if its ring has no members; and initialising a link
-- makes an empty ring of it.
pub clist_is_empty-Ring :
    (h : Links) (l : ℕ) (xs : List ℕ)
    → Ring h l xs
    → (clist_is_empty l h ≡ true → xs ≡ []) × (xs ≡ [] → clist_is_empty l h ≡ true)
unfolding clist_is_empty
clist_is_empty-Ring h l [] r = (λ e. refl, λ e. ground (arith, r.chain.0))
clist_is_empty-Ring h l (x ∷ xs) r = (λ e. ground (arith, r.chain.0, r.apart l), λ e. cc)

pub init_clist-Ring : (h : Links) (l : ℕ) → Ring (init_clist l h) l []
unfolding init_clist
init_clist-Ring h l = record { chain = (ground arith, ground arith); apart = λ u. ground arith }
