-- ===== src/Clist/Remove.antt =====
-- `ST_REMOVE_LINK` on rings.
use st_nvs.Base.{
  ℕ, ◌+◌, ◌≤◌, ◌≡◌, ◌++◌, List, [], ◌∷◌, false, ◌==◌, if◌then◌else◌, arith, count, count-append,
  refl,
}
use st_nvs.Clist.{Links, remove}
use st_nvs.Clist.Ring.{Chain, Ring, Chain-split, Chain-frame, Chain-prev, Chain-next}

-- Where the removal changes a field.
remove_next :
    (e u : ℕ) (h : Links) → (remove e h).next u ≡ (if u == h.prev e then h.next e else h.next u)
unfolding remove
remove_next e u h = refl

remove_prev :
    (e u : ℕ) (h : Links)
    → (e == h.prev e) ≡ false
    → (remove e h).prev u ≡ (if u == h.next e then h.prev e else h.prev u)
unfolding remove
remove_prev e u h ne = ground arith

-- Two chains that meet in `e` are one chain once `e` is removed.
Chain-remove :
    (h : Links) (e a b : ℕ) (xs ys : List ℕ)
    → Chain h a xs e
    → Chain h e ys b
    → ((u : ℕ) → count u (a ∷ xs) + count u (e ∷ ys) ≤ 1)
    → count b xs + count b ys ≡ 0
    → (e == b) ≡ false
    → Chain (remove e h) a (xs ++ ys) b
Chain-remove h e a b [] [] s t apart off ne = (
  (rw (remove_next e a h) (ground (arith, s.1, t.0))),
  (rw (remove_prev e b h (ground (arith, s.1, apart a))) (ground (arith, s.1, t.0))),
)
Chain-remove h e a b [] (y ∷ ys) s t apart off ne =
    let loose : (e == h.prev e) ≡ false = ground (arith, s.1, apart a) in
    (
      rw (remove_next e a h) (ground (arith, s.1, t.0)),
      rw (remove_prev e y h loose) (ground (arith, s.1, t.0)),
      Chain-frame h (remove e h) y b ys t.2
          (λ u on. rw (remove_next e u h) (ground (arith, s.1, apart u)))
          (λ u on. rw (remove_prev e u h loose) (ground (arith, t.0, apart y, off))),
    )
Chain-remove h e a b (x ∷ xs) ys s t apart off ne =
    let before = Chain-prev h x e xs s.2 in
    let behind = Chain-next h e b ys t in
    let loose : (e == h.prev e) ≡ false = ground (arith, before, apart e) in
    (
      rw (remove_next e a h) (ground (arith, before, s.0, apart a)),
      rw (remove_prev e x h loose) (ground (arith, behind, s.1, apart x, off)),
      Chain-remove h e x b xs ys s.2 t (λ u. ground (arith, apart u)) (ground (arith, off)) ne,
    )

-- Removing a member takes it out of the ring and leaves the others in their order.
pub remove-Ring :
    (h : Links) (e l : ℕ) (xs ys : List ℕ)
    → Ring h l (xs ++ e ∷ ys)
    → Ring (remove e h) l (xs ++ ys)
remove-Ring h e l xs ys r =
    let (s, t) = Chain-split h l e l xs ys r.chain in
    let apart : (u : ℕ) → count u (l ∷ xs) + count u (e ∷ ys) ≤ 1 =
      λ u. ground (arith, r.apart u, count-append u xs (e ∷ ys)) in
    record {
      chain =
          Chain-remove h e l l xs ys s t apart (ground (arith, apart l)) (ground (arith, apart e));
      apart = λ u. ground (arith, apart u, count-append u xs ys);
    }
