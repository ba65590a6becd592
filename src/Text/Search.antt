-- ===== src/Text/Search.antt =====
-- Cutting a text where it was found, and fitting it in a buffer.
use st_nvs.Base.{
  ℕ, some, ltb-true, if◌then◌else◌, none, ◌+◌, ◌<◌, ◌≡◌, ◌++◌, [], ◌∷◌, ap, refl, length, arith,
}
use st_nvs.Text.{Bytes, take, drop, sprintf_s}

pub drop-append : (s t : Bytes) → drop (length s) (s ++ t) ≡ t
drop-append [] t = refl
drop-append (a ∷ s) t = drop-append s t

pub take-append : (s t : Bytes) → take (length s) (s ++ t) ≡ s
take-append [] t = refl
take-append (a ∷ s) t = ap (λ q. a ∷ q) (take-append s t)

pub length-append : (s t : Bytes) → length (s ++ t) ≡ length s + length t
length-append [] t = omega arith
length-append (a ∷ s) t = omega (arith, length-append s t)

pub sprintf_s-fits : (size : ℕ) (s : Bytes) → length s < size → sprintf_s size s ≡ some s
unfolding sprintf_s
sprintf_s-fits size s h = ap (λ b. if b then some s else none) (ltb-true (length s) size h)
