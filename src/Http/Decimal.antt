-- ===== src/Http/Decimal.antt =====
-- Numbers in a text.
use st_nvs.Base.{
  ℕ, zero, suc, ◌+◌, ◌-◌, ◌*◌, ◌/◌, ◌%◌, ◌<◌, ◌^◌, ◌≡◌, ◌++◌, true, false, none, [], ◌∷◌, ap, refl,
  sym, ◌∙◌, arith, subst, if_both, ltb, ◌==◌,
}
use st_nvs.Text.{Bytes, codes, find, is_digit, is_space, digits_value, atoi}
use st_nvs.Http.{crlf, decimal}
use Prim.Native.Nat.pow

-- A text of digits.
abbrev pub Digits : Bytes → Type 0
Digits [] = Unit
Digits (c ∷ s) = (is_digit c ≡ true) × Digits s

Digits-append : (s t : Bytes) → Digits s → Digits t → Digits (s ++ t)
Digits-append [] t hs ht = ht
Digits-append (c ∷ s) t hs ht = (hs.0, Digits-append s t hs.1 ht)

pub decimal-Digits : (fuel n : ℕ) → Digits (decimal fuel n)
unfolding decimal
decimal-Digits zero n = tt
decimal-Digits (suc fuel) n =
    if_both Digits (ltb n 10) ((48 + n) ∷ []) (decimal fuel (n / 10) ++ (48 + n % 10) ∷ [])
      (λ small. (ground (arith, small), tt))
      (λ _.
        Digits-append (decimal fuel (n / 10)) ((48 + n % 10) ∷ []) (decimal-Digits fuel (n / 10))
          (ground arith, tt))

digits_value-snoc :
    (a : ℕ) (s : Bytes) (c : ℕ)
    → Digits s
    → is_digit c ≡ true
    → digits_value a (s ++ c ∷ []) ≡ digits_value a s * 10 + (c - 48)
unfolding digits_value
digits_value-snoc a [] c hs hc = rw hc refl
digits_value-snoc a (b ∷ s) c hs hc = rw (hs.0) (digits_value-snoc (a * 10 + (b - 48)) s c hs.1 hc)

pub digits_value-decimal : (fuel n : ℕ) → n < 10 ^ fuel → digits_value 0 (decimal fuel n) ≡ n
unfolding decimal digits_value
digits_value-decimal zero n h = omega (arith, h)
digits_value-decimal (suc fuel) n h =
    if_both (λ s. digits_value 0 s ≡ n) (ltb n 10) ((48 + n) ∷ [])
      (decimal fuel (n / 10) ++ (48 + n % 10) ∷ []) (λ small. ground (arith, small))
      (λ _.
        digits_value-snoc 0 (decimal fuel (n / 10)) (48 + n % 10) (decimal-Digits fuel (n / 10))
          (ground arith)
        ∙ ap (λ x. x * 10 + (48 + n % 10 - 48))
            (digits_value-decimal fuel (n / 10) (omega (arith, h, pow.suc 10 fuel)))
        ∙ omega arith)

-- Where the digits begin, `atoi` reads them.
atoi-Digits : (c : ℕ) (s : Bytes) → Digits (c ∷ s) → atoi (c ∷ s) ≡ digits_value 0 (c ∷ s) % 2 ^ 32
unfolding atoi
atoi-Digits c s h =
    let space : is_space c ≡ false = ground (arith, h.0) in
    let plus : (c == 43) ≡ false = ground (arith, h.0) in
    let minus : (c == 45) ≡ false = ground (arith, h.0) in rw (space, plus, minus) refl

snoc-nonempty : (s : Bytes) (x : ℕ) → (c : ℕ) × (t : Bytes) × (s ++ x ∷ [] ≡ c ∷ t)
snoc-nonempty [] x = (x, [], refl)
snoc-nonempty (c ∷ s) x = (c, s ++ x ∷ [], refl)

decimal-nonempty : (fuel n : ℕ) → (c : ℕ) × (s : Bytes) × (decimal (suc fuel) n ≡ c ∷ s)
unfolding decimal
decimal-nonempty fuel n =
    if_both (λ d. (c : ℕ) × (s : Bytes) × (d ≡ c ∷ s)) (ltb n 10) ((48 + n) ∷ [])
      (decimal fuel (n / 10) ++ (48 + n % 10) ∷ []) (λ _. (48 + n, [], refl))
      (λ _. snoc-nonempty (decimal fuel (n / 10)) (48 + n % 10))

pub atoi-decimal : (n : ℕ) → n < 10 ^ 9 → atoi (codes "  " ++ decimal 10 n) ≡ n
unfolding atoi
atoi-decimal n h =
    let (c, s, e) = decimal-nonempty 9 n in
    ap atoi e
    ∙ atoi-Digits c s (subst Digits e (decimal-Digits 10 n))
    ∙ ap (λ d. digits_value 0 d % 2 ^ 32) (sym e)
    ∙ ap (λ x. x % 2 ^ 32) (digits_value-decimal 10 n (omega (arith, h)))
    ∙ omega (arith, h)

pub find-crlf-Digits : (s : Bytes) → Digits s → find crlf s ≡ none
unfolding find
find-crlf-Digits [] h = refl
find-crlf-Digits (c ∷ s) h =
    let other : (13 == c) ≡ false = ground (arith, h.0) in rw (other, find-crlf-Digits s h.1) refl
