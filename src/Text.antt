-- ===== src/Text.antt =====
-- The texts of the platform server, as the codes of their bytes, and what the server uses of the
-- standard library: `std::string::find` and `substr`, a C string in a buffer, `sprintf_s` and `atoi`.
pub mod Search
use Prim.Native.Char.{code}
use Prim.Native.String.{String}
use st_nvs.Base.{
  ℕ, zero, suc, ◌+◌, ◌-◌, ◌*◌, ◌%◌, ◌/◌, ◌^◌, Bool, true, false, ◌&&◌, ◌||◌, Option, none, some,
  List, [], ◌∷◌, ◌++◌, ◌==◌, ltb, leb, if◌then◌else◌, length, ◌>>=◌,
}

abbrev pub Bytes : Type 0
Bytes = List ℕ

abbrev pub codes : String → Bytes
codes String.[] = []
codes (String.◌∷◌ c s) = code c ∷ codes s

-- `std::string::compare` with the answer 0
abbrev pub equal : Bytes → Bytes → Bool
equal [] [] = true
equal [] (b ∷ t) = false
equal (a ∷ s) [] = false
equal (a ∷ s) (b ∷ t) = (a == b) && equal s t

-- The text of a buffer: the bytes before the first that is 0.
unfoldable pub c_str : Bytes → Bytes
c_str [] = []
c_str (a ∷ s) = let rest = c_str s in if a == 0 then [] else a ∷ rest

abbrev pub starts : (pattern : Bytes) → Bytes → Bool
starts [] s = true
starts (p ∷ ps) [] = false
starts (p ∷ ps) (a ∷ s) = (p == a) && starts ps s

-- `find`; `none` is `npos`, which the callers turn into -1.
unfoldable pub find : (pattern : Bytes) → Bytes → Option ℕ
find p [] = if starts p [] then some 0 else none
find p (a ∷ s) =
    let rest = find p s in if starts p (a ∷ s) then some 0 else (rest >>= λ i. some (i + 1))

abbrev pub drop : ℕ → Bytes → Bytes
drop zero s = s
drop (suc n) [] = []
drop (suc n) (a ∷ s) = drop n s

abbrev pub take : ℕ → Bytes → Bytes
take zero s = []
take (suc n) [] = []
take (suc n) (a ∷ s) = a ∷ take n s

-- `sprintf_s`: a text that does not fit with its 0 ends the program (`none`).
unfoldable pub sprintf_s : (size : ℕ) → Bytes → Option Bytes
sprintf_s size s = if ltb (length s) size then some s else none

abbrev pub is_digit : ℕ → Bool
is_digit c = leb 48 c && leb c 57

abbrev pub is_space : ℕ → Bool
is_space c = (c == 32) || (leb 9 c && leb c 13)

-- `atoi` without a sign: the number that the digits at the front are.
unfoldable pub digits_value : ℕ → Bytes → ℕ
digits_value n [] = n
digits_value n (c ∷ s) =
    let rest = digits_value (n * 10 + (c - 48)) s in if is_digit c then rest else n

unfoldable pub atoi : Bytes → ℕ
unfolding digits_value
atoi [] = 0
atoi (c ∷ s) =
    let rest = atoi s in
    if is_space c
    then rest
    else if c == 43
    then digits_value 0 s % 2 ^ 32
    else if c == 45
    then (2 ^ 32 - digits_value 0 s % 2 ^ 32) % 2 ^ 32
    else digits_value 0 (c ∷ s) % 2 ^ 32
