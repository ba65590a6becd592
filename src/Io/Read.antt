-- ===== src/Io/Read.antt =====
-- `st_read_fully` over the calls that it makes.
use st_nvs.Base.{
  ℕ, ◌+◌, ◌-◌, ◌^◌, ◌<◌, ◌≡◌, ◌⊎◌, ◌++◌, true, false, ◌||◌, some, List, [], ◌∷◌, length, ◌==◌,
  ◌>>=◌, ulong_sub, pos, negsuc, arith, refl, inl, inr, ap, sym, ◌∙◌,
}
use st_nvs.Io.{
  Codes, Call, brought, Memory, failed, st_read, last_error, store_byte, store_bytes, read_loop,
  st_read_fully, _st_GetError,
}

-- A call that fails with the number `EINTR`, or one whose wait ends with at least one byte.
abbrev pub Interrupted : Codes → Call → Type 0
Interrupted c r = (st_read c r ≡ negsuc 0) × (_st_GetError c 0 (last_error c r) ≡ some c.eintr)

pub record Arrived (c : Codes) (r : Call) (bytes : List ℕ) : Type 0 where
  pub starts : failed c r ≡ false
  pub ends : r.completion ≡ brought bytes
  pub some_bytes : 0 < length bytes

-- Calls that keep the loop going, with the bytes that they bring together.
pub data Steady (c : Codes) : List Call → List ℕ → Type 0 where
  at_start : Steady c [] []
  retry :
      (r : Call) (rs : List Call) (bytes : List ℕ)
      → Interrupted c r
      → Steady c rs bytes
      → Steady c (r ∷ rs) bytes
  arrive :
      (r : Call) (rs : List Call) (new bytes : List ℕ)
      → Arrived c r new
      → Steady c rs bytes
      → Steady c (r ∷ rs) (new ++ bytes)

length-append : (xs ys : List ℕ) → length (xs ++ ys) ≡ length xs + length ys
length-append [] ys = omega arith
length-append (x ∷ xs) ys = omega (arith, length-append xs ys)

store_bytes-append :
    (a : ℕ) (xs ys : List ℕ) (mem : Memory)
    → store_bytes a (xs ++ ys) mem ≡ store_bytes (a + length xs) ys (store_bytes a xs mem)
unfolding store_bytes
store_bytes-append a [] ys mem = ap (λ b. store_bytes b ys mem) (omega arith)
store_bytes-append a (x ∷ xs) ys mem =
    store_bytes-append (a + 1) xs ys (store_byte a x mem)
    ∙ ap (λ b. store_bytes b ys (store_bytes (a + 1) xs (store_byte a x mem))) (omega arith)

-- One call that keeps the loop going.
loop_retry :
    (c : Codes) (nbyte nleft buf : ℕ) (r : Call) (rs : List Call) (mem : Memory)
    → Interrupted c r
    → 0 < nleft
    → read_loop c nbyte nleft buf (r ∷ rs) mem ≡ read_loop c nbyte nleft buf rs mem
unfolding read_loop
loop_retry c nbyte nleft buf r rs mem i some_left =
    let more : (nleft == 0) ≡ false = ground arith in
    let same : (c.eintr == c.eintr) ≡ true = ground arith in
    rw (more, read_loop, i.0, i.1, ◌>>=◌, same) refl

loop_arrive :
    (c : Codes) (nbyte nleft buf : ℕ) (r : Call) (rs : List Call) (new : List ℕ) (mem : Memory)
    → Arrived c r new
    → length new < nleft
    → nleft < 2 ^ 32
    → read_loop c nbyte nleft buf (r ∷ rs) mem
      ≡ read_loop c nbyte (nleft - length new) (buf + length new) rs (store_bytes buf new mem)
unfolding read_loop st_read
loop_arrive c nbyte nleft buf r rs new mem a lt small =
    let more : (nleft == 0) ≡ false = ground (arith, lt) in
    let left : ulong_sub nleft (length new) ≡ nleft - length new = omega (arith, lt, small) in
    let on : ((nleft - length new) == 0 || length new == 0) ≡ false =
      ground (arith, lt, a.some_bytes) in
    rw (more, read_loop, a.starts, a.ends, left, on) (rw (left, a.ends) refl)

-- All of them.
loop_Steady :
    (c : Codes) (nbyte nleft buf : ℕ) (rs es : List Call) (bytes : List ℕ) (mem : Memory)
    → Steady c rs bytes
    → length bytes < nleft
    → nleft < 2 ^ 32
    → read_loop c nbyte nleft buf (rs ++ es) mem
      ≡ read_loop c nbyte (nleft - length bytes) (buf + length bytes) es (store_bytes buf bytes mem)
unfolding store_bytes
loop_Steady c nbyte nleft buf _ es _ mem at_start lt small =
    let (n, b) : (nleft ≡ nleft - 0) × (buf ≡ buf + 0) = (omega arith, omega arith) in
    ap (λ k. read_loop c nbyte k buf es mem) n ∙ ap (λ k. read_loop c nbyte (nleft - 0) k es mem) b
loop_Steady c nbyte nleft buf _ es _ mem (retry r rs bytes i s) lt small =
    loop_retry c nbyte nleft buf r (rs ++ es) mem i (omega (arith, lt))
    ∙ loop_Steady c nbyte nleft buf rs es bytes mem s lt small
loop_Steady c nbyte nleft buf _ es _ mem (arrive r rs new bytes a s) lt small =
    let both = length-append new bytes in
    let later = store_bytes buf (new ++ bytes) mem in
    loop_arrive c nbyte nleft buf r (rs ++ es) new mem a (omega (arith, lt, both)) small
    ∙ loop_Steady c nbyte (nleft - length new) (buf + length new) rs es bytes
        (store_bytes buf new mem) s (omega (arith, lt, both)) (omega (arith, small))
    ∙ ap
        (λ m.
          read_loop c nbyte (nleft - length new - length bytes) (buf + length new + length bytes) es
            m)
        (sym (store_bytes-append buf new bytes mem))
    ∙ ap (λ k. read_loop c nbyte k (buf + length new + length bytes) es later) (omega (arith, both))
    ∙ ap (λ k. read_loop c nbyte (nleft - length (new ++ bytes)) k es later) (omega (arith, both))

loop_last :
    (c : Codes) (nbyte nleft buf : ℕ) (r : Call) (es : List Call) (new : List ℕ) (mem : Memory)
    → failed c r ≡ false
    → r.completion ≡ brought new
    → 0 < nleft
    → nleft < 2 ^ 32
    → (length new ≡ nleft) ⊎ (length new ≡ 0)
    → read_loop c nbyte nleft buf (r ∷ es) mem
      ≡ some (pos (ulong_sub nbyte (nleft - length new)), store_bytes buf new mem)
unfolding read_loop st_read
loop_last c nbyte nleft buf r es new mem f e some_left small last =
    let more : (nleft == 0) ≡ false = ground (arith, some_left) in
    let left : ulong_sub nleft (length new) ≡ nleft - length new = ground (arith, last, small) in
    let over : ((nleft - length new) == 0 || length new == 0) ≡ true = ground (arith, last) in
    rw (more, read_loop, f, e, left, over) (rw (left, e) refl)

-- The read over calls that keep the loop going.
read_Steady :
    (c : Codes) (nbyte buf : ℕ) (rs es : List Call) (bytes : List ℕ) (mem : Memory)
    → Steady c rs bytes
    → length bytes < nbyte
    → nbyte < 2 ^ 32
    → st_read_fully c nbyte buf (rs ++ es) mem
      ≡ read_loop c nbyte (nbyte - length bytes) (buf + length bytes) es (store_bytes buf bytes mem)
unfolding st_read_fully
read_Steady c nbyte buf rs es bytes mem s lt small =
    loop_Steady c nbyte nbyte buf rs es bytes mem s lt small

-- After calls that failed with the number `EINTR` and were made again, or brought bytes but not all,
-- the next call brings the rest: the read returns the size, and the buffer holds all bytes in order.
-- None of these calls returns from its wait before its completion has come.
pub st_read_fully_all :
    (c : Codes) (nbyte buf : ℕ) (rs es : List Call) (bytes new : List ℕ) (mem : Memory) (r : Call)
    → Steady c rs bytes
    → Arrived c r new
    → length bytes + length new ≡ nbyte
    → nbyte < 2 ^ 32
    → st_read_fully c nbyte buf (rs ++ r ∷ es) mem
      ≡ some (pos nbyte, store_bytes buf (bytes ++ new) mem)
st_read_fully_all c nbyte buf rs es bytes new mem r s a all small =
    let lt : length bytes < nbyte = omega (arith, all, a.some_bytes) in
    let left = nbyte - length bytes in
    let exact : length new ≡ left = omega (arith, all) in
    let size : ulong_sub nbyte (left - length new) ≡ nbyte = omega (arith, exact, small) in
    let now = store_bytes buf bytes mem in
    let at = buf + length bytes in
    read_Steady c nbyte buf rs (r ∷ es) bytes mem s lt small
    ∙ loop_last c nbyte left at r es new now a.starts a.ends (omega (arith, lt))
        (omega (arith, small)) (inl exact)
    ∙ ap (λ n. some (pos n, store_bytes at new now)) size
    ∙ ap (λ m. some (pos nbyte, m)) (sym (store_bytes-append buf bytes new mem))

-- After such calls the stream ends: the read returns how many bytes came, and the buffer holds them.
pub st_read_fully_end :
    (c : Codes) (nbyte buf : ℕ) (rs es : List Call) (bytes : List ℕ) (mem : Memory) (r : Call)
    → Steady c rs bytes
    → length bytes < nbyte
    → nbyte < 2 ^ 32
    → failed c r ≡ false
    → r.completion ≡ brought []
    → st_read_fully c nbyte buf (rs ++ r ∷ es) mem
      ≡ some (pos (length bytes), store_bytes buf bytes mem)
unfolding store_bytes
st_read_fully_end c nbyte buf rs es bytes mem r s lt small f e =
    let left = nbyte - length bytes in
    let size : ulong_sub nbyte (left - 0) ≡ length bytes = omega (arith, lt, small) in
    let now = store_bytes buf bytes mem in
    read_Steady c nbyte buf rs (r ∷ es) bytes mem s lt small
    ∙ loop_last c nbyte left (buf + length bytes) r es [] now f e (omega (arith, lt))
        (omega (arith, small)) (inr refl)
    ∙ ap (λ n. some (pos n, now)) size

-- After such calls one fails for another reason: the read returns -1.
pub st_read_fully_failure :
    (c : Codes) (nbyte buf : ℕ) (rs es : List Call) (bytes : List ℕ) (mem : Memory) (r : Call)
    → Steady c rs bytes
    → length bytes < nbyte
    → nbyte < 2 ^ 32
    → (e : ℕ) → st_read c r ≡ negsuc 0
    → _st_GetError c 0 (last_error c r) ≡ some e
    → (e == c.eintr) ≡ false
    → st_read_fully c nbyte buf (rs ++ r ∷ es) mem ≡ some (negsuc 0, store_bytes buf bytes mem)
unfolding read_loop
st_read_fully_failure c nbyte buf rs es bytes mem r s lt small e failure error other =
    let more : ((nbyte - length bytes) == 0) ≡ false = ground (arith, lt) in
    read_Steady c nbyte buf rs (r ∷ es) bytes mem s lt small
    ∙ rw (more, read_loop, failure, error, ◌>>=◌, other) refl
