-- ===== src/Io/Errors.antt =====
-- `st_read_fully` when a call was interrupted.
use st_nvs.Base.{
  ℕ, ◌<◌, ◌≤◌, ◌^◌, ◌≡◌, ◌++◌, true, false, some, List, ◌∷◌, length, ltb, ◌==◌, negsuc, arith, refl,
}
use st_nvs.Io.{
  Codes, Call, Memory, failed, st_read, last_error, switch, _st_GetError, store_bytes,
  st_read_fully,
}
use st_nvs.Io.Read.{Steady, st_read_fully_failure}

interrupted_error :
    (c : Codes) → c.wsabaseerr ≤ c.wsaeintr → _st_GetError c 0 c.wsaeintr ≡ some c.wsaeintr
unfolding _st_GetError switch
interrupted_error c above =
    let off : ltb c.wsaeintr c.wsabaseerr ≡ false = ground (arith, above) in
    let same : (c.wsaeintr == c.wsaeintr) ≡ true = ground arith in rw (off, same) refl

-- A call that Winsock reports as interrupted is not made again: the error keeps its own number,
-- which is none of the small ones, and the read ends with -1, although the bytes that came before
-- stand in the buffer.
pub st_read_fully_interrupted :
    (c : Codes) (nbyte buf : ℕ) (rs es : List Call) (bytes : List ℕ) (mem : Memory) (r : Call)
    → Steady c rs bytes
    → length bytes < nbyte
    → nbyte < 2 ^ 32
    → failed c r ≡ true
    → r.error ≡ c.wsaeintr
    → c.wsabaseerr ≤ c.wsaeintr
    → c.eintr < c.wsabaseerr
    → st_read_fully c nbyte buf (rs ++ r ∷ es) mem ≡ some (negsuc 0, store_bytes buf bytes mem)
unfolding st_read last_error
st_read_fully_interrupted c nbyte buf rs es bytes mem r s lt small f e above below =
    st_read_fully_failure c nbyte buf rs es bytes mem r s lt small c.wsaeintr (rw f refl)
      (rw (f, e) (interrupted_error c above)) (ground (arith, above, below))
