-- ===== src/Handler/Auth.antt =====
-- The header and the body of a login.
use mathlib.Core.List.{append-nil}
use st_nvs.Base.{
  ℕ, ◌+◌, ◌-◌, ◌%◌, ◌<◌, ◌^◌, ◌≡◌, ◌++◌, ◌==◌, false, Option, some, none, [], ◌∷◌, arith, ap, ◌∙◌,
  length, if◌then◌else◌,
}
use st_nvs.Text.{Bytes}
use st_nvs.Http.{zeros}
use st_nvs.Proto.{Header, transfer_in, transfer_out, mcr_ntoh_32}
use st_nvs.Proto.Order.{IsHeader, transfer_in-transfer_out}
use st_nvs.Handler.{word, word_at, header_bytes, header_of, read_auth_type_wrap}

word_at-word : (n : ℕ) (s : Bytes) → n < 2 ^ 32 → word_at 0 (word n ++ s) ≡ n
word_at-word n s h = omega (arith, h)

received_length :
    (hdr : Header)
    → IsHeader hdr
    → (transfer_in (header_of (header_bytes (transfer_out hdr)))).bodylen ≡ hdr.bodylen
unfolding transfer_in
received_length hdr h =
    let sent = transfer_in-transfer_out hdr h in
    ap mcr_ntoh_32 (word_at-word (transfer_out hdr).bodylen [] sent.1.bodylen)
    ∙ ap (λ (x : Header). x.bodylen) sent.0

-- A login that is sent with the header in network order, and its whole body, is received as the body
-- with a 0 behind it, whatever its bytes are.
pub read_auth_type_wrap-transfer_out :
    (hdr : Header) (payload : Bytes) (body : ℕ → Option Bytes)
    → IsHeader hdr
    → hdr.bodylen + 1 < 2 ^ 32
    → length payload ≡ hdr.bodylen
    → body hdr.bodylen ≡ some payload
    → read_auth_type_wrap (some (header_bytes (transfer_out hdr))) body
      ≡ some (some (payload ++ 0 ∷ []))
unfolding read_auth_type_wrap
read_auth_type_wrap-transfer_out hdr payload body h fits whole e =
    let read : ℕ → Option (Option Bytes) = λ n.
      if (n + 1) % 2 ^ 32 == 0
      then none
      else some (elim (body n) [
        | none ↦ none
        | some got ↦ some (got ++ zeros (n - length got) ++ 0 ∷ [])
      ]) in
    let room : ((hdr.bodylen + 1) % 2 ^ 32 == 0) ≡ false = ground (arith, fits) in
    let full : hdr.bodylen - length payload ≡ 0 = omega (arith, whole) in
    ap read (received_length hdr h)
    ∙ rw (room, e)
        (ap (λ n. some (some (payload ++ zeros n ++ 0 ∷ []))) full
          ∙ ap (λ q. some (some (q ++ 0 ∷ []))) (append-nil payload))
