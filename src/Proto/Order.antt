-- ===== src/Proto/Order.antt =====
-- The byte order of headers.
use st_nvs.Base.{ℕ, ◌+◌, ◌*◌, ◌/◌, ◌%◌, ◌^◌, ◌<◌, ◌≡◌, arith, sym, ◌∙◌}
use st_nvs.Proto.{Header, mcr_ntoh_32, transfer_in, transfer_out}

-- Four bytes, the most significant first.
abbrev pub word : (a b c d : ℕ) → ℕ
word a b c d = a * 2 ^ 24 + b * 2 ^ 16 + c * 2 ^ 8 + d

word_bytes :
    (a b c d : ℕ)
    → a < 2 ^ 8
    → b < 2 ^ 8
    → c < 2 ^ 8
    → d < 2 ^ 8
    → mcr_ntoh_32 (word a b c d) ≡ word d c b a
unfolding mcr_ntoh_32
word_bytes a b c d la lb lc ld = omega (arith, la, lb, lc, ld)

word_split :
    (v : ℕ)
    → v < 2 ^ 32
    → v ≡ word (v / 2 ^ 24 % 2 ^ 8) (v / 2 ^ 16 % 2 ^ 8) (v / 2 ^ 8 % 2 ^ 8) (v % 2 ^ 8)
word_split v lt = omega (arith, lt)

-- The bytes of a 32-bit word, in the opposite order, and the word again after the second time.
pub mcr_ntoh_32-Involution :
    (v : ℕ) → v < 2 ^ 32 → (mcr_ntoh_32 (mcr_ntoh_32 v) ≡ v) × (mcr_ntoh_32 v < 2 ^ 32)
unfolding mcr_ntoh_32
mcr_ntoh_32-Involution v lt =
    let (d, c) : (v % 2 ^ 8 < 2 ^ 8) × (v / 2 ^ 8 % 2 ^ 8 < 2 ^ 8) = (omega arith, omega arith) in
    let (b, a) : (v / 2 ^ 16 % 2 ^ 8 < 2 ^ 8) × (v / 2 ^ 24 % 2 ^ 8 < 2 ^ 8) =
      (omega arith, omega arith) in
    (
      word_bytes (v % 2 ^ 8) (v / 2 ^ 8 % 2 ^ 8) (v / 2 ^ 16 % 2 ^ 8) (v / 2 ^ 24 % 2 ^ 8) d c b a
          ∙ sym (word_split v lt),
      omega (arith, a, b, c, d),
    )

-- Every field is an unsigned number of 32 bits.
pub record IsHeader (hdr : Header) : Type 0 where
  pub cmdno : hdr.cmdno < 2 ^ 32
  pub bodylen : hdr.bodylen < 2 ^ 32
  pub errcode : hdr.errcode < 2 ^ 32
  pub serialid : hdr.serialid < 2 ^ 32

-- A header that is sent and received is the same header again, and what goes over the line is a
-- header too.
pub transfer_in-transfer_out :
    (hdr : Header)
    → IsHeader hdr
    → (transfer_in (transfer_out hdr) ≡ hdr) × IsHeader (transfer_out hdr)
unfolding transfer_in transfer_out
transfer_in-transfer_out hdr h =
    let c = mcr_ntoh_32-Involution hdr.cmdno h.cmdno in
    let b = mcr_ntoh_32-Involution hdr.bodylen h.bodylen in
    let e = mcr_ntoh_32-Involution hdr.errcode h.errcode in
    let s = mcr_ntoh_32-Involution hdr.serialid h.serialid in
    (
      (λ i. record { cmdno = c.0 i; bodylen = b.0 i; errcode = e.0 i; serialid = s.0 i }),
      record { cmdno = c.1; bodylen = b.1; errcode = e.1; serialid = s.1 },
    )
