-- ===== src/Http/Length.antt =====
-- The length of the body, as it is written and read.
use st_nvs.Base.{
  ℕ, zero, suc, ◌+◌, ◌/◌, ◌%◌, ◌<◌, ◌≤◌, ◌^◌, ◌≡◌, ◌++◌, false, Option, none, some, List, [], ◌∷◌,
  ap, refl, sym, ◌∙◌, length, arith, subst, ◌>>=◌, ltb→lt, ◌⊎◌, if_both, inl, inr, ltb,
}
use mathlib.Core.List.{append_assoc}
use st_nvs.Text.{Bytes, codes, find, atoi, sprintf_s}
use st_nvs.Database.{SyncPlatformDataResult}
use st_nvs.Http.{
  crlf, header_end, content_length, decimal, cut_at, reply_body, reply_head, packet_web_service,
  after_colon,
}
use st_nvs.Text.Search.{length-append, sprintf_s-fits}
use Prim.Native.Nat.pow
use st_nvs.Http.Decimal.{Digits, decimal-Digits, atoi-decimal, find-crlf-Digits}

-- The header of a reply, as `ReadInfo` cuts it: without the end of its last line.
abbrev pub sent_header : (status_code : Bytes) → (n : ℕ) → Bytes
sent_header status_code n =
    codes "HTTP/1.1 "
    ++ status_code
    ++ crlf
    ++ codes "Server: HMSyncPlatformServer"
    ++ crlf
    ++ codes "Content-Type: text/html"
    ++ crlf
    ++ codes "Accept-Ranges: byte"
    ++ crlf
    ++ codes "Connection: close"
    ++ crlf
    ++ codes "Content-Length:  "
    ++ decimal 10 n

find-crlf-line : (s : Bytes) → Digits s → find crlf (codes "Content-Length:  " ++ s) ≡ none
unfolding find
find-crlf-line s h = rw (find-crlf-Digits s h) refl

read_line :
    (n : ℕ)
    → n < 10 ^ 9
    → (o : Option ℕ) → o ≡ none
    → some (atoi (after_colon (cut_at o (codes "Content-Length:  " ++ decimal 10 n)))) ≡ some n
unfolding find
read_line n h o e =
    ap (λ x. some (atoi (after_colon (cut_at x (codes "Content-Length:  " ++ decimal 10 n))))) e
    ∙ ap some (atoi-decimal n h)

-- `ReadInfo` reads back the length that a reply gives.
abbrev Known : Bytes → Type 0
Known status_code = (status_code ≡ codes "200 OK") ⊎ (status_code ≡ codes "404")

content_length-sent :
    (status_code : Bytes) (n : ℕ)
    → Known status_code
    → n < 10 ^ 9
    → content_length (sent_header status_code n) ≡ some n
unfolding content_length find
content_length-sent status_code n (inl e) h =
    ap (λ s. content_length (sent_header s n)) e
    ∙ read_line n h (find crlf (codes "Content-Length:  " ++ decimal 10 n))
        (find-crlf-line (decimal 10 n) (decimal-Digits 10 n))
content_length-sent status_code n (inr e) h =
    ap (λ s. content_length (sent_header s n)) e
    ∙ read_line n h (find crlf (codes "Content-Length:  " ++ decimal 10 n))
        (find-crlf-line (decimal 10 n) (decimal-Digits 10 n))

ten_pow : (k : ℕ) → 1 ≤ 10 ^ k
ten_pow zero = omega arith
ten_pow (suc k) = omega (arith, ten_pow k, pow.suc 10 k)

length-decimal-le : (fuel n k : ℕ) → n < 10 ^ suc k → length (decimal fuel n) ≤ suc k
unfolding decimal
length-decimal-le zero n k h = omega arith
length-decimal-le (suc fuel) n zero h =
    if_both (λ s. length s ≤ 1) (ltb n 10) ((48 + n) ∷ [])
      (decimal fuel (n / 10) ++ (48 + n % 10) ∷ []) (λ _. omega arith)
      (λ big. absurd (ground (arith, big, h)))
length-decimal-le (suc fuel) n (suc k) h =
    if_both (λ s. length s ≤ suc (suc k)) (ltb n 10) ((48 + n) ∷ [])
      (decimal fuel (n / 10) ++ (48 + n % 10) ∷ []) (λ _. omega arith)
      (λ _.
        let front = length-decimal-le fuel (n / 10) k (omega (arith, h, pow.suc 10 (suc k))) in
        omega (arith, front, length-append (decimal fuel (n / 10)) ((48 + n % 10) ∷ [])))

length-decimal-lt : (fuel n k : ℕ) → 10 ^ k ≤ n → k < fuel → k < length (decimal fuel n)
unfolding decimal
length-decimal-lt zero n k h lt = absurd (omega (arith, lt))
length-decimal-lt (suc fuel) n zero h lt =
    if_both (λ s. 0 < length s) (ltb n 10) ((48 + n) ∷ [])
      (decimal fuel (n / 10) ++ (48 + n % 10) ∷ []) (λ _. omega arith)
      (λ _. omega (arith, length-append (decimal fuel (n / 10)) ((48 + n % 10) ∷ [])))
length-decimal-lt (suc fuel) n (suc k) h lt =
    if_both (λ s. suc k < length s) (ltb n 10) ((48 + n) ∷ [])
      (decimal fuel (n / 10) ++ (48 + n % 10) ∷ [])
      (λ small. absurd (omega (arith, ltb→lt n 10 small, h, pow.suc 10 k, ten_pow k)))
      (λ _.
        let front =
          length-decimal-lt fuel (n / 10) k (omega (arith, h, pow.suc 10 k)) (omega (arith, lt)) in
        omega (arith, front, length-append (decimal fuel (n / 10)) ((48 + n % 10) ∷ [])))

length-body_len : (n : ℕ) → length (codes " " ++ decimal 10 n ++ crlf) ≡ length (decimal 10 n) + 3
length-body_len n = omega (arith, length-append (decimal 10 n) crlf)

abbrev text_before : (status_code : Bytes) → Bytes
text_before status_code =
    codes "HTTP/1.1 "
    ++ status_code
    ++ crlf
    ++ codes "Server: HMSyncPlatformServer"
    ++ crlf
    ++ codes "Content-Type: text/html"
    ++ crlf
    ++ codes "Accept-Ranges: byte"
    ++ crlf
    ++ codes "Connection: close"
    ++ crlf
    ++ codes "Content-Length:  "

regroup : (d b z : Bytes) → d ++ crlf ++ crlf ++ (b ++ z) ≡ d ++ header_end ++ b ++ z
regroup d b z =
    ap (λ q. q ++ (b ++ z)) (append_assoc d crlf crlf) ∙ sym (append_assoc (d ++ header_end) b z)

reply_text :
    (status_code : Bytes) (n : ℕ) (body : Bytes)
    → Known status_code
    → reply_head status_code (codes " " ++ decimal 10 n ++ crlf) ++ (body ++ 0 ∷ [])
      ≡ sent_header status_code n ++ header_end ++ body ++ 0 ∷ []
reply_text status_code n body (inl e) =
    subst
      (λ s.
        reply_head s (codes " " ++ decimal 10 n ++ crlf) ++ (body ++ 0 ∷ [])
        ≡ sent_header s n ++ header_end ++ body ++ 0 ∷ [])
      (sym e) (ap (λ q. text_before (codes "200 OK") ++ q) (regroup (decimal 10 n) body (0 ∷ [])))
reply_text status_code n body (inr e) =
    subst
      (λ s.
        reply_head s (codes " " ++ decimal 10 n ++ crlf) ++ (body ++ 0 ∷ [])
        ≡ sent_header s n ++ header_end ++ body ++ 0 ∷ [])
      (sym e) (ap (λ q. text_before (codes "404") ++ q) (regroup (decimal 10 n) body (0 ∷ [])))

-- A reply with the status 200 OK or 404 and at most 999999 bytes in its body is a header, its
-- end, the body and a 0; the length that `ReadInfo` reads from such a header is the number of
-- bytes of the body.
pub packet_web_service-content_length :
    (encode : List SyncPlatformDataResult → Bytes) (status_code : Bytes)
    (result : List SyncPlatformDataResult)
    → Known status_code
    → length (reply_body encode result) < 10 ^ 6
    → (head : Bytes) × (packet_web_service encode status_code result
        ≡ some (head ++ header_end ++ reply_body encode result ++ 0 ∷ []))
      × (content_length head ≡ some (length (reply_body encode result)))
unfolding packet_web_service
packet_web_service-content_length encode status_code result known small =
    let n = length (reply_body encode result) in
    let line = codes " " ++ decimal 10 n ++ crlf in
    let fits : length line < 10 =
      omega (arith, length-body_len n, length-decimal-le 10 n 5 (omega (arith, small))) in
    let packed =
      ap (λ o. o >>= λ l. some (reply_head status_code l ++ (reply_body encode result ++ 0 ∷ [])))
        (sprintf_s-fits 10 line fits)
      ∙ ap some (reply_text status_code n (reply_body encode result) known) in
    (
      sent_header status_code n,
      packed,
      content_length-sent status_code n known (omega (arith, small)),
    )

-- A longer reply ends the program: the length does not fit the ten bytes for it.
pub packet_web_service-long :
    (encode : List SyncPlatformDataResult → Bytes) (status_code : Bytes)
    (result : List SyncPlatformDataResult)
    → 10 ^ 6 ≤ length (reply_body encode result)
    → packet_web_service encode status_code result ≡ none
unfolding packet_web_service sprintf_s
packet_web_service-long encode status_code result long =
    let n = length (reply_body encode result) in
    let line = codes " " ++ decimal 10 n ++ crlf in
    let off : ltb (length line) 10 ≡ false =
      ground
        (arith, length-body_len n, length-decimal-lt 10 n 6 (omega (arith, long)) (omega arith)) in
    rw off refl
