-- ===== src/Http/Reading.antt =====
-- What `ReadInfo` makes of a request.
use mathlib.Core.List.{append_assoc, append-nil}
use st_nvs.Base.{
  ℕ, suc, ◌+◌, ◌-◌, ◌<◌, ◌^◌, ◌%◌, ◌≡◌, ◌++◌, Option, some, [], ◌∷◌, ap, refl, true, false, ◌&&◌,
  ltb, sym, ◌∙◌, length, arith,
}
use st_nvs.Text.{Bytes, codes, c_str, find, take, drop}
use st_nvs.Text.Search.{drop-append, take-append, length-append}
use st_nvs.Http.{header_end, zeros, content_length, read_rest, read_request, read_info}

-- A request: a header, the end of the header, and a body that comes with it or later.
abbrev pub request : (head part : Bytes) → Bytes
request head part = head ++ header_end ++ part

cut_body : (head part : Bytes) → drop (length head + 4) (request head part) ≡ part
cut_body head part =
    ap (λ n. drop n (request head part)) (sym (length-append head header_end))
    ∙ drop-append (head ++ header_end) part

cut_head : (head part : Bytes) → take (length head) (request head part) ≡ head
cut_head head part =
    ap (take (length head)) (append_assoc head header_end part)
    ∙ take-append head (header_end ++ part)

rest_none :
    (n total : ℕ) (web : Bytes) (more : ℕ → Option Bytes) (memory : Bytes)
    → (ltb total (2 ^ 31) && ltb n total) ≡ false
    → read_rest more memory n total web ≡ (n, web)
unfolding read_rest
rest_none n total web more memory off = rw (off, read_rest) refl

rest_more :
    (n total : ℕ) (web got : Bytes) (more : ℕ → Option Bytes) (memory : Bytes)
    → (ltb total (2 ^ 31) && ltb n total) ≡ true
    → more (total - n) ≡ some got
    → read_rest more memory n total web
      ≡ (n + length got, web ++ c_str (got ++ zeros (total - n - length got) ++ memory))
unfolding read_rest
rest_more n total web got more memory on e = rw (on, e, read_rest) refl

-- What is appended for the rest of a body: the text at its block, which ends at the first 0 there or
-- in the memory behind; nothing, where nothing is missing.
abbrev pub appended : (rest memory : Bytes) → Bytes
appended [] memory = []
appended (a ∷ rest) memory = c_str (a ∷ rest ++ memory)

read_rest-appended :
    (n total : ℕ) (rest memory web : Bytes) (more : ℕ → Option Bytes)
    → total ≡ n + length rest
    → total < 2 ^ 31
    → (0 < length rest → more (length rest) ≡ some rest)
    → read_rest more memory n total web ≡ (total, web ++ appended rest memory)
unfolding read_rest
read_rest-appended n total [] memory web more e fits h =
    let same : total ≡ n = omega (arith, e) in
    let off : (ltb total (2 ^ 31) && ltb n total) ≡ false = ground (arith, same) in
    rest_none n total web more memory off
    ∙ ap (λ i. (i, web)) (sym same)
    ∙ ap (λ (q : Bytes). (total, q)) (sym (append-nil web))
read_rest-appended n total (a ∷ rest) memory web more e fits h =
    let size : total - n ≡ length (a ∷ rest) = omega (arith, e) in
    let on : (ltb total (2 ^ 31) && ltb n total) ≡ true = ground (arith, e, fits) in
    let zero_left : total - n - length (a ∷ rest) ≡ 0 = omega (arith, e) in
    rest_more n total web (a ∷ rest) more memory on (ap more size ∙ h (omega arith))
    ∙ ap (λ i. (n + length (a ∷ rest), web ++ c_str (a ∷ rest ++ zeros i ++ memory))) zero_left
    ∙ ap (λ q. (n + length (a ∷ rest), web ++ c_str (q ++ memory))) (append-nil (a ∷ rest))
    ∙ ap (λ i. (i, web ++ c_str (a ∷ rest ++ memory))) (sym e)

read_steps :
    (buf web : Bytes) (p n at : ℕ) (more : ℕ → Option Bytes) (memory : Bytes)
    → c_str buf ≡ web
    → find header_end web ≡ some (suc p)
    → content_length (take (suc p) web) ≡ some n
    → find (codes "POST") web ≡ some at
    → read_info (some buf) more memory ≡ (
      (read_rest more memory (length buf) ((suc p + n + 4) % 2 ^ 32) web).0,
      drop (suc p + 4) (read_rest more memory (length buf) ((suc p + n + 4) % 2 ^ 32) web).1,
    )
unfolding read_info read_request
read_steps buf web p n at more memory text ends len post =
    ap (read_request more memory (length buf)) text ∙ rw (ends, len, post, read_request) refl

-- `ReadInfo` gives the length of the request, and as the body the part that came with the header and
-- then the text at the block of the rest, in whichever two parts the body comes in and wherever they
-- are cut. Since that block has no room for a 0, the text goes on in the memory behind it, whatever
-- stands there, up to the first 0; nothing is added where nothing was missing. The header ends where `find` sees it, `Content-Length` is the number of bytes
-- that follow, no byte of the first part is 0, the request is a POST, and its length is an `int`.
pub read_info-body :
    (head part rest memory : Bytes) (at : ℕ) (more : ℕ → Option Bytes)
    → 0 < length head
    → c_str (request head part) ≡ request head part
    → find header_end (request head part) ≡ some (length head)
    → content_length head ≡ some (length part + length rest)
    → find (codes "POST") (request head part) ≡ some at
    → length (request head part) + length rest < 2 ^ 31
    → (0 < length rest → more (length rest) ≡ some rest)
    → read_info (some (request head part)) more memory
      ≡ (length (request head part) + length rest, part ++ appended rest memory)
read_info-body [] part rest memory at more full text ends len post fits h =
    absurd (omega (arith, full))
read_info-body (a ∷ s) part rest memory at more full text ends len post fits h =
    let head : Bytes = a ∷ s in
    let n = length part + length rest in
    let total = (length head + n + 4) % 2 ^ 32 in
    let size : length (request head part) ≡ length head + 4 + length part =
      length-append (head ++ header_end) part
      ∙ ap (λ i. i + length part) (length-append head header_end) in
    let whole : total ≡ length (request head part) + length rest = omega (arith, size, fits) in
    let tail = appended rest memory in
    read_steps (request head part) (request head part) (length s) n at more memory text ends
      (ap content_length (cut_head head part) ∙ len) post
    ∙ ap (λ (r : ℕ × Bytes). (r.0, drop (length head + 4) r.1))
        (read_rest-appended (length (request head part)) total rest memory (request head part) more
          whole (omega (arith, whole, fits)) h)
    ∙ ap (λ i. (i, drop (length head + 4) (request head part ++ tail))) whole
    ∙ ap (λ (q : Bytes). (length (request head part) + length rest, q))
        (ap (drop (length head + 4)) (append_assoc (head ++ header_end) part tail)
          ∙ cut_body head (part ++ tail))
