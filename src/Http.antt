-- ===== src/Http.antt =====
-- The requests and replies of the platform server over HTTP, `ReadInfo` and `PacketWebService` of
-- HMSyncPlatformServer/SMUSync.cpp. The bytes that `st_read` and `st_read_fully` give are parameters.
pub mod Reading
pub mod Length
pub mod Decimal
use st_nvs.Base.{
  ℕ, zero, suc, ◌+◌, ◌-◌, ◌*◌, ◌%◌, ◌/◌, ◌^◌, Bool, true, false, ◌&&◌, Option, none, some, List, [],
  ◌∷◌, ◌++◌, ◌==◌, ltb, if◌then◌else◌, length, ◌>>=◌,
}
use st_nvs.Text.{Bytes, codes, c_str, find, drop, take, sprintf_s, atoi}
use st_nvs.Database.{SyncPlatformDataResult}

abbrev pub crlf : Bytes
crlf = 13 ∷ 10 ∷ []

abbrev pub header_end : Bytes
header_end = crlf ++ crlf

-- The line of the header that begins at `pos`. It is cut at the end of the line; at the last line
-- `find` gives -1, and the count that `substr` is given is larger than what is left.
abbrev pub cut_at : Option ℕ → Bytes → Bytes
cut_at none s = s
cut_at (some n) s = take n s

abbrev pub line_at : (pos : ℕ) → (header : Bytes) → Bytes
line_at pos header = cut_at (find crlf (drop pos header)) (drop pos header)

abbrev pub after_colon : Bytes → Bytes
after_colon contlen = elim (find (codes ":") contlen) [
  | none ↦ contlen
  | some pos ↦ drop (pos + 1) contlen
]

-- The part of `ReadInfo` that reads the length of the body; `none` is its return of 0.
unfoldable pub content_length : (header : Bytes) → Option ℕ
unfolding find atoi
content_length header = elim (find (codes "Content-Length:") header) [
  | none ↦ none
  | some zero ↦ none
  | some (suc p) ↦ some (atoi (after_colon (line_at (suc p) header)))
]

abbrev pub zeros : ℕ → Bytes
zeros zero = []
zeros (suc n) = 0 ∷ zeros n

-- The end of `ReadInfo`: the rest of the body is read to a cleared block of just its size, and what
-- is appended is the C string there, which goes on in the memory behind the block. `more` is what
-- `st_read_fully` stores, `none` is its -1.
unfoldable pub read_rest :
    (more : ℕ → Option Bytes)
    → (memory : Bytes) → (read_len total_len : ℕ) → (web_info : Bytes) → ℕ × Bytes
unfolding c_str
read_rest more memory read_len total_len web_info =
    if ltb total_len (2 ^ 31) && ltb read_len total_len
    then (let size = total_len - read_len in
        elim (more size) [
          | none ↦ (read_len - 1, web_info ++ c_str (zeros size ++ memory))
          | some got ↦ (
            read_len + length got,
            web_info ++ c_str (got ++ zeros (size - length got) ++ memory),
          )
        ])
    else (read_len, web_info)

-- What `ReadInfo` does with the text of the first read.
unfoldable pub read_request :
    (more : ℕ → Option Bytes) → (memory : Bytes) → (read_len : ℕ) → (web_info : Bytes) → ℕ × Bytes
unfolding content_length find read_rest
read_request more memory read_len web_info = elim (find header_end web_info) [
  | none ↦ (0, [])
  | some zero ↦ (0, [])
  | some (suc p) ↦ elim (content_length (take (suc p) web_info)) [
    | none ↦ (0, [])
    | some bodylen ↦ elim (find (codes "POST") web_info) [
      | none ↦ (0, [])
      | some at ↦
          let r = read_rest more memory read_len ((suc p + bodylen + 4) % 2 ^ 32) web_info in
          (r.0, drop (suc p + 4) r.1)
    ]
  ]
]

-- `SMUSync::ReadInfo`, with the body that it stores: empty, if it returns before. `first` is what the
-- first `st_read` gives.
unfoldable pub read_info :
    (first : Option Bytes) → (more : ℕ → Option Bytes) → (memory : Bytes) → ℕ × Bytes
unfolding c_str read_request
read_info none more memory = (0, [])
read_info (some buf) more memory = read_request more memory (length buf) (c_str buf)

-- The digits of `%d`, at most ten.
unfoldable pub decimal : (fuel : ℕ) → ℕ → Bytes
decimal zero n = []
decimal (suc fuel) n =
    let front = decimal fuel (n / 10) in
    if ltb n 10 then (48 + n) ∷ [] else front ++ (48 + n % 10) ∷ []

-- The head of a reply, up to the empty line.
abbrev pub reply_head : (status_code body_len : Bytes) → Bytes
reply_head status_code body_len =
    codes "HTTP/1.1 "
    ++ status_code
    ++ crlf
    ++ codes "Server: HMSyncPlatformServer"
    ++ crlf
    ++ codes "Content-Type: text/html"
    ++ crlf
    ++ codes "Accept-Ranges: byte"
    ++ crlf
    ++ codes "Connection: close"
    ++ crlf
    ++ codes "Content-Length: "
    ++ body_len
    ++ crlf

abbrev pub reply_body :
    (encode : List SyncPlatformDataResult → Bytes) → List SyncPlatformDataResult → Bytes
reply_body encode [] = codes "<body>This is HMSyncPlatformServer, Is Running!</body>"
reply_body encode (r ∷ rest) = encode (r ∷ rest)

-- `SMUSync::PacketWebService`: what it writes, with the 0 at the end. `encode` is the XML text of the
-- results.
unfoldable pub packet_web_service :
    (encode : List SyncPlatformDataResult → Bytes)
    → (status_code : Bytes) → List SyncPlatformDataResult
    → Option Bytes
unfolding decimal sprintf_s
packet_web_service encode status_code result =
    let body = reply_body encode result in
    sprintf_s 10 (codes " " ++ decimal 10 (length body) ++ crlf) >>= λ body_len.
    some (reply_head status_code body_len ++ (body ++ 0 ∷ []))
