-- ===== src/Handler.antt =====
-- The logins of devices and clients, `ServerHandler` of server/server.cpp and server/server.hpp.
-- What the socket gives and takes, and the parsed text of a login, are parameters. `none` is an access
-- outside of a buffer, or the use of a null pointer.
pub mod Login
pub mod Auth
use st_nvs.Base.{
  ℕ, zero, suc, ◌+◌, ◌-◌, ◌*◌, ◌%◌, ◌/◌, ◌^◌, Bool, true, false, Option, none, some, List, [], ◌∷◌,
  ◌++◌, ◌==◌, ltb, if◌then◌else◌, length, ◌>>=◌,
}
use st_nvs.Text.{Bytes, codes, equal, take, drop}
use st_nvs.Http.{zeros}
use st_nvs.Proto.{Header, transfer_in, transfer_out}

-- `_device_map`: the proxy of each device, by its number in quotes.
abbrev pub Devices : Type 0
Devices = Bytes → Option ℕ

abbrev pub registered : Bytes → ℕ → Devices → Devices
registered sn proxy devices key = if equal key sn then some proxy else devices key

-- `ServerHandler::unregister`
unfoldable pub unregister : Bytes → Devices → Devices
unregister sn devices key = if equal key sn then none else devices key

-- The texts of a login; there is no text where there is no element.
pub record Message : Type 0 where
  pub type : Option Bytes
  pub sn : Option Bytes

-- How a login ends: with the descriptor closed, or neither closed nor used, or with the proxy of a
-- device, or a client of one.
pub data Ended : Type 0 where
  closed : Ended
  abandoned : Ended
  device : (sn : Bytes) → (proxy : ℕ) → Ended
  client : (proxy : ℕ) → Ended

-- `sprintf` to the twenty bytes of `sn_tmp`.
unfoldable pub quoted : Bytes → Option Bytes
quoted sn = let text = 34 ∷ sn ++ 34 ∷ [] in if ltb (length text) 20 then some text else none

-- The branch of a device under the key `sn`; `fresh` is the proxy that `new` gives.
unfoldable pub device_login : (fresh : ℕ) → (sn : Bytes) → Devices → Ended × Devices
device_login fresh sn devices = elim (devices sn) [
  | none ↦ (device sn fresh, registered sn fresh devices)
  | some proxy ↦ (abandoned, devices)
]

-- The branch of a client. `video_open` is `is_video_open` of the proxies, and `written` is what
-- `write_auth_wrap` returns.
unfoldable pub client_login :
    (written : Bool) → (video_open : ℕ → Bool) → (sn : Bytes) → Devices → Ended
client_login written video_open sn devices = elim (devices sn) [
  | none ↦ closed
  | some proxy ↦ if video_open proxy then (if written then client proxy else closed) else closed
]

-- `ServerHandler::handle_session`, after `read_auth_type_wrap`; `none` for the message is its return of
-- null, where the descriptor is closed already.
unfoldable pub handle_session :
    (fresh : ℕ)
    → (written : Bool) → (video_open : ℕ → Bool) → (login : Option Message) → Devices
    → Option (Ended × Devices)
unfolding quoted device_login client_login
handle_session fresh written video_open none devices = some (closed, devices)
handle_session fresh written video_open (some login) devices = elim login.type [
  | none ↦ some (closed, devices)
  | some type ↦ login.sn >>= λ sn.
      if equal type (codes "\"10\"")
      then some (device_login fresh sn devices)
      else (quoted sn >>= λ key.
          if equal type (codes "10")
          then some (device_login fresh key devices)
          else some (client_login written video_open key devices, devices))
]

-- A `uint32` in memory, from the lowest byte on, and back.
abbrev pub word : ℕ → Bytes
word n = n % 256 ∷ n / 256 % 256 ∷ n / 2 ^ 16 % 256 ∷ n / 2 ^ 24 % 256 ∷ []

abbrev pub at : ℕ → Bytes → ℕ
at i [] = 0
at zero (b ∷ s) = b
at (suc i) (b ∷ s) = at i s

abbrev pub word_at : ℕ → Bytes → ℕ
word_at i s = at i s + at (i + 1) s * 2 ^ 8 + at (i + 2) s * 2 ^ 16 + at (i + 3) s * 2 ^ 24

-- A header without its serial number, as the bytes of the structure.
abbrev pub header_bytes : Header → Bytes
header_bytes hdr = word hdr.cmdno ++ word hdr.bodylen ++ word hdr.errcode

abbrev pub header_of : Bytes → Header
header_of s = record {
  cmdno = word_at 0 s;
  bodylen = word_at 4 s;
  errcode = word_at 8 s;
  serialid = 0;
}

abbrev pub hmcmd_authencate : ℕ
hmcmd_authencate = 0x60D

abbrev pub auth_body : Bytes
auth_body =
    codes "<?xml version=\"1.0\" encoding=\"utf-8\" ?><Message><UserName>\"guest\"</UserName >"
    ++ codes "<UserType>1</UserType ><Ver>V2.0</Ver></Message>"

-- What `write_auth_wrap` writes.
unfoldable pub auth_packet : Bytes
unfolding transfer_out
auth_packet =
    let hdr : Header = record {
      cmdno = hmcmd_authencate;
      bodylen = length auth_body + 1;
      errcode = 0;
      serialid = 0;
    } in
    header_bytes (transfer_out hdr) ++ auth_body ++ 0 ∷ []

-- `ServerHandler::write_auth_wrap`; `st_write` is the number of bytes that the call gives.
unfoldable pub write_auth_wrap : (st_write : Bytes → ℕ) → Bool
unfolding auth_packet
write_auth_wrap st_write = st_write auth_packet == length auth_packet

-- `ServerHandler::read_auth_type_wrap`: the block with the body. `head` is what the first
-- `st_read_fully` stores of its twelve bytes, and `body` what the second one stores of as many as it
-- asks for; `none` is a negative result. The inner `none` is the return of null.
unfoldable pub read_auth_type_wrap :
    (head : Option Bytes) → (body : ℕ → Option Bytes) → Option (Option Bytes)
unfolding transfer_in
read_auth_type_wrap none body = some none
read_auth_type_wrap (some head) body =
    let n = (transfer_in (header_of head)).bodylen in
    if (n + 1) % 2 ^ 32 == 0
    then none
    else some
        (elim (body n) [ none ↦ none | some got ↦ some (got ++ zeros (n - length got) ++ 0 ∷ []) ])
