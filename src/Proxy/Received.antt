-- ===== src/Proxy/Received.antt =====
-- What a device and a client send, one round of `pu_proxy_t::handle_recv` in server/pu_proxy.cpp and of
-- `cu_proxy_t::handle_recv` in server/cu_proxy.cpp. What the socket, `st_read` and `st_read_fully` give
-- is a parameter. `none` is the use of a null pointer, or of memory that was freed.
pub mod Bodies
use st_nvs.Base.{
  ℕ, ◌+◌, ◌-◌, ◌*◌, ◌%◌, ◌^◌, ◌≤◌, ◌<◌, ◌≡◌, Bool, true, false, not, ◌&&◌, ◌||◌, Option, none, some,
  List, [], ◌∷◌, ◌++◌, ◌==◌, ltb, if◌then◌else◌, ◌>>=◌, refl, arith, Ensures, if_both, bool_both,
  Bool-cases, inl, inr,
}
use st_nvs.Proto.{Header, transfer_in}

abbrev pub hmcmd_open_video : ℕ
hmcmd_open_video = 0x101

abbrev pub hmcmd_recv_video : ℕ
hmcmd_recv_video = 0x102

abbrev pub hmcmd_heartbeat : ℕ
hmcmd_heartbeat = 0xA01

-- The pointer to a body: null, to memory, or to memory that was freed.
pub data Body : Type 0 where
  null : Body
  live : Body
  freed : Body

-- `net_port_msg_t`
pub record Message : Type 0 where
  pub hdr : Header
  pub body : Body
  pub ref : ℕ

-- `free`
unfoldable pub free_body : Body → Option Body
free_body b = elim b [ null ↦ some null | live ↦ some freed | freed ↦ none ]

-- `~net_port_msg_t`, with what it leaves in the pointer
unfoldable pub delete : Message → Option Body
unfolding free_body
delete m = free_body m.body >>= λ b. some null

-- `net_port_msg_t::release`; `none` inside is a message that was deleted.
unfoldable pub release : Message → Option (Option Message)
unfolding delete
release m =
    let gone = delete m >>= λ u. some none in
    if m.ref == 0
    then none
    else if m.ref - 1 == 0
    then gone
    else some (some (record m { ref = m.ref - 1 }))

-- What a round of a client comes to: its end, or a message that is sent, or for which a video is opened.
pub data Next : Type 0 where
  leave : Next
  answered : Message → Next
  opened : Message → Next

-- The test of the socket and the read, or the test of the device.
pub record Link : Type 0 where
  pub header : Option Header
  pub net : Bool
  pub whole : Bool
  pub net_again : Bool
  pub valid : Bool

-- `cu_proxy_t::send_msg`: a message for a socket that is not valid stays as it is.
unfoldable pub send_msg : (valid : Bool) → Message → Message
send_msg valid m = if valid then record m { ref = (m.ref + 1) % 2 ^ 32 } else m

-- The commands that the loop knows.
unfoldable pub command : (valid : Bool) → Message → Option Next
unfolding send_msg release
command valid m =
    let ended = release m >>= λ o. some leave in
    if m.hdr.cmdno == hmcmd_heartbeat
    then some (
        answered
          (send_msg valid (record m { hdr = record (m.hdr) { cmdno = 0x80000A01; bodylen = 0 } })))
    else if m.hdr.cmdno == hmcmd_open_video
    then some (opened m)
    else ended

-- The body is read, and freed; then the device is looked at again.
unfoldable pub take_body : Link → Message → Option Next
unfolding release command
take_body l m =
    let cut = release (record m { body = live }) >>= λ o. some leave in
    let read = if ltb 0 m.hdr.bodylen then record m { body = freed } else m in
    let lost = release read >>= λ o. some leave in
    if ltb 0 m.hdr.bodylen && not l.whole
    then cut
    else if not l.net_again
    then lost
    else command l.valid read

unfoldable pub cu_handle_recv : Link → Option Next
unfolding take_body
cu_handle_recv l = elim l.header [
  | none ↦ some leave
  | some hdr ↦
      let m : Message = record { hdr = transfer_in hdr; body = null; ref = 1 } in
      let read = take_body l m in if not l.net then some leave else read
]

-- What a round of a device comes to: its end, a frame for the clients, the answer that is kept for
-- them, or nothing.
pub data Taken : Type 0 where
  ends : Taken
  frame : Header → Taken
  kept : Header → Taken
  ignored : Taken

-- `real_video_cmd` is the body of the answer, or `none` while `_real_video_cmd` is null.
unfoldable pub pu_handle_recv : (real_video_cmd : Option Body) → Link → Option (Taken × Option Body)
unfolding free_body
pu_handle_recv real_video_cmd l = elim l.header [
  | none ↦ some (ends, real_video_cmd)
  | some raw ↦
      let hdr = transfer_in raw in
      let low = record hdr { cmdno = hdr.cmdno % 2 ^ 16 } in
      let replaced = real_video_cmd >>= λ old. free_body old >>= λ u. some (kept low, some live) in
      if ltb 0 hdr.bodylen
      then if ltb (1024 * 1024) hdr.bodylen
        then some (ends, real_video_cmd)
        else if not l.whole
        then some (ends, real_video_cmd)
        else if low.cmdno == hmcmd_recv_video
        then some (frame low, real_video_cmd)
        else if low.cmdno == hmcmd_open_video
        then replaced
        else some (ignored, real_video_cmd)
      else some (ignored, real_video_cmd)
]

abbrev pub failed : {A : Type 0} → Option A → Bool
failed none = true
failed (some a) = false

-- A command that the loop does not know
abbrev pub unknown : Header → Bool
unknown h = not (h.cmdno == hmcmd_heartbeat) && not (h.cmdno == hmcmd_open_video)
