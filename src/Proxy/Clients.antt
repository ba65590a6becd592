-- ===== src/Proxy/Clients.antt =====
-- The clients that watch a device, `_pu_video_proxy_vec` and `_real_video_cmd` of server/pu_proxy.cpp.
-- Clients and messages are numbers, 0 is `NULL`, and the references to clients are counted as those
-- to messages are (server/proto.hpp). `none` is the use of an object that was deleted.
pub mod Balance
use st_nvs.Base.{
  ℕ, ◌+◌, Bool, true, false, not, Option, none, some, List, [], ◌∷◌, ◌++◌, ◌==◌, ltb, unlink, count,
  if◌then◌else◌, ◌>>=◌,
}
use st_nvs.Proto.{Refs, add, release, push}

pub record Clients : Type 0 where
  pub cu_refs : Refs
  pub refs : Refs
  pub video_proxies : List ℕ
  pub real_video_cmd : ℕ
  pub msg_queue : List ℕ
  pub valid : Bool

-- `pu_proxy_t::send_msg`, up to the signal and the wait for an answer
unfoldable pub send_msg : (msg : ℕ) → Clients → Option Clients
unfolding push
send_msg msg s =
    let queued = push msg s.msg_queue s.refs in
    if s.valid then (queued >>= λ r. some (record s { msg_queue = r.0; refs = r.1 })) else some s

unfoldable pub is_video_open : Clients → Bool
is_video_open s = not (s.real_video_cmd == 0)

-- `pu_proxy_t::open_real_video`, with the message that it returns
unfoldable pub open_real_video : (cu msg : ℕ) → Clients → Option (Clients × ℕ)
unfolding add send_msg
open_real_video cu msg s = add cu s.cu_refs >>= λ cu_refs.
    let joined : Clients = record s {
      cu_refs = cu_refs;
      video_proxies = s.video_proxies ++ cu ∷ [];
    } in
    let sent = send_msg msg joined in
    let shared = add s.real_video_cmd s.refs in
    if not (s.real_video_cmd == 0)
    then (shared >>= λ refs. some (record joined { refs = refs }, s.real_video_cmd))
    else (sent >>= λ waiting. some (waiting, 0))

-- `std::find` with an answer that is not the end
abbrev pub stands_in : ℕ → List ℕ → Bool
stands_in cu l = ltb 0 (count cu l)

-- `pu_proxy_t::close_real_video`
unfoldable pub close_real_video : (cu : ℕ) → Clients → Option Clients
unfolding release
close_real_video cu s =
    let closed = release cu s.cu_refs >>= λ cu_refs. release s.real_video_cmd s.refs >>= λ refs.
    some (record s { cu_refs = cu_refs; refs = refs; video_proxies = unlink cu s.video_proxies }) in
    if stands_in cu s.video_proxies then closed else some s

-- `pu_proxy_t::handle_open_video`; `msg` is the message that `new` gives.
unfoldable pub handle_open_video : (msg : ℕ) → Clients → Option Clients
unfolding add send_msg
handle_open_video msg s = add msg (λ m. if m == msg then 1 else s.refs m) >>= λ refs.
    send_msg msg (record s { real_video_cmd = msg; refs = refs })

-- What the clients do one after the other.
pub data VideoCall : Type 0 where
  opens : (cu msg : ℕ) → VideoCall
  closes : (cu : ℕ) → VideoCall

unfoldable pub call_all : List VideoCall → Clients → Option Clients
unfolding open_real_video close_real_video
call_all [] s = some s
call_all (opens cu msg ∷ calls) s = open_real_video cu msg s >>= λ r. call_all calls r.0
call_all (closes cu ∷ calls) s = close_real_video cu s >>= call_all calls
