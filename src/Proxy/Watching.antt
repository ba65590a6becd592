-- ===== src/Proxy/Watching.antt =====
-- The thread of a client that watches a device, `cu_proxy_t::open_real_video` of server/cu_proxy.cpp, up
-- to its wait and behind it, and the round of `cu_proxy_t::handle_send` that takes its message.
-- `none` is a failed assertion, or the use of an object that was deleted.
pub mod Ending
use st_nvs.Base.{
  ℕ, ◌-◌, Bool, true, false, not, Option, none, some, List, [], ◌∷◌, ◌==◌, if◌then◌else◌, ◌>>=◌,
}
use st_nvs.Proto.{Refs, add, release, push, backup, release_all}
use st_nvs.Proxy.Clients.{Clients, open_real_video, close_real_video}

-- The clients of the device, the queue and the socket of the one that watches, and its device with the
-- references to it.
pub record Watcher : Type 0 where
  pub clients : Clients
  pub msg_queue : List ℕ
  pub valid : Bool
  pub pu_proxy : Bool
  pub pu_ref : ℕ

-- `cu_proxy_t::send_msg`, up to the signal
unfoldable pub send : (msg : ℕ) → Watcher → Option Watcher
unfolding push
send msg w =
    let queued = push msg w.msg_queue w.clients.refs >>= λ r.
    some (record w { msg_queue = r.0; clients = record (w.clients) { refs = r.1 } }) in
    if w.valid then queued else some w

-- The thread up to its wait. The assertion on the answer of the device is about a static flag that is
-- false until the line behind it.
unfoldable pub watch : (cu msg : ℕ) → Watcher → Option Watcher
unfolding add open_real_video send
watch cu msg w = add cu w.clients.cu_refs >>= λ cu_refs.
    open_real_video cu msg (record (w.clients) { cu_refs = cu_refs }) >>= λ r.
    let answered : Option Watcher = send msg (record w { clients = r.0 }) >>= λ v.
    add msg v.clients.refs >>= λ refs.
    some (record v { clients = record (v.clients) { refs = refs } }) in
    if not (r.1 == 0) then answered else none

-- `cu_proxy_t::uninit`
unfoldable pub uninit : Watcher → Option Watcher
uninit w =
    if w.pu_proxy
    then if w.pu_ref == 0 then none else some (record w { pu_ref = w.pu_ref - 1; pu_proxy = false })
    else none

-- The thread behind its wait
unfoldable pub watch_resumed : (cu msg : ℕ) → Watcher → Option Watcher
unfolding release close_real_video uninit
watch_resumed cu msg w =
    (if w.pu_proxy then close_real_video cu w.clients else some w.clients) >>= λ c.
    release msg c.refs >>= λ refs. uninit (record w { clients = record c { refs = refs } }) >>= λ v.
    release cu v.clients.cu_refs >>= λ cu_refs.
    some (record v { clients = record (v.clients) { cu_refs = cu_refs } })

-- A round of `handle_send`: the messages are taken from the queue, and released behind their writes.
unfoldable pub send_round : Watcher → Option Watcher
unfolding backup release_all
send_round w = backup [] w.msg_queue w.clients.refs >>= λ r. release_all (r.0.0) (r.1) >>= λ refs.
    some (record w { msg_queue = r.0.1; clients = record (w.clients) { refs = refs } })
