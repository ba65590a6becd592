-- ===== src/Proxy.antt =====
-- The thread of a device that sends its messages, `pu_proxy_t::handle_send` in server/pu_proxy.cpp:
-- what it does with the messages of one `backup`. Whether the socket is still valid and `st_write`
-- succeeds, is given for each message by its place. `none` is a failed assertion, or the use of a
-- message that was deleted.
pub mod Received
pub mod Sending
pub mod Clients
pub mod Session
pub mod Watching
use st_nvs.Base.{
  ℕ, ◌+◌, ◌%◌, ◌^◌, Bool, true, false, not, Option, none, some, List, [], ◌∷◌, ◌++◌, ◌==◌, ltb,
  if◌then◌else◌, ◌>>=◌,
}
use st_nvs.Proto.{Refs, release}

-- The thread's variables, the serial numbers of the messages, and what was written.
pub record Sender : Type 0 where
  pub serial : ℕ
  pub exit : Bool
  pub refs : Refs
  pub serialid : ℕ → ℕ
  pub written : List (ℕ × ℕ)

-- The attempt to write one message, which the loop makes until one fails.
unfoldable pub write_message : (ok : Bool) → (bodylen : ℕ → ℕ) → (m : ℕ) → Sender → Option Sender
write_message ok bodylen m s =
    let numbered = record s {
      serialid = λ k. if k == m then s.serial else s.serialid k;
      serial = (s.serial + 1) % 2 ^ 32;
    } in
    if ltb ((bodylen m + 16) % 2 ^ 32) 1024
    then some (
        if ok
        then record numbered { written = s.written ++ (m, s.serial) ∷ [] }
        else record numbered { exit = true })
    else none

-- The loop over the vector: each message is released, written or not.
unfoldable pub send_messages :
    (ok : ℕ → Bool) → (bodylen : ℕ → ℕ) → (i : ℕ) → List ℕ → Sender → Option Sender
unfolding write_message
send_messages ok bodylen i [] s = some s
send_messages ok bodylen i (m ∷ ms) s =
    (if not s.exit then write_message (ok i) bodylen m s else some s) >>= λ s'.
    release m s'.refs >>= λ refs. send_messages ok bodylen (i + 1) ms (record s' { refs = refs })
