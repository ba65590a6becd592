-- ===== src/Video.antt =====
-- Video frames on their way from a device to its clients: the part of `pu_proxy_t::handle_recv` of
-- server/pu_proxy.cpp that hands a frame to the clients, and the threads that send it on,
-- `cu_proxy_t::handle_send` of server/cu_proxy.cpp. Clients and messages are numbers, and `none` is a
-- failed assertion or the use of a message that was deleted.
pub mod Handout
pub mod Rounds
use st_nvs.Base.{
  ℕ, zero, suc, ◌+◌, ◌%◌, ◌^◌, Bool, true, false, not, Option, none, some, List, [], ◌∷◌, ◌++◌,
  ◌==◌, if◌then◌else◌, ◌>>=◌,
}
use st_nvs.Proto.{Refs, set_ref, add, release, push, clear, backup}

-- The queues of the clients, and the references to the messages.
pub record Frames : Type 0 where
  pub queues : ℕ → List ℕ
  pub refs : Refs

abbrev pub set_queue : ℕ → List ℕ → (ℕ → List ℕ) → ℕ → List ℕ
set_queue c q queues k = if k == c then q else queues k

-- `cu_proxy_t::send_msg`; `valid` is which sockets are valid.
unfoldable pub send_msg : (valid : ℕ → Bool) → (c m : ℕ) → Frames → Option Frames
unfolding push
send_msg valid c m v =
    if valid c
    then (push m (v.queues c) v.refs >>= λ r.
        some (record { queues = set_queue c (r.0) v.queues; refs = r.1 }))
    else some v

-- The loop over `_pu_video_proxy_vec`.
unfoldable pub hand_out : (valid : ℕ → Bool) → (m : ℕ) → List ℕ → Frames → Option Frames
unfolding send_msg add
hand_out valid m [] v = some v
hand_out valid m (c ∷ cs) v =
    add m v.refs >>= λ refs. send_msg valid c m (record v { refs = refs }) >>= hand_out valid m cs

-- A frame arrives: a new message, with one reference, for all clients.
unfoldable pub recv_video : (valid : ℕ → Bool) → (m : ℕ) → List ℕ → Frames → Option Frames
unfolding hand_out release
recv_video valid m cs v = hand_out valid m cs (record v { refs = set_ref m 1 v.refs }) >>= λ w.
    release m w.refs >>= λ refs. some (record w { refs = refs })

-- What a client's thread has sent, with the serial numbers.
pub record Sent : Type 0 where
  pub exit : Bool
  pub refs : Refs
  pub written : List (ℕ × ℕ)

-- The headers of the messages, and the serial number under which a client expects frames.
pub record Headers : Type 0 where
  pub cmdno : ℕ → ℕ
  pub bodylen : ℕ → ℕ
  pub serialid : ℕ → ℕ
  pub video_serial : ℕ

abbrev pub hmcmd_recv_video : ℕ
hmcmd_recv_video = 0x102

-- The writing of one message; `ok` is that the socket is valid and takes all bytes.
unfoldable pub write_frame : Headers → (ok : Bool) → (m : ℕ) → Sent → Option Sent
write_frame h ok m s =
    let serialid = if h.cmdno m == hmcmd_recv_video then h.video_serial else h.serialid m in
    if (h.bodylen m + 16) % 2 ^ 32 == 0
    then none
    else some (
        if ok
        then record s { written = s.written ++ (m, serialid) ∷ [] }
        else record s { exit = true })

-- The loop of `cu_proxy_t::handle_send` over the messages of a round.
unfoldable pub send_frames : Headers → (ok : ℕ → Bool) → (i : ℕ) → List ℕ → Sent → Option Sent
unfolding write_frame release
send_frames h ok i [] s = some s
send_frames h ok i (m ∷ ms) s = (if not s.exit then write_frame h (ok i) m s else some s) >>= λ s'.
    release m s'.refs >>= λ refs. send_frames h ok (i + 1) ms (record s' { refs = refs })

-- A round of `cu_proxy_t::handle_send`: at a socket that is not valid any more, or when a message could
-- not be written, the queue is cleared.
unfoldable pub round :
    Headers
    → (valid : ℕ → Bool) → (ok : ℕ → Bool) → (c : ℕ) → Frames
    → Option (Frames × List (ℕ × ℕ))
unfolding send_frames clear backup
round h valid ok c v =
    if valid c
    then (backup [] (v.queues c) v.refs >>= λ b.
        send_frames h ok 0 (b.0.0) (record { exit = false; refs = b.1; written = [] }) >>= λ s.
        (if s.exit then clear (b.0.1) s.refs else some (b.0.1, s.refs)) >>= λ r.
        some (record { queues = set_queue c (r.0) v.queues; refs = r.1 }, s.written))
    else (clear (v.queues c) v.refs >>= λ r.
        some (record { queues = set_queue c (r.0) v.queues; refs = r.1 }, []))

-- The rounds of the clients, one after the other.
unfoldable pub rounds :
    Headers → (valid : ℕ → Bool) → (ok : ℕ → ℕ → Bool) → List ℕ → Frames → Option Frames
unfolding round
rounds h valid ok [] v = some v
rounds h valid ok (c ∷ cs) v = round h valid (ok c) c v >>= λ r. rounds h valid ok cs r.0
