-- ===== src/Proto.antt =====
-- The protocol of the server: the header of a message and its byte order, the references to
-- messages (server/proto.hpp), and the queue of messages to a device (server/pu_proxy.hpp). A
-- message is a number. `none` is a failed assertion or the use of a message that was deleted.
pub mod Order
pub mod Queue
use st_nvs.Base.{
  ℕ, ◌+◌, ◌-◌, ◌*◌, ◌/◌, ◌%◌, ◌^◌, Bool, Option, none, some, List, [], ◌∷◌, ◌++◌, ◌==◌,
  if◌then◌else◌, ◌>>=◌,
}

-- `mcr_ntoh_32` on 32 bits. The four masks and shifts take one byte each, to places that do not
-- overlap, so that the bitwise or is a sum.
unfoldable pub mcr_ntoh_32 : ℕ → ℕ
mcr_ntoh_32 v =
    v % 2 ^ 8 * 2 ^ 24
    + v / 2 ^ 8 % 2 ^ 8 * 2 ^ 16
    + v / 2 ^ 16 % 2 ^ 8 * 2 ^ 8
    + v / 2 ^ 24 % 2 ^ 8

-- `net_port_header_t`
pub record Header : Type 0 where
  pub cmdno : ℕ
  pub bodylen : ℕ
  pub errcode : ℕ
  pub serialid : ℕ

unfoldable pub transfer_in : Header → Header
transfer_in hdr = record {
  cmdno = mcr_ntoh_32 hdr.cmdno;
  bodylen = mcr_ntoh_32 hdr.bodylen;
  errcode = mcr_ntoh_32 hdr.errcode;
  serialid = mcr_ntoh_32 hdr.serialid;
}

unfoldable pub transfer_out : Header → Header
transfer_out hdr = transfer_in hdr

-- The count `ref` of each message; a message is deleted when its count becomes 0.
abbrev pub Refs : Type 0
Refs = ℕ → ℕ

abbrev pub set_ref : ℕ → ℕ → Refs → Refs
set_ref m n refs k = if k == m then n else refs k

-- `net_port_msg_t::add`
unfoldable pub add : ℕ → Refs → Option Refs
add m refs = if refs m == 0 then none else some (set_ref m ((refs m + 1) % 2 ^ 32) refs)

-- `net_port_msg_t::release`
unfoldable pub release : ℕ → Refs → Option Refs
release m refs = if refs m == 0 then none else some (set_ref m (refs m - 1) refs)

-- `msg_queue_t::push`
unfoldable pub push : ℕ → List ℕ → Refs → Option (List ℕ × Refs)
unfolding add
push m msg_vec refs = add m refs >>= λ refs'. some (msg_vec ++ m ∷ [], refs')

-- The loop of `msg_queue_t::clear`, and of the destructor.
unfoldable pub release_all : List ℕ → Refs → Option Refs
unfolding release
release_all [] refs = some refs
release_all (m ∷ ms) refs = release m refs >>= release_all ms

unfoldable pub clear : List ℕ → Refs → Option (List ℕ × Refs)
unfolding release_all
clear msg_vec refs = release_all msg_vec refs >>= λ refs'. some ([], refs')

-- `msg_queue_t::backup`, with what it leaves in the other vector.
unfoldable pub backup : (vec msg_vec : List ℕ) → Refs → Option ((List ℕ × List ℕ) × Refs)
unfolding clear
backup vec msg_vec refs = clear msg_vec refs >>= λ r. some ((vec ++ msg_vec, r.0), r.1)

-- Messages that a program sends one after the other.
unfoldable pub push_all : List ℕ → List ℕ → Refs → Option (List ℕ × Refs)
unfolding push
push_all [] msg_vec refs = some (msg_vec, refs)
push_all (m ∷ ms) msg_vec refs = push m msg_vec refs >>= λ r. push_all ms (r.0) (r.1)
