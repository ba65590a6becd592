-- ===== src/Io.antt =====
-- Reading and writing in io_win.cpp, and the errors of Winsock. The calls of Winsock are parameters:
-- each `WSARecv` and `WSASend` is given with what it returns and what its completion brings. The
-- numbers of errors are a record, since they stand in the headers of Windows.
pub mod Errors
pub mod Read
use st_nvs.Base.{
  ℕ, ◌+◌, Bool, true, false, not, ◌&&◌, ◌||◌, Option, none, some, List, [], ◌∷◌, length, ltb, ◌==◌,
  if◌then◌else◌, ◌>>=◌, ulong_sub, ℤ, pos, negsuc,
}

pub record Codes : Type 0 where
  pub wsabaseerr : ℕ
  pub error_io_pending : ℕ
  pub wsaeintr : ℕ
  pub wsaebadf : ℕ
  pub wsaeacces : ℕ
  pub wsaefault : ℕ
  pub wsaeinval : ℕ
  pub wsaemfile : ℕ
  pub wsaewouldblock : ℕ
  pub wsaeinprogress : ℕ
  pub wsaealready : ℕ
  pub wsaenotsock : ℕ
  pub wsaedestaddrreq : ℕ
  pub wsaemsgsize : ℕ
  pub wsaeprototype : ℕ
  pub wsaenoprotoopt : ℕ
  pub wsaeopnotsupp : ℕ
  pub wsaeaddrinuse : ℕ
  pub wsaeaddrnotavail : ℕ
  pub wsaeconnaborted : ℕ
  pub wsaeconnreset : ℕ
  pub wsaeisconn : ℕ
  pub wsaenotconn : ℕ
  pub wsaetimedout : ℕ
  pub wsaeconnrefused : ℕ
  pub wsaehostunreach : ℕ
  pub eintr : ℕ
  pub ebadf : ℕ
  pub eacces : ℕ
  pub efault : ℕ
  pub einval : ℕ
  pub emfile : ℕ
  pub eagain : ℕ

-- The cases of the switch in `_st_GetError`; the numbers behind EAGAIN are those of neterr.h.
abbrev pub cases : Codes → List (ℕ × ℕ)
cases c =
    (c.wsaeintr, c.wsaeintr)
    ∷ (c.wsaebadf, c.ebadf)
    ∷ (c.wsaeacces, c.eacces)
    ∷ (c.wsaefault, c.efault)
    ∷ (c.wsaeinval, c.einval)
    ∷ (c.wsaemfile, c.emfile)
    ∷ (c.wsaewouldblock, c.eagain)
    ∷ (c.wsaeinprogress, c.eintr)
    ∷ (c.wsaealready, c.eintr)
    ∷ (c.wsaenotsock, 216)
    ∷ (c.wsaedestaddrreq, 217)
    ∷ (c.wsaemsgsize, 218)
    ∷ (c.wsaeprototype, 219)
    ∷ (c.wsaenoprotoopt, 220)
    ∷ (c.wsaeopnotsupp, 223)
    ∷ (c.wsaeaddrinuse, 226)
    ∷ (c.wsaeaddrnotavail, 227)
    ∷ (c.wsaeconnaborted, 231)
    ∷ (c.wsaeconnreset, 232)
    ∷ (c.wsaeisconn, 234)
    ∷ (c.wsaenotconn, 235)
    ∷ (c.wsaetimedout, 238)
    ∷ (c.wsaeconnrefused, 239)
    ∷ (c.wsaehostunreach, 242)
    ∷ []

unfoldable pub switch : List (ℕ × ℕ) → ℕ → ℕ
switch [] syserr = syserr
switch (row ∷ rows) syserr = if syserr == row.0 then row.1 else switch rows syserr

-- `_st_GetError`; `last` is what `GetLastError` returns. `none` is a read of the uninitialised
-- variable, for any argument but 0.
unfoldable pub _st_GetError : Codes → (err last : ℕ) → Option ℕ
unfolding switch
_st_GetError c err last =
    if err == 0
    then (if ltb last c.wsabaseerr then some last else some (switch (cases c) last))
    else none

-- How the wait for a completion ends: with the bytes, with a completion that has no count, or, since
-- the thread was interrupted before or during the wait, without a completion; `valid_len` then holds
-- what the completion before it has left.
pub data Completion : Type 0 where
  brought : (bytes : List ℕ) → Completion
  without_count : Completion
  cut_short : (left : ℤ) → Completion

-- A call of Winsock: its result and the last error behind it, and then the end of the wait and the
-- last error behind that. A completion without a count leaves -1 in `valid_len`.
pub record Call : Type 0 where
  pub rc : ℕ
  pub error : ℕ
  pub completion : Completion
  pub later_error : ℕ

unfoldable pub failed : Codes → Call → Bool
failed c r = not (r.rc == 0) && not (r.error == c.error_io_pending)

abbrev pub valid_len : Completion → ℤ
valid_len (brought bytes) = pos (length bytes)
valid_len without_count = negsuc 0
valid_len (cut_short left) = left

abbrev pub received : Completion → List ℕ
received (brought bytes) = bytes
received without_count = []
received (cut_short left) = []

-- `st_read`, over the wait, whose result it ignores.
unfoldable pub st_read : Codes → Call → ℤ
unfolding failed
st_read c r = if failed c r then negsuc 0 else valid_len r.completion

-- What `GetLastError` returns behind it.
unfoldable pub last_error : Codes → Call → ℕ
unfolding failed
last_error c r = if failed c r then r.error else r.later_error

-- `st_write`
unfoldable pub st_write : Codes → (nbyte : ℕ) → Call → ℤ
unfolding failed
st_write c nbyte r = if failed c r then negsuc 0 else pos nbyte

abbrev pub Memory : Type 0
Memory = ℕ → ℕ

abbrev pub store_byte : ℕ → ℕ → Memory → Memory
store_byte a x mem b = if b == a then x else mem b

-- The completion's bytes, from an address on.
unfoldable pub store_bytes : ℕ → List ℕ → Memory → Memory
store_bytes a [] mem = mem
store_bytes a (x ∷ xs) mem = store_bytes (a + 1) xs (store_byte a x mem)

-- The loop of `st_read_fully` over the calls that it makes; `none` is a wait for one more.
unfoldable pub read_loop : Codes → (nbyte nleft buf : ℕ) → List Call → Memory → Option (ℤ × Memory)
unfolding st_read last_error
read_loop c nbyte nleft buf [] mem =
    if nleft == 0 then some (pos (ulong_sub nbyte nleft), mem) else none
read_loop c nbyte nleft buf (r ∷ rs) mem = elim (nleft == 0) [
  | true ↦ some (pos (ulong_sub nbyte nleft), mem)
  | false ↦ elim (st_read c r) [
    | negsuc k ↦ _st_GetError c 0 (last_error c r) >>= λ e. elim (e == c.eintr) [
      | true ↦ read_loop c nbyte nleft buf rs mem
      | false ↦ some (negsuc 0, mem)
    ]
    | pos n ↦
        let left = ulong_sub nleft n in
        let filled = store_bytes buf (received r.completion) mem in
        elim (left == 0 || n == 0) [
          | true ↦ some (pos (ulong_sub nbyte left), filled)
          | false ↦ read_loop c nbyte left (buf + n) rs filled
        ]
  ]
]

unfoldable pub st_read_fully : Codes → (nbyte buf : ℕ) → List Call → Memory → Option (ℤ × Memory)
unfolding read_loop
st_read_fully c nbyte buf rs mem = read_loop c nbyte nbyte buf rs mem
