-- ===== src/Examples/Server.antt =====
-- The theorems on descriptors, reading and messages.
use st_nvs.Base.{
  Bool, false, ℕ, ◌≡◌, true, some, List, [], ◌∷◌, refl, arith, Ensures, if◌then◌else◌, ◌==◌, pos,
}
use st_nvs.Netfd.{Netfds, zeroed, st_netfd_free}
use st_nvs.Netfd.Pool.{IsPool, Freed, st_netfd_free-Freed}
use st_nvs.Io.{
  Codes, Call, brought, without_count, cut_short, Memory, st_read_fully, store_bytes, failed,
  st_read, last_error, _st_GetError,
}
use st_nvs.Io.Read.{Steady, at_start, retry, arrive, st_read_fully_all}
use st_nvs.Proto.{Header, Refs}
use st_nvs.Proxy.{Sender, send_messages}
use st_nvs.Proxy.Session.{Session}
use st_nvs.Proxy.Sending.{Sent, send_messages-Sent}

-- The descriptor 5 in use, with data and a destructor, and 3 and 4 on the free list.
abbrev descriptors : Netfds
descriptors = record {
  fd = λ f.
      if f == 3
      then record zeroed { osfd = 103; next = 4 }
      else if f == 4
      then record zeroed { osfd = 104 }
      else if f == 5
      then record zeroed { osfd = 105; inuse = true; private_data = 11; destructor = 700 }
      else zeroed;
  freelist = 3;
}

descriptors-IsPool : IsPool descriptors (3 ∷ 4 ∷ [])
descriptors-IsPool = record {
  chain = (
    refl,
    record { unused = refl; no_data = refl; no_destructor = refl; no_aux = refl },
    (refl, record { unused = refl; no_data = refl; no_destructor = refl; no_aux = refl }, refl),
  );
  apart = λ f. ground arith;
}

st_netfd_free-Freed_example : Freed 5 descriptors (3 ∷ 4 ∷ []) (st_netfd_free 5 descriptors)
st_netfd_free-Freed_example =
    st_netfd_free-Freed 5 descriptors (3 ∷ 4 ∷ []) descriptors-IsPool refl refl

-- Messages 1 and 2 with a reference each.
abbrev refs : Refs
refs m = if m == 1 then 1 else if m == 2 then 1 else 0

abbrev header : Header
header = record { cmdno = 257; bodylen = 66051; errcode = 0; serialid = 7 }

-- The documented numbers of Windows.
abbrev codes : Codes
codes = record {
  wsabaseerr = 10000;
  error_io_pending = 997;
  wsaeintr = 10004;
  wsaebadf = 10009;
  wsaeacces = 10013;
  wsaefault = 10014;
  wsaeinval = 10022;
  wsaemfile = 10024;
  wsaewouldblock = 10035;
  wsaeinprogress = 10036;
  wsaealready = 10037;
  wsaenotsock = 10038;
  wsaedestaddrreq = 10039;
  wsaemsgsize = 10040;
  wsaeprototype = 10041;
  wsaenoprotoopt = 10042;
  wsaeopnotsupp = 10045;
  wsaeaddrinuse = 10048;
  wsaeaddrnotavail = 10049;
  wsaeconnaborted = 10053;
  wsaeconnreset = 10054;
  wsaeisconn = 10056;
  wsaenotconn = 10057;
  wsaetimedout = 10060;
  wsaeconnrefused = 10061;
  wsaehostunreach = 10065;
  eintr = 4;
  ebadf = 9;
  eacces = 13;
  efault = 14;
  einval = 22;
  emfile = 24;
  eagain = 11;
}

-- A call that is pending and then brings bytes, and one that fails.
abbrev brings : List ℕ → Call
brings bytes = record { rc = 1; error = 997; completion = brought bytes; later_error = 0 }

abbrev fails_with : ℕ → Call
fails_with e = record { rc = 1; error = e; completion = without_count; later_error = 0 }

abbrev memory : Memory
memory a = 0

two_calls : Steady codes (fails_with 10036 ∷ brings (7 ∷ 8 ∷ []) ∷ []) (7 ∷ 8 ∷ [])
unfolding st_read _st_GetError last_error failed
two_calls =
    retry (fails_with 10036) (brings (7 ∷ 8 ∷ []) ∷ []) (7 ∷ 8 ∷ []) (refl, refl)
      (arrive (brings (7 ∷ 8 ∷ [])) [] (7 ∷ 8 ∷ []) []
        (record { starts = refl; ends = refl; some_bytes = omega arith }) at_start)

st_read_fully_all_example :
    st_read_fully codes 3 100 (fails_with 10036 ∷ brings (7 ∷ 8 ∷ []) ∷ brings (9 ∷ []) ∷ []) memory
    ≡ some (pos 3, store_bytes 100 (7 ∷ 8 ∷ 9 ∷ []) memory)
unfolding failed
st_read_fully_all_example =
    st_read_fully_all codes 3 100 (fails_with 10036 ∷ brings (7 ∷ 8 ∷ []) ∷ []) [] (7 ∷ 8 ∷ [])
      (9 ∷ []) memory (brings (9 ∷ [])) two_calls
      (record { starts = refl; ends = refl; some_bytes = omega arith }) refl (omega arith)

-- A call that is pending when an interrupt ends the wait; the completion before it brought a byte.
abbrev cut : Call
cut = record { rc = 1; error = 997; completion = cut_short (pos 1); later_error = 0 }

-- Two messages, of which the second write fails.
abbrev sender : Sender
sender = record { serial = 7; exit = false; refs = refs; serialid = λ m. 0; written = [] }

abbrev first_only : ℕ → Bool
first_only i = i == 0

send_messages-Sent_example :
    Ensures
      (Sent first_only 0 (1 ∷ 2 ∷ []) sender)
      (send_messages first_only (λ m. 100) 0 (1 ∷ 2 ∷ []) sender)
send_messages-Sent_example =
    send_messages-Sent first_only (λ m. 100) 0 (1 ∷ 2 ∷ []) sender (λ m. ground arith)
      (λ m on. omega arith)

abbrev session : Session
session = record { ref = 1; socket = record { fd = 0; net_valid = false }; notified = 0 }
