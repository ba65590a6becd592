-- ===== src/Proxy/Session.antt =====
-- A device's socket and the references to its proxy: `socket_fd` and `server_base_t` of
-- server/proto.hpp, and `pu_proxy_t::close` and `pu_proxy_t::run` of server/pu_proxy.cpp.
use st_nvs.Base.{
  ℕ, ◌+◌, ◌-◌, ◌%◌, ◌^◌, ◌<◌, ◌≡◌, Bool, true, false, Option, none, some, ◌==◌, if◌then◌else◌,
  ◌>>=◌, arith, refl,
}

-- `socket_fd`
pub record SocketFd : Type 0 where
  pub fd : ℕ
  pub net_valid : Bool

unfoldable pub init : (fd : ℕ) → SocketFd → Option SocketFd
init fd s = if fd == 0 then none else some (record { fd = fd; net_valid = true })

unfoldable pub is_vaild : SocketFd → Bool
is_vaild s = s.net_valid

unfoldable pub uninit : SocketFd → Option SocketFd
uninit s = if s.net_valid then some (record s { net_valid = false }) else none

-- A proxy: its references, its socket, and how often its condition was signalled.
pub record Session : Type 0 where
  pub ref : ℕ
  pub socket : SocketFd
  pub notified : ℕ

-- `server_base_t::add`, with the count that it returns.
unfoldable pub add : Session → Session × ℕ
add p = (record p { ref = (p.ref + 1) % 2 ^ 32 }, p.ref)

-- `server_base_t::release`; the proxy is deleted when the count becomes 0.
unfoldable pub release : Session → Option Session
release p = if p.ref == 0 then none else some (record p { ref = p.ref - 1 })

-- `server_base_t::notify`
unfoldable pub notify : Session → Session
notify p = record p { notified = p.notified + 1 }

-- `pu_proxy_t::close`
unfoldable pub close : Session → Option Session
unfolding release notify is_vaild uninit
close p =
    if is_vaild p.socket
    then (uninit p.socket >>= λ s. release (notify (record p { socket = s })))
    else release p

-- `pu_proxy_t::run`, up to the threads that it creates.
unfoldable pub run : (cli_fd : ℕ) → Session → Option Session
unfolding init add
run cli_fd p =
    init cli_fd p.socket >>= λ s. let q = record p { socket = s } in some (add (add q).0).0

-- Each of the two threads of a session closes it when it ends: the first one invalidates the socket
-- and wakes the other, the second one only lets go, and the references are what they were before.
pub close-run :
    (cli_fd : ℕ) (p : Session)
    → 0 < cli_fd
    → p.ref + 2 < 2 ^ 32
    → (run cli_fd p >>= close >>= close)
      ≡ some (record {
        ref = p.ref;
        socket = record { fd = cli_fd; net_valid = false };
        notified = p.notified + 1;
      })
unfolding run close init add release notify uninit is_vaild
close-run cli_fd p real small =
    let some_fd : (cli_fd == 0) ≡ false = ground (arith, real) in
    let up : (p.ref + 1) % 2 ^ 32 ≡ p.ref + 1 = omega (arith, small) in
    let up_again : (p.ref + 1 + 1) % 2 ^ 32 ≡ p.ref + 2 = omega (arith, small) in
    let two : (p.ref + 2 == 0) ≡ false = ground arith in
    let one : (p.ref + 2 - 1 == 0) ≡ false = ground arith in
    let back : p.ref + 2 - 1 - 1 ≡ p.ref = omega arith in
    rw (some_fd, up, up_again, two, one, back) refl
