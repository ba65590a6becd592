-- ===== src/Netfd.antt =====
-- The descriptors of io_win.cpp: the free list `_st_netfd_freelist`, and the data that a program
-- keeps with a descriptor. An address is a number and 0 is `NULL`; a destructor is named by its
-- address, and its calls are recorded, each with its argument. `none` is a write through `NULL`.
pub mod Pool
pub mod Specific
use st_nvs.Base.{
  ℕ, Bool, true, false, not, ◌&&◌, Option, none, some, List, [], ◌∷◌, ◌==◌, if◌then◌else◌,
}

-- `st_netfd_t`
pub record Netfd : Type 0 where
  pub osfd : ℕ
  pub inuse : Bool
  pub private_data : ℕ
  pub destructor : ℕ
  pub aux_data : ℕ
  pub next : ℕ

-- All descriptors, and the free list.
pub record Netfds : Type 0 where
  pub fd : ℕ → Netfd
  pub freelist : ℕ

-- A destructor's address and its argument.
abbrev pub Call : Type 0
Call = ℕ × ℕ

abbrev pub is_null : ℕ → Bool
is_null p = p == 0

abbrev pub set_fd : ℕ → Netfd → Netfds → Netfds
set_fd f d s = record s { fd = λ g. if g == f then d else s.fd g }

-- What `calloc` returns.
abbrev pub zeroed : Netfd
zeroed = record {
  osfd = 0;
  inuse = false;
  private_data = 0;
  destructor = 0;
  aux_data = 0;
  next = 0;
}

-- The call of the destructor for the data that is set.
unfoldable pub destructor_calls : Netfd → List Call
destructor_calls d =
    if not (is_null d.private_data) && not (is_null d.destructor)
    then (d.destructor, d.private_data) ∷ []
    else []

-- `_st_netfd_free_aux_data`
abbrev pub _st_netfd_free_aux_data : Netfd → Netfd
_st_netfd_free_aux_data d = record d { aux_data = 0 }

unfoldable pub st_netfd_free : (f : ℕ) → Netfds → Netfds × List Call
unfolding destructor_calls
st_netfd_free f s =
    let d = s.fd f in
    if not d.inuse
    then (s, [])
    else (let freed = if not (is_null d.aux_data) then _st_netfd_free_aux_data d else d in
        (
          record (set_fd f
              (record freed { inuse = false; private_data = 0; destructor = 0; next = s.freelist })
              s) { freelist = f },
          destructor_calls d,
        ))

-- `_st_netfd_new`; `fresh` is what `calloc` returns if it is called.
unfoldable pub _st_netfd_new : (osfd fresh : ℕ) → Netfds → Option (Netfds × ℕ)
_st_netfd_new osfd fresh s =
    if not (is_null s.freelist)
    then (let f = s.freelist in
        some (
          record (set_fd f (record (s.fd f) { inuse = true; next = 0 }) s) {
            freelist = (s.fd f).next;
          },
          f,
        ))
    else if is_null fresh
    then none
    else some (set_fd fresh (record zeroed { osfd = osfd; inuse = true; next = 0 }) s, fresh)

-- `st_netfd_open` and `st_netfd_open_socket`
unfoldable pub st_netfd_open : (osfd fresh : ℕ) → Netfds → Option (Netfds × ℕ)
st_netfd_open osfd fresh s = _st_netfd_new osfd fresh s

-- `st_netfd_close`, with the handle that it closes.
unfoldable pub st_netfd_close : (f : ℕ) → Netfds → (Netfds × List Call) × ℕ
st_netfd_close f s = let r = st_netfd_free f s in (r, ((r.0).fd f).osfd)

unfoldable pub st_netfd_fileno : (f : ℕ) → Netfds → ℕ
st_netfd_fileno f s = (s.fd f).osfd

unfoldable pub st_netfd_setspecific : (f value destructor : ℕ) → Netfds → Netfds × List Call
unfolding destructor_calls
st_netfd_setspecific f value destructor s =
    let d = s.fd f in
    (
      set_fd f (record d { private_data = value; destructor = destructor }) s,
      if not (value == d.private_data) then destructor_calls d else [],
    )

unfoldable pub st_netfd_getspecific : (f : ℕ) → Netfds → ℕ
st_netfd_getspecific f s = (s.fd f).private_data
