-- ===== src/Key.antt =====
-- key.cpp: per-thread data under keys. A pointer is a number, and `NULL` is 0. The data of a thread
-- is a function of the key; a destructor is named by its address, and its calls are recorded in
-- order, each with its argument.
pub mod Cleanup
pub mod Slots
use st_nvs.Base.{
  ℕ, zero, suc, ◌+◌, ◌-◌, Bool, true, false, not, ◌&&◌, Option, none, some, List, [], ◌∷◌, ltb, leb,
  ◌==◌, if◌then◌else◌, ℤ, pos, negsuc,
}

-- `ST_KEYS_MAX`
abbrev pub keys_max : ℕ
keys_max = 16

-- `key_max` and `_st_destructors`
pub record Keys : Type 0 where
  pub key_max : ℕ
  pub destructors : ℕ → ℕ

abbrev pub no_keys : Keys
no_keys = record { key_max = 0; destructors = λ k. 0 }

abbrev pub Slots : Type 0
Slots = ℕ → ℕ

abbrev pub put : ℕ → ℕ → (ℕ → ℕ) → ℕ → ℕ
put k x f j = if j == k then x else f j

-- A destructor's address and its argument.
abbrev pub Call : Type 0
Call = ℕ × ℕ

-- `st_key_create`; `none` is the failure with `EAGAIN`, which changes nothing.
unfoldable pub st_key_create : (destructor : ℕ) → Keys → Option (Keys × ℕ)
st_key_create destructor ks =
    if leb keys_max ks.key_max
    then none
    else some (
      record { key_max = ks.key_max + 1; destructors = put ks.key_max destructor ks.destructors },
      ks.key_max,
    )

unfoldable pub st_key_getlimit : ℕ
st_key_getlimit = keys_max

-- The test of an `int` key; `none` is out of range.
unfoldable pub valid_key : ℤ → Keys → Option ℕ
valid_key (pos k) ks = if ltb k ks.key_max then some k else none
valid_key (negsuc k) ks = none

abbrev pub is_set : ℕ → Bool
is_set p = not (p == 0)

-- The write behind the test, with the calls that it makes.
unfoldable pub set_slot : ℕ → ℕ → Keys → Slots → Slots × List Call
set_slot k value ks slots = if slots k == value then (slots, []) else (
  put k value slots,
  if is_set (slots k) && is_set (ks.destructors k) then (ks.destructors k, slots k) ∷ [] else [],
)

-- `st_thread_setspecific`; `none` is the failure with `EINVAL`.
unfoldable pub st_thread_setspecific : ℤ → ℕ → Keys → Slots → Option (Slots × List Call)
unfolding valid_key set_slot
st_thread_setspecific key value ks slots = elim (valid_key key ks) [
  | none ↦ none
  | some k ↦ some (set_slot k value ks slots)
]

unfoldable pub st_thread_getspecific : ℤ → Keys → Slots → ℕ
unfolding valid_key
st_thread_getspecific key ks slots = elim (valid_key key ks) [ none ↦ 0 | some k ↦ slots k ]

abbrev pub cleans : ℕ → Keys → Slots → Bool
cleans k ks slots = is_set (slots k) && is_set (ks.destructors k)

-- The loop of `_st_thread_cleanup`, for a number of keys that are left.
unfoldable pub cleanup_loop : (rounds key : ℕ) → Keys → Slots → Slots × List Call
cleanup_loop zero key ks slots = (slots, [])
cleanup_loop (suc n) key ks slots =
    let (rest, calls) =
      cleanup_loop n (key + 1) ks (if cleans key ks slots then put key 0 slots else slots) in
    (rest, if cleans key ks slots then (ks.destructors key, slots key) ∷ calls else calls)

unfoldable pub _st_thread_cleanup : Keys → Slots → Slots × List Call
unfolding cleanup_loop
_st_thread_cleanup ks slots = cleanup_loop ks.key_max 0 ks slots
