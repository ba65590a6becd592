-- ===== src/Key/Slots.antt =====
-- Creating keys, and reading and writing the data under them.
use st_nvs.Base.{
  ℕ, ◌+◌, ◌<◌, ◌≤◌, ◌≡◌, ◌≢◌, false, ◌&&◌, not, none, some, List, [], ◌∷◌, leb, ◌==◌, if◌then◌else◌,
  ℤ, pos, negsuc, arith, refl, Ensures, Bool-cases, inl, inr, ap, ==→eq, subst, sym,
}
use st_nvs.Key.{
  Keys, Slots, Call, keys_max, set_slot, st_key_create, st_thread_setspecific,
  st_thread_getspecific, is_set,
}

-- The table is within its bounds.
abbrev pub InBounds : Keys → Type 0
InBounds ks = ks.key_max ≤ keys_max

pub record Created (destructor : ℕ) (ks : Keys) (r : Keys × ℕ) : Type 0 where
  pub bounds : InBounds (r.0)
  pub next : r.1 ≡ ks.key_max
  pub grows : (r.0).key_max ≡ ks.key_max + 1
  pub registered : (r.0).destructors (r.1) ≡ destructor
  pub kept : (k : ℕ) → k < ks.key_max → (r.0).destructors k ≡ ks.destructors k

-- With room left, a key is created: the next number, with its destructor, and the destructors of
-- the keys before it stay. With sixteen keys, and only then, none is.
pub st_key_create_lem :
    (destructor : ℕ) (ks : Keys)
    → InBounds ks
    → (ks.key_max < 16 → Ensures (Created destructor ks) (st_key_create destructor ks))
      × (ks.key_max ≡ 16 → st_key_create destructor ks ≡ none)
unfolding st_key_create
st_key_create_lem destructor ks b = (
  λ lt.
      let room : leb 16 ks.key_max ≡ false = ground arith in
      rw room (record {
        bounds = omega arith;
        next = refl;
        grows = refl;
        registered = ground arith;
        kept = λ k h. ground arith;
      }),
  λ full. ground arith,
)

-- What a write leaves: the value under its key, all else as it was, and a call of the destructor
-- exactly when another value that was not `NULL` is replaced under a key that has one.
pub record Written (k value : ℕ) (ks : Keys) (slots : Slots) (r : Slots × List Call) : Type 0 where
  pub reads : st_thread_getspecific (pos k) ks (r.0) ≡ value
  pub kept :
      (j : ℤ) → j ≢ pos k → st_thread_getspecific j ks (r.0) ≡ st_thread_getspecific j ks slots
  pub calls : r.1 ≡ (
      if not (slots k == value) && (is_set (slots k) && is_set (ks.destructors k))
      then (ks.destructors k, slots k) ∷ []
      else [])

read_other :
    (k value : ℕ) (ks : Keys) (slots : Slots) (j : ℤ)
    → j ≢ pos k
    → st_thread_getspecific j ks (set_slot k value ks slots).0 ≡ st_thread_getspecific j ks slots
unfolding st_thread_getspecific set_slot
read_other k value ks slots (negsuc j) ne = refl
read_other k value ks slots (pos j) ne = elim (Bool-cases (j == k)) [
  | inl same ↦ absurd (ne (ap pos (==→eq j k same)))
  | inr other ↦ ground arith
]

set_slot-Written :
    (k value : ℕ) (ks : Keys) (slots : Slots)
    → k < ks.key_max
    → Written k value ks slots (set_slot k value ks slots)
set_slot-Written k value ks slots h = record {
  reads = reads;
  kept = read_other k value ks slots;
  calls = calls;
}
  where
    reads : st_thread_getspecific (pos k) ks (set_slot k value ks slots).0 ≡ value
    reads = unfold st_thread_getspecific set_slot in ground arith

    calls : (set_slot k value ks slots).1 ≡ (
        if not (slots k == value) && (is_set (slots k) && is_set (ks.destructors k))
        then (ks.destructors k, slots k) ∷ []
        else [])
    calls = unfold set_slot in ground arith

setspecific_valid :
    (k value : ℕ) (ks : Keys) (slots : Slots)
    → k < ks.key_max
    → st_thread_setspecific (pos k) value ks slots ≡ some (set_slot k value ks slots)
unfolding st_thread_setspecific
setspecific_valid k value ks slots h = ground arith

-- A write under a created key succeeds and is read back; the other keys are not touched.
pub st_thread_setspecific-Written :
    (k value : ℕ) (ks : Keys) (slots : Slots)
    → k < ks.key_max
    → Ensures (Written k value ks slots) (st_thread_setspecific (pos k) value ks slots)
st_thread_setspecific-Written k value ks slots h =
    subst (Ensures (Written k value ks slots)) (sym (setspecific_valid k value ks slots h))
      (set_slot-Written k value ks slots h)

-- A key that was not created, a negative one too, is refused for writing, and reads as `NULL`.
pub invalid_key :
    (k value : ℕ) (ks : Keys) (slots : Slots)
    → ks.key_max ≤ k
    → (st_thread_setspecific (pos k) value ks slots ≡ none)
      × (st_thread_setspecific (negsuc k) value ks slots ≡ none)
      × (st_thread_getspecific (pos k) ks slots ≡ 0)
      × (st_thread_getspecific (negsuc k) ks slots ≡ 0)
unfolding st_thread_setspecific st_thread_getspecific
invalid_key k value ks slots h = ground arith
