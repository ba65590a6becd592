-- ===== src/Sync/Lock.antt =====
-- The mutexes of sync.cpp: who owns a lock, and why a thread is on its wait queue.
pub mod Acquire
pub mod Release
use st_nvs.Base.{
  unlink, ℕ, ◌+◌, ◌≤◌, ◌<◌, ◌≡◌, ◌≢◌, ◌++◌, ◌-◌, ◌||◌, Bool, true, false, Option, none, some, List,
  [], ◌∷◌, ◌==◌, ==→eq, if◌then◌else◌, ◌>>=◌, arith, count, count-append, count-unlink, Ensures,
  Bool-cases, inl, inr, refl, ◌∙◌, ap, sym, subst, ◌⊎◌,
}
use st_nvs.Vp.{
  is_lock_wait, is_wait, is_running, runnable, Vp, Mutex, update, set_state, add_runq, Ret, success,
  failure, Progress, returns, switches, set_errno, eperm, edeadlk,
}
use st_nvs.Vp.Invariant.{Inv}
use st_nvs.Sched.Wake.{ready-Inv}
use st_nvs.Sync.Signal.{oldest}
use st_nvs.Sync.{
  st_mutex_lock, st_mutex_lock_resumed, st_mutex_unlock, st_mutex_trylock, first_waiter, owned_by,
  is_none, interrupted,
}

-- Why a thread may be on a lock's wait queue: it waits, or it was handed the lock, or it was
-- interrupted. Nobody waits for a lock that is free.
pub record IsLock (lock : Mutex) (v : Vp) : Type 0 where
  pub reason :
      (t : ℕ)
      → 0 < count t lock.wait_q
      → (is_lock_wait (v.thread t).state || (owned_by t lock.owner || interrupted t v)) ≡ true
  pub taken : lock.owner ≡ none → first_waiter lock.wait_q v ≡ none

-- A lock in a processor, known to be there and sound.
pub record Holds (m : ℕ) (lock : Mutex) (v : Vp) : Type 0 where
  pub there : v.mutex m ≡ some lock
  pub is_lock : IsLock lock v

-- Those of a list that wait for a lock, in order.
unfoldable pub lock_waiting : List ℕ → Vp → List ℕ
lock_waiting [] v = []
lock_waiting (t ∷ rest) v =
    if is_lock_wait (v.thread t).state then t ∷ lock_waiting rest v else lock_waiting rest v

-- The first of a list, if there is one.
unfoldable pub first : List ℕ → Option ℕ
first [] = none
first (t ∷ rest) = some t

pub first_waiter-first : (q : List ℕ) (v : Vp) → first_waiter q v ≡ first (lock_waiting q v)
unfolding first_waiter lock_waiting first
first_waiter-first [] v = refl
first_waiter-first (t ∷ q) v = elim (Bool-cases (is_lock_wait (v.thread t).state)) [
  | inl w ↦ rw w refl
  | inr other ↦ rw other (first_waiter-first q v)
]

pub first_waiter-oldest :
    (q : List ℕ) (v : Vp)
    → (elim (first_waiter q v) [ none ↦ [] | some t ↦ t ∷ [] ]) ≡ oldest (lock_waiting q v)
unfolding first_waiter lock_waiting oldest
first_waiter-oldest [] v = refl
first_waiter-oldest (t ∷ q) v = elim (Bool-cases (is_lock_wait (v.thread t).state)) [
  | inl w ↦ rw w refl
  | inr other ↦ rw other (first_waiter-oldest q v)
]

pub waiter_cases :
    (q : List ℕ) (v : Vp)
    → ((first_waiter q v ≡ none)
        × ((t : ℕ) → 0 < count t q → is_lock_wait (v.thread t).state ≡ false))
      ⊎ ((t : ℕ) × (first_waiter q v ≡ some t)
          × (is_lock_wait (v.thread t).state ≡ true)
          × (0 < count t q))
unfolding first_waiter
waiter_cases [] v = inl (refl, λ t h. elim h [ ])
waiter_cases (u ∷ q) v = elim (Bool-cases (is_lock_wait (v.thread u).state)) [
  | inl w ↦ inr (u, rw w, w, ground arith)
  | inr other ↦ elim (waiter_cases q v) [
    | inl (e, all) ↦ inl (rw other e, λ t h. ground (arith, all t))
    | inr (t, e, w, on) ↦ inr (t, rw other e, w, ground arith)
  ]
]

pub first_waiter_frame :
    (q : List ℕ) (v w : Vp)
    → ((t : ℕ) → 0 < count t q → is_lock_wait (w.thread t).state ≡ is_lock_wait (v.thread t).state)
    → first_waiter q w ≡ first_waiter q v
unfolding first_waiter
first_waiter_frame [] v w h = refl
first_waiter_frame (t ∷ q) v w h =
    ground (arith, h t (ground arith), first_waiter_frame q v w (λ u on. h u (ground arith)))

-- The outcome of `st_mutex_lock` when its caller is scheduled again.
pub record Relocked (m : ℕ) (lock : Mutex) (v : Vp) (r : Vp × Ret) : Type 0 where
  pub outcome : r.1 ≡ (if owned_by v.this_thread lock.owner then success else failure)
  pub off : (r.0).mutex m ≡ some (record lock { wait_q = unlink v.this_thread lock.wait_q })

-- Where everybody on the wait queue waits for the lock, owns it or is interrupted, which a completion
-- that comes late can break, a thread that waited in `st_mutex_lock` and runs again owns the lock
-- exactly when the call reports success, and is off the wait queue either way.
pub st_mutex_lock_resumed-Relocked :
    (m : ℕ) (lock : Mutex) (v : Vp)
    → Holds m lock v
    → 0 < count v.this_thread lock.wait_q
    → is_running (v.thread v.this_thread).state ≡ true
    → Ensures (Relocked m lock v) (st_mutex_lock_resumed m v)
unfolding st_mutex_lock_resumed
st_mutex_lock_resumed-Relocked m lock v h on r =
    let why = h.is_lock.reason v.this_thread on in
    elim (Bool-cases (interrupted v.this_thread v)) [
      | inl stop ↦ elim (Bool-cases (owned_by v.this_thread lock.owner)) [
        | inl mine ↦
            rw (h.there, st_mutex_lock_resumed, stop, mine)
              (record { outcome = rw mine; off = ground arith })
        | inr other ↦
            rw (h.there, st_mutex_lock_resumed, stop, other)
              (record { outcome = rw other; off = ground arith })
      ]
      | inr go ↦
          let mine : owned_by v.this_thread lock.owner ≡ true = ground arith in
          rw (h.there, st_mutex_lock_resumed, go) (record { outcome = rw mine; off = ground arith })
    ]
