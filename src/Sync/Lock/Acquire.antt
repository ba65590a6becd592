-- ===== src/Sync/Lock/Acquire.antt =====
-- `st_mutex_lock` and `st_mutex_trylock`.
use st_nvs.Base.{
  ℕ, ◌≡◌, ◌++◌, true, false, some, [], ◌∷◌, ◌==◌, if◌then◌else◌, arith, count-append, Ensures,
  Bool-cases, inl, inr, refl, ◌∙◌,
}
use st_nvs.Vp.{
  Vp, Mutex, set_state, success, failure, Progress, returns, switches, set_errno, edeadlk, ebusy,
}
use st_nvs.Sync.{st_mutex_lock, st_mutex_trylock, owned_by, is_none, interrupted}
use st_nvs.Vp.{lock_wait}
use st_nvs.Sync.{set_mutex}
use st_nvs.Sync.Lock.{Holds, first_waiter_frame}

-- The lock after a call of `st_mutex_lock` up to its return or its switch.
abbrev pub after_lock : ℕ → Mutex → Mutex
after_lock me lock =
    if is_none lock.owner
    then record lock { owner = some me }
    else if owned_by me lock.owner
    then lock
    else record lock { wait_q = lock.wait_q ++ me ∷ [] }

abbrev pub lock_progress : ℕ → Mutex → Progress
lock_progress me lock =
    if is_none lock.owner
    then returns success
    else if owned_by me lock.owner
    then returns failure
    else switches

pub record Locked (m : ℕ) (lock : Mutex) (v : Vp) (r : Vp × Progress) : Type 0 where
  pub progress : r.1 ≡ lock_progress v.this_thread lock
  pub holds : Holds m (after_lock v.this_thread lock) (r.0)

take-Holds :
    (m : ℕ) (lock : Mutex) (v : Vp)
    → Holds m lock v
    → is_none lock.owner ≡ true
    → Holds m
        (record lock { owner = some v.this_thread })
        (set_mutex m (record lock { owner = some v.this_thread }) v)
take-Holds m lock v h free = record {
  there = ground arith;
  is_lock = record { reason = λ t on. ground (arith, h.is_lock.reason t on); taken = λ e. cc };
}

keep-Holds :
    (m : ℕ) (lock : Mutex) (v w : Vp)
    → Holds m lock v
    → w.mutex ≡ v.mutex
    → w.thread ≡ v.thread
    → Holds m lock w
keep-Holds m lock v w h em et = record {
  there = rw em h.there;
  is_lock = record {
    reason = λ t on. rw et (h.is_lock.reason t on);
    taken = λ e. first_waiter_frame lock.wait_q v w (λ t on. rw et) ∙ h.is_lock.taken e;
  };
}

enqueued : ℕ → Mutex → Vp → Vp
enqueued m lock v =
    set_mutex m (record lock { wait_q = lock.wait_q ++ v.this_thread ∷ [] })
      (set_state v.this_thread lock_wait v)

enqueue-Holds :
    (m : ℕ) (lock : Mutex) (v : Vp)
    → Holds m lock v
    → is_none lock.owner ≡ false
    → Holds m (record lock { wait_q = lock.wait_q ++ v.this_thread ∷ [] }) (enqueued m lock v)
unfolding enqueued
enqueue-Holds m lock v h held = record {
  there = ground arith;
  is_lock = record {
    reason = λ t on. elim (Bool-cases (t == v.this_thread)) [
      | inl me ↦ rw me (ground arith)
      | inr other ↦
          let before =
            h.is_lock.reason t (ground (arith, count-append t lock.wait_q (v.this_thread ∷ []))) in
          ground (arith, before, other)
    ];
    taken = λ e. ground arith;
  };
}

taken_lock :
    (m : ℕ) (lock : Mutex) (v : Vp)
    → v.mutex m ≡ some lock
    → interrupted v.this_thread v ≡ false
    → is_none lock.owner ≡ true
    → st_mutex_lock m v
      ≡ some (set_mutex m (record lock { owner = some v.this_thread }) v, returns success)
unfolding st_mutex_lock
taken_lock m lock v e go free = rw (go, e, st_mutex_lock, free)

refused_lock :
    (m : ℕ) (lock : Mutex) (v : Vp)
    → v.mutex m ≡ some lock
    → interrupted v.this_thread v ≡ false
    → is_none lock.owner ≡ false
    → owned_by v.this_thread lock.owner ≡ true
    → st_mutex_lock m v ≡ some (set_errno edeadlk v, returns failure)
unfolding st_mutex_lock
refused_lock m lock v e go held mine = rw (go, e, st_mutex_lock, held, mine)

queued_lock :
    (m : ℕ) (lock : Mutex) (v : Vp)
    → v.mutex m ≡ some lock
    → interrupted v.this_thread v ≡ false
    → is_none lock.owner ≡ false
    → owned_by v.this_thread lock.owner ≡ false
    → st_mutex_lock m v ≡ some (enqueued m lock v, switches)
unfolding st_mutex_lock enqueued
queued_lock m lock v e go held other = rw (go, e, st_mutex_lock, held, other)

-- A free lock is taken, the owner's own call is refused, and any other caller queues behind the
-- others and gives up the processor. Each way the wait queue stays accounted for.
pub st_mutex_lock-Locked :
    (m : ℕ) (lock : Mutex) (v : Vp)
    → Holds m lock v
    → interrupted v.this_thread v ≡ false
    → Ensures (Locked m lock v) (st_mutex_lock m v)
st_mutex_lock-Locked m lock v h go = elim (Bool-cases (is_none lock.owner)) [
  | inl free ↦
      rw (taken_lock m lock v h.there go free)
        (record { progress = rw free; holds = rw free (take-Holds m lock v h free) })
  | inr held ↦ elim (Bool-cases (owned_by v.this_thread lock.owner)) [
    | inl mine ↦ rw (refused_lock m lock v h.there go held mine) (record {
      progress = rw (held, mine);
      holds = rw (held, mine) (keep-Holds m lock v (set_errno edeadlk v) h refl refl);
    })
    | inr other ↦ rw (queued_lock m lock v h.there go held other) (record {
      progress = rw (held, other);
      holds = rw (held, other) (enqueue-Holds m lock v h held);
    })
  ]
]

-- `st_mutex_trylock` takes a free lock, and refuses any other, its owner's too, without waiting.
pub st_mutex_trylock_lem :
    (m : ℕ) (lock : Mutex) (v : Vp)
    → Holds m lock v
    → Ensures
        (λ r.
          (r.1 ≡ (if is_none lock.owner then success else failure))
          × Holds m
              (if is_none lock.owner then record lock { owner = some v.this_thread } else lock)
              (r.0))
        (st_mutex_trylock m v)
unfolding st_mutex_trylock
st_mutex_trylock_lem m lock v h = elim (Bool-cases (is_none lock.owner)) [
  | inl free ↦ rw (h.there, st_mutex_trylock, free) (refl, take-Holds m lock v h free)
  | inr held ↦
      rw (h.there, st_mutex_trylock, held)
        (refl, keep-Holds m lock v (set_errno ebusy v) h refl refl)
]
