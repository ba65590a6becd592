-- ===== src/Machine/Acts.antt =====
-- What each call leaves to the scheduler, for all calls.
use st_nvs.Base.{
  ℕ, ◌<◌, ◌≤◌, ◌^◌, ◌≡◌, ◌⊎◌, Option, none, some, List, ◌>>=◌, count, Ensures, Ensures-bind, inl,
  inr, refl, if_both, if◌then◌else◌,
}
use st_nvs.Vp.{Vp, Mutex, Progress, returns, switches, success, failure, Ret}
use st_nvs.Sched.{st_thread_interrupt}
use st_nvs.Sync.{st_cond_signal, st_cond_broadcast, st_usleep_resumed, interrupted, consume}
use st_nvs.Thread.{
  Joining, st_thread_exit_resumed, st_thread_join_resumed, st_thread_create, st_thread_exit,
  st_thread_join, joined, join_fails, waits, _st_wait_resumed,
}
use st_nvs.Machine.{
  Action, interrupt, signal, broadcast, sleep, slept, timedwait, timedwaited, lock, locked, unlock,
  trylock, wait, waited, create, join, exit, act, joining, exited, cond_new, cond_destroy,
  mutex_new, mutex_destroy, join_result,
}
use st_nvs.Machine.Calls
use st_nvs.Machine.Calls.{Outcome, Calls, is_switch, same-Outcome}
use st_nvs.Machine.Locks
use st_nvs.Machine.Wakes
use st_nvs.Machine.Life
use st_nvs.Machine.Life.{Tagged}
use st_nvs.Machine.Create
use st_nvs.Machine.Ends
use st_nvs.Machine.Create.{Unused}

-- What the documentation asks of the caller: the objects it names exist, times fit their type, a
-- thread stands once on the queue of a condition variable, and a new stack is in nobody's use.
abbrev pub Allowed : Action → Vp → Type 0
Allowed (interrupt t) v = Unit
Allowed (signal c) v = (q : List ℕ) × (v.cond c ≡ some q)
Allowed (broadcast c) v = (q : List ℕ) × (v.cond c ≡ some q) × ((u : ℕ) → count u q ≤ 1)
Allowed (sleep usecs) v = usecs < 2 ^ 32
Allowed slept v = Unit
Allowed (timedwait c timeout) v = (q : List ℕ) × (v.cond c ≡ some q) × (timeout < 2 ^ 32)
Allowed (timedwaited c) v = (q : List ℕ) × (v.cond c ≡ some q)
Allowed (lock m) v = (k : Mutex) × (v.mutex m ≡ some k)
Allowed (locked m) v = (k : Mutex) × (v.mutex m ≡ some k)
Allowed (unlock m) v = (k : Mutex) × (v.mutex m ≡ some k)
Allowed (trylock m) v = (k : Mutex) × (v.mutex m ≡ some k)
Allowed wait v = Unit
Allowed waited v = Unit
Allowed (create p joinable size) v =
    (t : ℕ) → (st_thread_create p joinable size v).1 ≡ some t → Unused t v
Allowed (join t) v = (k : ℕ) × (q : List ℕ) × ((v.thread t).term ≡ some k) × (v.cond k ≡ some q)
Allowed (joining t c) v = (q : List ℕ) × (v.cond c ≡ some q)
Allowed (exit retval) v =
    ((v.thread v.this_thread).term ≡ none)
    ⊎ ((k : ℕ) × (q : List ℕ) × ((v.thread v.this_thread).term ≡ some k) × (v.cond k ≡ some q))
Allowed exited v =
    (k : ℕ) × (q : List ℕ) × ((v.thread v.this_thread).term ≡ some k) × (v.cond k ≡ some q)
Allowed (cond_new c) v = Unit
Allowed (cond_destroy c) v = (q : List ℕ) × (v.cond c ≡ some q)
Allowed (mutex_new m) v = Unit
Allowed (mutex_destroy m) v = (k : Mutex) × (v.mutex m ≡ some k)

tagged :
    (p : Progress) (v : Vp) (m : Option Vp)
    → Ensures (λ w. Outcome v (w, p)) m
    → Ensures (Outcome v) (m >>= λ w. some (w, p))
tagged p v m h = Ensures-bind (λ w. Outcome v (w, p)) (Outcome v) m (λ w. some (w, p)) h (λ w o. o)

-- A thread whose wait has ended looks for an interrupt.
resumed-Outcome :
    (v : Vp)
    → Calls v
    → (λ (r : Vp × Ret). Outcome v (r.0, returns r.1))
        (if interrupted v.this_thread v then (consume v.this_thread v, failure) else (v, success))
resumed-Outcome v c =
    if_both (λ (r : Vp × Ret). Outcome v (r.0, returns r.1)) (interrupted v.this_thread v)
      (consume v.this_thread v, failure) (v, success) (λ _. Calls.consume-Outcome v failure c)
      (λ _.
        same-Outcome v v (returns success) refl c refl refl refl refl refl (λ u. refl) (λ u. refl)
          (λ u. refl))

slept-Outcome : (v : Vp) → Calls v → Ensures (Outcome v) (act slept v)
unfolding act st_usleep_resumed
slept-Outcome v c = resumed-Outcome v c

waited-Outcome : (v : Vp) → Calls v → Ensures (Outcome v) (act waited v)
unfolding act _st_wait_resumed
waited-Outcome v c = resumed-Outcome v c

resulted :
    (v : Vp) (m : Option (Vp × Joining))
    → Ensures (Tagged v) m
    → Ensures (Outcome v) (m >>= join_result)
resulted v m h = Ensures-bind (Tagged v) (Outcome v) m join_result h (λ r o.
    elim r.1
        as (λ j.
          Tagged v (r.0, j)
          → Outcome v (
            r.0,
            elim j [ joined x ↦ returns success | join_fails ↦ returns failure | waits ↦ switches ],
          )) [ joined x ↦ λ h. h | join_fails ↦ λ h. h | waits ↦ λ h. h ]
      o)

joins-Outcome :
    (t k : ℕ) (q : List ℕ) (v : Vp)
    → Calls v
    → (v.thread t).term ≡ some k
    → v.cond k ≡ some q
    → Ensures (Outcome v) (act (join t) v)
unfolding act
joins-Outcome t k q v c e e' = resulted v (st_thread_join t v) (Life.join-Outcome t k q v c e e')

joining-Outcome :
    (t k : ℕ) (q : List ℕ) (v : Vp)
    → Calls v
    → v.cond k ≡ some q
    → Ensures (Outcome v) (act (joining t k) v)
unfolding act
joining-Outcome t k q v c e =
    resulted v (st_thread_join_resumed t k v) (Ends.joining-Outcome t k q v c e)

exits-Outcome :
    (retval : ℕ) (v : Vp)
    → Calls v
    → Allowed (exit retval) v
    → Ensures (Outcome v) (act (exit retval) v)
unfolding act
exits-Outcome retval v c (inl e) =
    tagged switches v (st_thread_exit retval v) (Life.exit-Outcome retval v c e)
exits-Outcome retval v c (inr (k, q, e, e')) =
    tagged switches v (st_thread_exit retval v) (Life.joinable_exit-Outcome retval k q v c e e')

pub act-Outcome : (a : Action) (v : Vp) → Calls v → Allowed a v → Ensures (Outcome v) (act a v)
unfolding act
act-Outcome (interrupt t) v c h =
    tagged (returns success) v (st_thread_interrupt t v) (Wakes.interrupt-Outcome t v c)
act-Outcome (signal k) v c h =
    tagged (returns success) v (st_cond_signal k v) (Calls.signal-Outcome k h.0 v c h.1)
act-Outcome (broadcast k) v c h =
    tagged (returns success) v (st_cond_broadcast k v) (Calls.broadcast-Outcome k h.0 v c h.1 h.2)
act-Outcome (sleep usecs) v c h = Calls.usleep-Outcome usecs v c h
act-Outcome slept v c h = slept-Outcome v c
act-Outcome (timedwait k timeout) v c h = Calls.timedwait-Outcome k timeout h.0 v c h.1 h.2
act-Outcome (timedwaited k) v c h = Wakes.timedwaited-Outcome k h.0 v c h.1
act-Outcome (lock m) v c h = Locks.lock-Outcome m h.0 v c h.1
act-Outcome (locked m) v c h = Locks.locked-Outcome m h.0 v c h.1
act-Outcome (unlock m) v c h = Locks.unlock-Outcome m h.0 v c h.1
act-Outcome (trylock m) v c h = Locks.trylock-Outcome m h.0 v c h.1
act-Outcome wait v c h = Calls.wait-Outcome v c
act-Outcome waited v c h = waited-Outcome v c
act-Outcome (create p joinable size) v c h = Create.create-Outcome p joinable size v c h
act-Outcome (join t) v c h = joins-Outcome t h.0 h.1 v c h.2 h.3
act-Outcome (joining t k) v c h = joining-Outcome t k h.0 v c h.1
act-Outcome (exit retval) v c h = exits-Outcome retval v c h
act-Outcome exited v c h =
    tagged switches v (st_thread_exit_resumed v) (Ends.exited-Outcome h.0 h.1 v c h.2 h.3)
act-Outcome (cond_new k) v c h = Ends.cond_new-Outcome k v c
act-Outcome (cond_destroy k) v c h = Ends.cond_destroy-Outcome k h.0 v c h.1
act-Outcome (mutex_new m) v c h = Ends.mutex_new-Outcome m v c
act-Outcome (mutex_destroy m) v c h = Ends.mutex_destroy-Outcome m h.0 v c h.1
