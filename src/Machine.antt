-- ===== src/Machine.antt =====
-- The threads together: which calls the running thread makes, in which order, is the environment's
-- choice, and a call that gives up the processor hands it to the scheduler.
pub mod Dispatch
pub mod Calls
pub mod Locks
pub mod Wakes
pub mod Life
pub mod Acts
pub mod Create
pub mod Ends
pub mod Idle
pub mod Steps
pub mod Alone
pub mod Stale
pub mod Fair
use st_nvs.Base.{
  ℕ, ◌++◌, Bool, true, false, Option, none, some, List, [], ◌∷◌, ◌==◌, if◌then◌else◌, ◌>>=◌,
}
use st_nvs.Vp.{Vp, runnable, set_state, Ret, success, failure, Progress, returns, switches}
use st_nvs.Sched.{st_thread_interrupt, _st_vp_schedule, _st_vp_check_clock}
use st_nvs.Sync.{
  st_usleep, st_usleep_resumed, st_cond_timedwait, st_cond_timedwait_resumed, st_cond_signal,
  st_cond_broadcast, st_mutex_lock, st_mutex_lock_resumed, st_mutex_unlock, st_mutex_trylock,
  st_cond_new, st_cond_destroy, st_mutex_new, st_mutex_destroy,
}
use st_nvs.Thread.{
  Platform, Joining, joined, join_fails, waits, st_thread_create, st_thread_exit, st_thread_join,
  st_thread_exit_resumed, st_thread_join_resumed, _st_wait, _st_wait_resumed, _st_vp_idle,
}

-- What a thread that is not the idle thread can call of sched_win.cpp and sync.cpp, and how it goes
-- on after a switch. `st_sleep` and `st_cond_wait` are `sleep` and `timedwait` with the time that they
-- compute; the calls that read the time or set its cache touch no thread and no queue.
pub data Action : Type 0 where
  interrupt : (target : ℕ) → Action
  signal : (cond : ℕ) → Action
  broadcast : (cond : ℕ) → Action
  sleep : (usecs : ℕ) → Action
  slept : Action
  timedwait : (cond timeout : ℕ) → Action
  timedwaited : (cond : ℕ) → Action
  lock : (mutex : ℕ) → Action
  locked : (mutex : ℕ) → Action
  unlock : (mutex : ℕ) → Action
  trylock : (mutex : ℕ) → Action
  wait : Action
  waited : Action
  create : Platform → (joinable : Bool) → (stk_size : ℕ) → Action
  join : (target : ℕ) → Action
  joining : (target cond : ℕ) → Action
  exit : (retval : ℕ) → Action
  exited : Action
  cond_new : (cond : Option ℕ) → Action
  cond_destroy : (cond : ℕ) → Action
  mutex_new : (mutex : Option ℕ) → Action
  mutex_destroy : (mutex : ℕ) → Action

abbrev pub done : Option (Vp × Ret) → Option (Vp × Progress)
done m = m >>= λ r. some (r.0, returns r.1)

abbrev pub join_result : Vp × Joining → Option (Vp × Progress)
join_result r =
    some (
      r.0,
      elim r.1 [ joined x ↦ returns success | join_fails ↦ returns failure | waits ↦ switches ],
    )

unfoldable pub act : Action → Vp → Option (Vp × Progress)
act (interrupt t) v = st_thread_interrupt t v >>= λ w. some (w, returns success)
act (signal c) v = st_cond_signal c v >>= λ w. some (w, returns success)
act (broadcast c) v = st_cond_broadcast c v >>= λ w. some (w, returns success)
act (sleep usecs) v = st_usleep usecs v
act slept v = done (some (st_usleep_resumed v))
act (timedwait c timeout) v = st_cond_timedwait c timeout v
act (timedwaited c) v = done (st_cond_timedwait_resumed c v)
act (lock m) v = st_mutex_lock m v
act (locked m) v = done (st_mutex_lock_resumed m v)
act (unlock m) v = done (st_mutex_unlock m v)
act (trylock m) v = done (st_mutex_trylock m v)
act wait v = some (_st_wait v)
act waited v = done (some (_st_wait_resumed v))
act (create p joinable size) v = some ((st_thread_create p joinable size v).0, returns success)
act (join t) v = st_thread_join t v >>= join_result
act (joining t c) v = st_thread_join_resumed t c v >>= join_result
act (exit retval) v = st_thread_exit retval v >>= λ w. some (w, switches)
act exited v = st_thread_exit_resumed v >>= λ w. some (w, switches)
act (cond_new c) v = some ((st_cond_new c v).0, returns success)
act (cond_destroy c) v = done (st_cond_destroy c v)
act (mutex_new m) v = some ((st_mutex_new m v).0, returns success)
act (mutex_destroy m) v = done (st_mutex_destroy m v)

-- `_ST_SWITCH_CONTEXT` at the end of a call that gives up the processor.
unfoldable pub switch_context : Vp × Progress → Option Vp
switch_context (v, returns r) = some v
switch_context (v, switches) = _st_vp_schedule v

-- One round of the loop of `_st_idle_thread_start`: the completions, the clock, and the switch.
unfoldable pub idle_round :
    (signalled : Bool) → (completed : List ℕ) → (now time : ℕ) → Vp → Option Vp
idle_round signalled completed now time v = _st_vp_idle signalled completed v >>= λ v1.
    _st_vp_check_clock now time v1 >>= λ v2. _st_vp_schedule (set_state v.this_thread runnable v2)
