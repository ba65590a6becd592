-- ===== src/Vp.antt =====
-- The virtual processor: the data of common.h (`st_thread_t`, `st_cond_t`, `st_mutex_t`, `st_vp_t`)
-- and the macros that change it. Threads, condition variables and mutexes are named by numbers; a
-- circular list is the list of its members in order (see Clist). `none` as the result of a run is a
-- failed `ST_ASSERT` or an access to a freed object.
pub mod Invariant
pub mod Moves
use st_nvs.Base.{
  unlink, ℕ, ◌++◌, Bool, true, false, Option, none, some, List, [], ◌∷◌, ◌==◌, if◌then◌else◌, ◌>>=◌,
}
use st_nvs.SleepQueue
use st_nvs.SleepQueue.{SleepQueue}
use st_nvs.Key.{Keys, Slots, Call}
use st_nvs.Stk.{Stack, StackCache}

-- `_ST_ST_…`
pub data ThreadState : Type 0 where
  running runnable io_wait lock_wait cond_wait sleeping zombie : ThreadState

abbrev pub is_running : ThreadState → Bool
is_running running = true
is_running _ = false

abbrev pub is_runnable : ThreadState → Bool
is_runnable runnable = true
is_runnable _ = false

abbrev pub is_zombie : ThreadState → Bool
is_zombie zombie = true
is_zombie _ = false

abbrev pub is_cond_wait : ThreadState → Bool
is_cond_wait cond_wait = true
is_cond_wait _ = false

abbrev pub is_lock_wait : ThreadState → Bool
is_lock_wait lock_wait = true
is_lock_wait _ = false

abbrev pub is_io_wait : ThreadState → Bool
is_io_wait io_wait = true
is_io_wait _ = false

-- The states in which a thread is neither run nor scheduled to be.
abbrev pub is_wait : ThreadState → Bool
is_wait io_wait = true
is_wait lock_wait = true
is_wait cond_wait = true
is_wait sleeping = true
is_wait _ = false

-- `_ST_FL_…`: the bits of `flags`.
pub record Flags : Type 0 where
  pub primordial : Bool
  pub idle : Bool
  pub on_sleepq : Bool
  pub interrupt : Bool
  pub timedout : Bool

abbrev pub no_flags : Flags
no_flags = record {
  primordial = false;
  idle = false;
  on_sleepq = false;
  interrupt = false;
  timedout = false;
}

pub data Errno : Type 0 where
  no_error eintr etime einval edeadlk ebusy eperm eagain : Errno

pub record Thread : Type 0 where
  pub state : ThreadState
  pub flags : Flags
  pub retval : ℕ
  pub stack : Option Stack
  pub private_data : Slots
  pub term : Option ℕ

-- A thread object that `memset` has cleared.
abbrev pub blank : Thread
blank = record {
  state = running;
  flags = no_flags;
  retval = 0;
  stack = none;
  private_data = λ k. 0;
  term = none;
}

pub record Mutex : Type 0 where
  pub owner : Option ℕ
  pub wait_q : List ℕ

-- `st_vp_t` with the globals of sched_win.cpp, the keys and the free stacks. A condition variable is
-- its wait queue. `destroyed` records the calls of destructors, in order.
pub record Vp : Type 0 where
  pub idle_thread : ℕ
  pub this_thread : ℕ
  pub active_count : ℕ
  pub last_clock : ℕ
  pub curr_time : ℕ
  pub last_tset : ℕ
  pub run_q : List ℕ
  pub sleep_q : SleepQueue
  pub zombie_q : List ℕ
  pub thread : ℕ → Thread
  pub cond : ℕ → Option (List ℕ)
  pub mutex : ℕ → Option Mutex
  pub keys : Keys
  pub destroyed : List Call
  pub stacks : StackCache
  pub errno : Errno

abbrev pub update {ℓ} : {A : Type ℓ} → (ℕ → A) → ℕ → A → ℕ → A
update f t a u = if u == t then a else f u

abbrev pub set_thread : ℕ → Thread → Vp → Vp
set_thread t th v = record v { thread = update v.thread t th }

abbrev pub set_state : ℕ → ThreadState → Vp → Vp
set_state t s v = set_thread t (record (v.thread t) { state = s }) v

abbrev pub set_flags : ℕ → Flags → Vp → Vp
set_flags t f v = set_thread t (record (v.thread t) { flags = f }) v

abbrev pub set_on_sleepq : ℕ → Bool → Vp → Vp
set_on_sleepq t b v = set_flags t (record ((v.thread t).flags) { on_sleepq = b }) v

abbrev pub set_interrupt : ℕ → Bool → Vp → Vp
set_interrupt t b v = set_flags t (record ((v.thread t).flags) { interrupt = b }) v

abbrev pub set_timedout : ℕ → Bool → Vp → Vp
set_timedout t b v = set_flags t (record ((v.thread t).flags) { timedout = b }) v

abbrev pub set_errno : Errno → Vp → Vp
set_errno e v = record v { errno = e }

-- `_ST_ADD_RUNQ`, `_ST_ADD_ZOMBIEQ` and their opposites.
abbrev pub add_runq : ℕ → Vp → Vp
add_runq t v = record v { run_q = v.run_q ++ t ∷ [] }

abbrev pub del_runq : ℕ → Vp → Vp
del_runq t v = record v { run_q = unlink t v.run_q }

abbrev pub add_zombieq : ℕ → Vp → Vp
add_zombieq t v = record v { zombie_q = v.zombie_q ++ t ∷ [] }

abbrev pub del_zombieq : ℕ → Vp → Vp
del_zombieq t v = record v { zombie_q = unlink t v.zombie_q }

-- `_ST_ADD_SLEEPQ` and `_ST_DEL_SLEEPQ`, with the flag that they keep.
unfoldable pub add_sleepq : ℕ → ℕ → Vp → Option Vp
add_sleepq t timeout v = SleepQueue.add t timeout v.sleep_q >>= λ q.
    some (set_on_sleepq t true (record v { sleep_q = q }))

unfoldable pub del_sleepq : ℕ → (expired : Bool) → Vp → Option Vp
del_sleepq t expired v =
    if (v.thread t).flags.on_sleepq
    then (SleepQueue.del t expired v.sleep_q >>= λ q.
        some (set_on_sleepq t false (record v { sleep_q = q })))
    else none

-- A thread that is made runnable.
abbrev pub awake : Thread → Thread
awake th = record th { state = runnable; flags = record (th.flags) { on_sleepq = false } }

-- What a call reports: `0` or `-1`.
pub data Ret : Type 0 where
  success failure : Ret

-- How far a call gets before `_ST_SWITCH_CONTEXT`: it returns, or it gives up the processor.
pub data Progress : Type 0 where
  returns : Ret → Progress
  switches : Progress

abbrev pub fail : Errno → Vp → Option (Vp × Progress)
fail e v = some (set_errno e v, returns failure)
