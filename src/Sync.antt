-- ===== src/Sync.antt =====
-- sync.cpp: time, sleeping, condition variables and mutexes. A call that gives up the processor is
-- two functions: the part up to `_ST_SWITCH_CONTEXT`, and the part that runs when the caller is
-- scheduled again, `…_resumed`.
pub mod Signal
pub mod Lock
use st_nvs.Base.{
  unlink, ℕ, ◌++◌, ◌*◌, ◌%◌, ◌^◌, ◌-◌, Bool, true, false, Option, none, some, List, [], ◌∷◌, ◌==◌,
  if◌then◌else◌, ◌>>=◌,
}
use st_nvs.Vp.{
  is_cond_wait, is_lock_wait, ThreadState, lock_wait, sleeping, running, runnable, zombie,
  cond_wait, io_wait, Thread, Vp, Mutex, Errno, einval, edeadlk, eintr, etime, ebusy, eperm, update,
  set_state, set_flags, set_thread, set_interrupt, set_timedout, set_errno, add_runq, del_runq,
  add_sleepq, del_sleepq, Ret, success, failure, Progress, returns, switches, fail,
}
use st_nvs.Sched.{wake}

-- `ST_UTIME_NO_TIMEOUT`, -1 as an `unsigned long`.
abbrev pub no_timeout : ℕ
no_timeout = 2 ^ 32 - 1

unfoldable pub st_utime_last_clock : Vp → ℕ
st_utime_last_clock v = v.last_clock

-- `time` and `now` are what `time(NULL)` and `st_utime()` return. The result says whether the cache
-- was on.
unfoldable pub st_timecache_set : (on : Bool) → (time now : ℕ) → Vp → Vp × Bool
st_timecache_set on time now v = (
  if on then record v { curr_time = time; last_tset = now } else record v { curr_time = 0 },
  if v.curr_time == 0 then false else true,
)

unfoldable pub st_time : (time : ℕ) → Vp → ℕ
st_time time v = if v.curr_time == 0 then time else v.curr_time

-- The test that begins and ends the blocking calls: a pending interrupt is consumed.
abbrev pub interrupted : ℕ → Vp → Bool
interrupted t v = (v.thread t).flags.interrupt

abbrev pub consume : ℕ → Vp → Vp
consume t v = set_errno eintr (set_interrupt t false v)

unfoldable pub st_usleep : (usecs : ℕ) → Vp → Option (Vp × Progress)
st_usleep usecs v =
    let me = v.this_thread in
    if interrupted me v
    then some (consume me v, returns failure)
    else (add_sleepq me usecs (set_state me sleeping v) >>= λ v'. some (v', switches))

unfoldable pub st_usleep_resumed : Vp → Vp × Ret
st_usleep_resumed v =
    if interrupted v.this_thread v then (consume v.this_thread v, failure) else (v, success)

-- `secs` is the bit pattern of an `int`; the product is an `int` that becomes an `unsigned long`.
unfoldable pub st_sleep : (secs : ℕ) → Vp → Option (Vp × Progress)
unfolding st_usleep
st_sleep secs v =
    if secs == no_timeout then st_usleep no_timeout v else st_usleep ((secs * 1_000_000) % 2 ^ 32) v

-- `c` is what `calloc` returns: a fresh name, or `none` for `NULL`.
unfoldable pub st_cond_new : (c : Option ℕ) → Vp → Vp × Option ℕ
st_cond_new none v = (v, none)
st_cond_new (some c) v = (record v { cond = update v.cond c (some []) }, some c)

unfoldable pub st_cond_destroy : (c : ℕ) → Vp → Option (Vp × Ret)
st_cond_destroy c v = v.cond c >>= λ q. elim q [
  | [] ↦ some (record v { cond = update v.cond c none }, success)
  | t ∷ rest ↦ some (set_errno ebusy v, failure)
]

unfoldable pub st_cond_timedwait : (c timeout : ℕ) → Vp → Option (Vp × Progress)
st_cond_timedwait c timeout v =
    let me = v.this_thread in
    if interrupted me v
    then some (consume me v, returns failure)
    else (v.cond c >>= λ q.
        let v' = record (set_state me cond_wait v) {
          cond = update v.cond c (some (q ++ me ∷ []));
        } in
        (if timeout == no_timeout then some v' else add_sleepq me timeout v') >>= λ v''.
        some (v'', switches))

-- Off the wait queue; a timeout and an interrupt both fail the call, and the interrupt's error wins.
unfoldable pub st_cond_timedwait_resumed : (c : ℕ) → Vp → Option (Vp × Ret)
st_cond_timedwait_resumed c v = v.cond c >>= λ q.
    let me = v.this_thread in
    let v' = record v { cond = update v.cond c (some (unlink me q)) } in
    let late = (v'.thread me).flags.timedout in
    let v'' = if late then set_errno etime (set_timedout me false v') else v' in
    if interrupted me v''
    then some (consume me v'', failure)
    else some (v'', if late then failure else success)

unfoldable pub st_cond_wait : (c : ℕ) → Vp → Option (Vp × Progress)
unfolding st_cond_timedwait
st_cond_wait c v = st_cond_timedwait c no_timeout v

-- The walk over the wait queue in `_st_cond_signal`: a woken thread stays linked until it runs.
unfoldable pub signal_waiters : (broadcast : Bool) → List ℕ → Vp → Option Vp
signal_waiters broadcast [] v = some v
signal_waiters broadcast (t ∷ rest) v =
    if is_cond_wait (v.thread t).state
    then (wake t v >>= λ v'. if broadcast then signal_waiters broadcast rest v' else some v')
    else signal_waiters broadcast rest v

unfoldable pub _st_cond_signal : (c : ℕ) (broadcast : Bool) → Vp → Option Vp
unfolding signal_waiters
_st_cond_signal c broadcast v = v.cond c >>= λ q. signal_waiters broadcast q v

unfoldable pub st_cond_signal : (c : ℕ) → Vp → Option Vp
unfolding _st_cond_signal
st_cond_signal c v = _st_cond_signal c false v

unfoldable pub st_cond_broadcast : (c : ℕ) → Vp → Option Vp
unfolding _st_cond_signal
st_cond_broadcast c v = _st_cond_signal c true v

-- `m` is what `calloc` returns.
unfoldable pub st_mutex_new : (m : Option ℕ) → Vp → Vp × Option ℕ
st_mutex_new none v = (v, none)
st_mutex_new (some m) v =
    (record v { mutex = update v.mutex m (some (record { owner = none; wait_q = [] })) }, some m)

abbrev pub set_mutex : ℕ → Mutex → Vp → Vp
set_mutex m lock v = record v { mutex = update v.mutex m (some lock) }

abbrev pub is_none : Option ℕ → Bool
is_none none = true
is_none (some t) = false

abbrev pub owned_by : ℕ → Option ℕ → Bool
owned_by t none = false
owned_by t (some u) = u == t

abbrev pub is_empty : List ℕ → Bool
is_empty [] = true
is_empty (t ∷ rest) = false

unfoldable pub st_mutex_destroy : (m : ℕ) → Vp → Option (Vp × Ret)
st_mutex_destroy m v = v.mutex m >>= λ lock.
    if is_none lock.owner
    then if is_empty lock.wait_q
      then some (record v { mutex = update v.mutex m none }, success)
      else some (set_errno ebusy v, failure)
    else some (set_errno ebusy v, failure)

unfoldable pub st_mutex_lock : (m : ℕ) → Vp → Option (Vp × Progress)
st_mutex_lock m v =
    let me = v.this_thread in
    if interrupted me v
    then some (consume me v, returns failure)
    else (v.mutex m >>= λ lock.
        if is_none lock.owner
        then some (set_mutex m (record lock { owner = some me }) v, returns success)
        else if owned_by me lock.owner
        then fail edeadlk v
        else some (
          set_mutex m (record lock { wait_q = lock.wait_q ++ me ∷ [] }) (set_state me lock_wait v),
          switches,
        ))

unfoldable pub st_mutex_lock_resumed : (m : ℕ) → Vp → Option (Vp × Ret)
st_mutex_lock_resumed m v = v.mutex m >>= λ lock.
    let me = v.this_thread in
    let v' = set_mutex m (record lock { wait_q = unlink me lock.wait_q }) v in
    if interrupted me v'
    then if owned_by me lock.owner then some (v', success) else some (consume me v', failure)
    else some (v', success)

-- The walk over the wait queue in `st_mutex_unlock`: the first thread that still waits.
unfoldable pub first_waiter : List ℕ → Vp → Option ℕ
first_waiter [] v = none
first_waiter (t ∷ rest) v = if is_lock_wait (v.thread t).state then some t else first_waiter rest v

unfoldable pub st_mutex_unlock : (m : ℕ) → Vp → Option (Vp × Ret)
unfolding first_waiter
st_mutex_unlock m v = v.mutex m >>= λ lock.
    if owned_by v.this_thread lock.owner
    then elim (first_waiter lock.wait_q v) [
      | some t ↦ some (
        add_runq t (set_state t runnable (set_mutex m (record lock { owner = some t }) v)),
        success,
      )
      | none ↦ some (set_mutex m (record lock { owner = none }) v, success)
    ]
    else some (set_errno eperm v, failure)

unfoldable pub st_mutex_trylock : (m : ℕ) → Vp → Option (Vp × Ret)
st_mutex_trylock m v = v.mutex m >>= λ lock.
    if is_none lock.owner
    then some (set_mutex m (record lock { owner = some v.this_thread }) v, success)
    else some (set_errno ebusy v, failure)
