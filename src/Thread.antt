-- ===== src/Thread.antt =====
-- Threads and the idle thread, in sched_win.cpp: `st_init`, `st_thread_create`, `st_thread_exit`,
-- `st_thread_join`, `_st_wait`, `_st_vp_idle`. A call that gives up the processor is cut in two, as
-- in Sync.
pub mod Lifecycle
pub mod Completion
use st_nvs.Base.{
  unlink, ℕ, ◌+◌, ◌-◌, ◌++◌, Bool, true, false, Option, none, some, List, [], ◌∷◌, ltb, ◌==◌,
  if◌then◌else◌, ◌>>=◌,
}
use st_nvs.SleepQueue
use st_nvs.Key.{_st_thread_cleanup, no_keys}
use st_nvs.Stk.{Stack, StackCache, _st_stack_new, _st_stack_free, adjust_size, lay_out}
use st_nvs.Vp.{
  is_zombie, ThreadState, no_flags, blank, no_error, lock_wait, sleeping, running, runnable, zombie,
  cond_wait, io_wait, Thread, Vp, Mutex, Errno, einval, edeadlk, eintr, etime, ebusy, eperm, update,
  set_state, set_flags, set_thread, set_interrupt, set_timedout, set_errno, add_runq, del_runq,
  add_zombieq, del_zombieq, Ret, success, failure, Progress, returns, switches, fail,
}
use st_nvs.Sched.{wake}
use st_nvs.Sync.{
  interrupted, consume, no_timeout, st_cond_new, st_cond_signal, st_cond_destroy, st_cond_timedwait,
  st_cond_timedwait_resumed,
}

-- What the build and the system decide: the page, the sizes of a pointer, a thread object and the pad
-- of a stack, and what allocation returns.
pub record Platform : Type 0 where
  pub page : ℕ
  pub word : ℕ
  pub thread_size : ℕ
  pub pad : ℕ
  pub object : Bool
  pub segment : ℕ → Option ℕ
  pub cond : Option ℕ

-- The thread object behind the adjusted stack; `none` is `NULL`.
unfoldable pub start_thread : Platform → (joinable : Bool) → Stack → Vp → Vp × Option ℕ
start_thread p joinable ts v =
    let t = (lay_out p.word p.thread_size p.pad ts).thread in
    let fresh : Thread = record blank { stack = some ts } in
    let made = st_cond_new p.cond v in
    if joinable
    then elim made.1 [
      | none ↦ (record v { stacks = _st_stack_free (some ts) v.stacks }, none)
      | some c ↦ (
        add_runq t
            (record (set_thread t (record fresh { term = some c; state = runnable }) made.0) {
              active_count = v.active_count + 1;
            }),
        some t,
      )
    ]
    else (
      add_runq t (record (set_thread t (record fresh { state = runnable }) v) {
        active_count = v.active_count + 1;
      }),
      some t,
    )

-- `st_thread_create`. The thread's entry point and its argument are the client's.
unfoldable pub st_thread_create : Platform → (joinable : Bool) → (stk_size : ℕ) → Vp → Vp × Option ℕ
unfolding start_thread
st_thread_create p joinable stk_size v =
    elim (_st_stack_new p.page p.object p.segment (adjust_size p.page stk_size) v.stacks) [
      | none ↦ (v, none)
      | some (ts, stacks) ↦ start_thread p joinable ts (record v { stacks = stacks })
    ]

-- The end of `st_thread_exit`: the stack goes back to the cache, and the thread never runs again.
unfoldable pub leave : Vp → Vp
leave v =
    let me = v.this_thread in
    if (v.thread me).flags.primordial
    then v
    else record v { stacks = _st_stack_free (v.thread me).stack v.stacks }

-- `st_thread_exit` up to its first switch: a joinable thread becomes a zombie and tells its joiner.
unfoldable pub st_thread_exit : (retval : ℕ) → Vp → Option Vp
unfolding leave
st_thread_exit retval v =
    let me = v.this_thread in
    let cleaned = _st_thread_cleanup v.keys (v.thread me).private_data in
    let v' =
      record (set_thread me (record (v.thread me) { retval = retval; private_data = cleaned.0 })
        v) { active_count = v.active_count - 1; destroyed = v.destroyed ++ cleaned.1 } in
    elim (v.thread me).term [
      | none ↦ some (leave v')
      | some c ↦ st_cond_signal c (add_zombieq me (set_state me zombie v'))
    ]

-- What a joined thread does when it runs again.
unfoldable pub st_thread_exit_resumed : Vp → Option Vp
unfolding leave
st_thread_exit_resumed v =
    let me = v.this_thread in
    elim (v.thread me).term [
      | none ↦ none
      | some c ↦
          (st_cond_destroy c v >>= λ r.
          some (leave (set_thread me (record ((r.0).thread me) { term = none }) r.0)))
    ]

-- How far `st_thread_join` gets.
pub data Joining : Type 0 where
  joined : (retval : ℕ) → Joining
  join_fails : Joining
  waits : Joining

-- The loop's test: a zombie is taken off its queue and made runnable, to clean up; else the caller
-- waits on the termination condition.
unfoldable pub join_loop : (target term : ℕ) → Vp → Option (Vp × Joining)
join_loop t c v =
    if is_zombie (v.thread t).state
    then some (add_runq t (del_zombieq t (set_state t runnable v)), joined (v.thread t).retval)
    else (st_cond_timedwait c no_timeout v >>= λ r.
        some (r.0, elim r.1 [ returns _ ↦ join_fails | switches ↦ waits ]))

unfoldable pub st_thread_join : (target : ℕ) → Vp → Option (Vp × Joining)
unfolding join_loop
st_thread_join t v = elim (v.thread t).term [
  | none ↦ some (set_errno einval v, join_fails)
  | some c ↦
      if v.this_thread == t
      then some (set_errno edeadlk v, join_fails)
      else (v.cond c >>= λ q. elim q [
        | [] ↦ join_loop t c v
        | u ∷ rest ↦ some (set_errno einval v, join_fails)
      ])
]

-- The joiner runs again: an interrupt ends the call, and otherwise the loop goes on.
unfoldable pub st_thread_join_resumed : (target term : ℕ) → Vp → Option (Vp × Joining)
unfolding join_loop
st_thread_join_resumed t c v = st_cond_timedwait_resumed c v >>= λ r. elim r.1 [
  | failure ↦ some (r.0, join_fails)
  | success ↦ join_loop t c r.0
]

-- `_st_wait`, which waits for a completion and ignores its timeout. It returns 1 where the other calls
-- return -1.
unfoldable pub _st_wait : Vp → Vp × Progress
_st_wait v =
    let me = v.this_thread in
    if interrupted me v then (consume me v, returns failure) else (set_state me io_wait v, switches)

unfoldable pub _st_wait_resumed : Vp → Vp × Ret
_st_wait_resumed v =
    if interrupted v.this_thread v then (consume v.this_thread v, failure) else (v, success)

-- The loop of `_st_vp_idle` over the threads that the completion queue hands out.
unfoldable pub drain : List ℕ → Vp → Option Vp
drain [] v = some v
drain (t ∷ rest) v = wake t v >>= drain rest

-- `_st_vp_idle`: `signalled` is the result of the wait for the notify event.
unfoldable pub _st_vp_idle : (signalled : Bool) → (completed : List ℕ) → Vp → Option Vp
unfolding drain
_st_vp_idle signalled completed v = if signalled then drain completed v else some v

-- `st_init` after `_st_io_init`, in a cleared processor: the idle thread is created and taken off the
-- run queue, and the caller becomes the primordial thread, at the address `primordial`. `none` is -1.
abbrev pub no_vp : StackCache → (now : ℕ) → Vp
no_vp stacks now = record {
  idle_thread = 0;
  this_thread = 0;
  active_count = 0;
  last_clock = now;
  curr_time = 0;
  last_tset = 0;
  run_q = [];
  sleep_q = SleepQueue.empty;
  zombie_q = [];
  thread = λ t. blank;
  cond = λ c. none;
  mutex = λ m. none;
  keys = no_keys;
  destroyed = [];
  stacks = stacks;
  errno = no_error;
}

-- The idle thread's flags, and the primordial thread.
unfoldable pub adopt : (idle primordial : ℕ) → Vp → Vp
adopt idle primordial v =
    let v' = del_runq idle (record (set_flags idle (record no_flags { idle = true }) v) {
      idle_thread = idle;
      active_count = v.active_count - 1;
    }) in
    record (set_thread primordial (record blank { flags = record no_flags { primordial = true } })
      v') { this_thread = primordial; active_count = v'.active_count + 1 }

unfoldable pub st_init : Platform → StackCache → (now primordial : ℕ) → Option Vp
unfolding adopt
st_init p stacks now primordial =
    let r = st_thread_create p false 0 (no_vp stacks now) in
    elim r.1 [ none ↦ none | some idle ↦ some (adopt idle primordial r.0) ]
