-- ===== src/Sched.antt =====
-- The scheduler of sched_win.cpp.
pub mod Clock
pub mod Fire
pub mod Wake
use st_nvs.Base.{
  ℕ, ◌++◌, ◌-◌, Bool, true, false, Option, none, some, List, [], ◌∷◌, ltb, ◌==◌, if◌then◌else◌,
  ◌>>=◌, ulong_sub,
}
use st_nvs.SleepQueue.{Sleeper, SleepQueue}
use st_nvs.Vp.{
  is_running, is_runnable, is_zombie, is_cond_wait, running, runnable, zombie, cond_wait, io_wait,
  Thread, Vp, Errno, einval, edeadlk, eintr, set_state, set_flags, set_thread, set_interrupt,
  set_timedout, set_errno, add_runq, del_runq, del_zombieq, add_zombieq, del_sleepq, Ret, success,
  failure, Progress, returns, switches, fail,
}

-- Off the sleep queue, if it is there, and onto the run queue.
unfoldable pub wake : ℕ → Vp → Option Vp
wake t v = (if (v.thread t).flags.on_sleepq then del_sleepq t false v else some v) >>= λ v'.
    some (add_runq t (set_state t runnable v'))

-- `st_thread_interrupt`
unfoldable pub st_thread_interrupt : ℕ → Vp → Option Vp
unfolding wake
st_thread_interrupt t v =
    if is_zombie (v.thread t).state
    then some v
    else if is_running (v.thread t).state
    then some (set_interrupt t true v)
    else if is_runnable (v.thread t).state
    then some (set_interrupt t true v)
    else wake t (set_interrupt t true v)

-- `_st_vp_schedule`, up to the restored context: the head of the run queue runs, or else the idle
-- thread. Either is asserted to be runnable.
unfoldable pub dispatch : ℕ → Vp → Option Vp
dispatch t v =
    if is_runnable (v.thread t).state
    then some (record (set_state t running v) { this_thread = t })
    else none

unfoldable pub schedule_from : List ℕ → Vp → Option Vp
unfolding dispatch
schedule_from [] v = dispatch v.idle_thread v
schedule_from (t ∷ _) v = dispatch t (del_runq t v)

unfoldable pub _st_vp_schedule : Vp → Option Vp
unfolding schedule_from
_st_vp_schedule v = schedule_from v.run_q v

-- One round of the loop of `_st_vp_check_clock`: a sleeper whose time is over.
unfoldable pub expire : ℕ → Vp → Option Vp
expire t v = del_sleepq t true v >>= λ v'.
    let v'' = if is_cond_wait (v'.thread t).state then set_timedout t true v' else v' in
    if (v''.thread t).flags.idle then none else some (add_runq t (set_state t runnable v''))

unfoldable pub check_sleepers : List Sleeper → ℕ → Vp → Option Vp
unfolding expire
check_sleepers [] elapsed v = some v
check_sleepers (s ∷ rest) elapsed v =
    if (v.thread s.thread).flags.on_sleepq
    then (if ltb elapsed s.sleep
        then some (record v {
          sleep_q = record {
            queue = record s { sleep = ulong_sub s.sleep elapsed } ∷ rest;
            max = ulong_sub v.sleep_q.max elapsed;
          };
        })
        else (expire s.thread v >>= check_sleepers rest (ulong_sub elapsed s.sleep)))
    else none

-- The cached time of `st_time`, refreshed when it is older than a second.
unfoldable pub refresh_time : (now time : ℕ) → Vp → Vp
refresh_time now time v =
    if v.curr_time == 0
    then v
    else if ltb 999000 (ulong_sub now v.last_tset)
    then record v { curr_time = time; last_tset = now }
    else v

-- `_st_vp_check_clock`; `now` is what `st_utime` returns, and `time` what `time` does.
unfoldable pub _st_vp_check_clock : (now time : ℕ) → Vp → Option Vp
unfolding check_sleepers refresh_time
_st_vp_check_clock now time v =
    check_sleepers v.sleep_q.queue (ulong_sub now v.last_clock)
      (refresh_time now time (record v { last_clock = now }))
