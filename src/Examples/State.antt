-- ===== src/Examples/State.antt =====
-- A processor in the middle of its work: thread 1 runs; 2 waits on condition 20 with a timeout, 3
-- sleeps, 4 waits for lock 30, which 1 holds, 5 is a zombie, 6 is runnable, and 9 is idle.
use st_nvs.Base.{ℕ, ◌==◌, if◌then◌else◌, true, some, none, [], ◌∷◌, arith}
use st_nvs.Key.{no_keys}
use st_nvs.SleepQueue.{sleeper}
use st_nvs.Vp.{
  Vp, Thread, ThreadState, Mutex, blank, no_flags, runnable, cond_wait, sleeping, lock_wait, zombie,
  no_error,
}
use st_nvs.Vp.Invariant.{Inv, IsQueued}

abbrev pub in_state : ThreadState → Thread
in_state s = record blank { state = s }

abbrev pub asleep : ThreadState → Thread
asleep s = record blank { state = s; flags = record no_flags { on_sleepq = true } }

abbrev pub threads : ℕ → Thread
threads t =
    if t == 1
    then record blank { term = some 21 }
    else if t == 2
    then asleep cond_wait
    else if t == 3
    then asleep sleeping
    else if t == 4
    then in_state lock_wait
    else if t == 5
    then record (in_state zombie) { term = some 22; retval = 77 }
    else if t == 6
    then in_state runnable
    else if t == 9
    then record (in_state runnable) { flags = record no_flags { idle = true } }
    else blank

abbrev pub lock30 : Mutex
lock30 = record { owner = some 1; wait_q = 4 ∷ [] }

abbrev pub busy : Vp
busy = record {
  idle_thread = 9;
  this_thread = 1;
  active_count = 6;
  last_clock = 1000;
  curr_time = 0;
  last_tset = 0;
  run_q = 6 ∷ [];
  sleep_q = record { queue = sleeper 3 50 ∷ sleeper 2 100 ∷ []; max = 150 };
  zombie_q = 5 ∷ [];
  thread = threads;
  cond = λ c.
      if c == 20
      then some (2 ∷ [])
      else if c == 21
      then some []
      else if c == 22
      then some []
      else none;
  mutex = λ m. if m == 30 then some lock30 else none;
  keys = no_keys;
  destroyed = [];
  stacks = record { free_stacks = []; num_free_stacks = 0 };
  errno = no_error;
}

busy-IsQueued : (t : ℕ) → IsQueued busy t
busy-IsQueued t = ground arith

pub busy-Inv : Inv busy
busy-Inv = record { sound = omega arith; queued = busy-IsQueued }
