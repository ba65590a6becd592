-- ===== src/Examples/Running.antt =====
-- The theorems on the running processor: the threads of `busy` begin to wait one after the other.
use st_nvs.Base.{◌≡◌, true, [], ◌∷◌, refl, Ensures, ◌>>=◌}
use st_nvs.Vp.{Vp, io_wait, running, set_state, del_runq}
use st_nvs.Sched.{_st_vp_schedule}
use st_nvs.Thread.{_st_wait}
use st_nvs.Machine.{act, wait, idle_round}
use st_nvs.Machine.Dispatch.{Runs}
use st_nvs.Machine.Steps.{Step, parted, here, next, Run-Runs}
use st_nvs.Machine.Stale.{Mistaken, st_mutex_lock_resumed-idle_round}
use st_nvs.Sync.{st_mutex_lock_resumed}
use st_nvs.Machine.Alone.{Alone}
use st_nvs.Machine.Fair.{_st_vp_schedule-turn}
use st_nvs.Examples.State.{busy, busy-Inv, lock30}

busy-Runs : Runs busy
busy-Runs = record { inv = busy-Inv; runs = refl; spare = λ h. refl }

-- Thread 1 waits, and thread 6 runs; then it waits, and the idle thread runs.
abbrev left : Vp
left = set_state 1 io_wait busy

abbrev second : Vp
second = record (set_state 6 running (del_runq 6 left)) { this_thread = 6 }

abbrev idling : Vp
idling = record (set_state 9 running (set_state 6 io_wait second)) { this_thread = 9 }

first_wait : Step 1 busy second
unfolding act _st_wait _st_vp_schedule
first_wait = parted wait left refl tt refl refl refl

second_wait : Step 1 second idling
unfolding act _st_wait _st_vp_schedule
second_wait = parted wait (set_state 6 io_wait second) refl tt refl refl refl

idling-Runs : Runs idling
idling-Runs = Run-Runs busy-Runs (next (next here first_wait) second_wait)

_st_vp_schedule-turn_example : second.this_thread ≡ 6
_st_vp_schedule-turn_example = _st_vp_schedule-turn 6 [] [] busy-Runs refl here first_wait

st_mutex_lock_resumed-idle_round_example :
    Ensures
      (Mistaken 4 30 lock30)
      (idle_round true (4 ∷ []) 2000 0 idling >>= st_mutex_lock_resumed 30)
st_mutex_lock_resumed-idle_round_example =
    st_mutex_lock_resumed-idle_round 4 30 2000 0 lock30 idling idling-Runs refl refl refl refl refl
      refl
