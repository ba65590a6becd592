-- ===== src/Examples/Locking.antt =====
-- The theorems on locks, at the lock that thread 1 holds and thread 4 waits for.
use st_nvs.Base.{[], refl, arith, Ensures}
use st_nvs.Vp.{Vp, set_state, running}
use st_nvs.Sync.{st_mutex_lock, st_mutex_unlock, first_waiter}
use st_nvs.Sync.Lock.{Holds}
use st_nvs.Sync.Lock.Acquire.{Locked, st_mutex_lock-Locked}
use st_nvs.Sync.Lock.Release.{Unlocked, st_mutex_unlock-Unlocked}
use st_nvs.Examples.State.{busy, busy-Inv, lock30}

busy-Holds : Holds 30 lock30 busy
unfolding first_waiter
busy-Holds = record {
  there = refl;
  is_lock = record { reason = λ t on. ground arith; taken = λ e. cc };
}

-- Thread 6 runs instead of thread 1.
abbrev other : Vp
other = record (set_state 6 running busy) { this_thread = 6; run_q = [] }

other-Holds : Holds 30 lock30 other
unfolding first_waiter
other-Holds = record {
  there = refl;
  is_lock = record { reason = λ t on. ground arith; taken = λ e. cc };
}

st_mutex_lock-Locked_example : Ensures (Locked 30 lock30 other) (st_mutex_lock 30 other)
st_mutex_lock-Locked_example = st_mutex_lock-Locked 30 lock30 other other-Holds refl

st_mutex_unlock-Unlocked_example : Ensures (Unlocked 30 lock30 busy) (st_mutex_unlock 30 busy)
st_mutex_unlock-Unlocked_example =
    st_mutex_unlock-Unlocked 30 lock30 busy busy-Inv busy-Holds refl refl
