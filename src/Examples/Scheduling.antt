-- ===== src/Examples/Scheduling.antt =====
-- The scheduler's theorems at the busy processor.
use st_nvs.Base.{ℕ, ◌≤◌, [], ◌∷◌, refl, arith, Ensures, count}
use st_nvs.Sched.{st_thread_interrupt}
use st_nvs.Sched.Wake.{Interrupted, st_thread_interrupt-Interrupted}
use st_nvs.Sync.{st_cond_signal, st_cond_broadcast}
use st_nvs.Sync.Signal.{
  Signalled, waiting, oldest, st_cond_signal-Signalled, st_cond_broadcast-Signalled,
}
use st_nvs.Thread.{st_thread_exit, st_thread_join}
use st_nvs.Thread.Lifecycle.{Exited, Joined, st_thread_exit-Exited, st_thread_join-Joined}
use st_nvs.Examples.State.{busy, busy-Inv}

st_thread_interrupt-Interrupted_example : Ensures (Interrupted 2 busy) (st_thread_interrupt 2 busy)
st_thread_interrupt-Interrupted_example = st_thread_interrupt-Interrupted 2 busy busy-Inv

st_cond_signal-Signalled_example :
    Ensures (Signalled (oldest (waiting (2 ∷ []) busy)) busy) (st_cond_signal 20 busy)
st_cond_signal-Signalled_example = st_cond_signal-Signalled 20 (2 ∷ []) busy busy-Inv refl

once : (u : ℕ) → count u (2 ∷ []) ≤ 1
once u = ground arith

st_cond_broadcast-Signalled_example :
    Ensures (Signalled (waiting (2 ∷ []) busy) busy) (st_cond_broadcast 20 busy)
st_cond_broadcast-Signalled_example =
    st_cond_broadcast-Signalled 20 (2 ∷ []) busy busy-Inv refl once

st_thread_exit-Exited_example : Ensures (Exited 5 [] busy) (st_thread_exit 5 busy)
st_thread_exit-Exited_example = st_thread_exit-Exited 5 21 [] busy busy-Inv refl refl refl refl

st_thread_join-Joined_example : Ensures (Joined 5 busy) (st_thread_join 5 busy)
st_thread_join-Joined_example = st_thread_join-Joined 5 22 busy busy-Inv refl refl refl refl
