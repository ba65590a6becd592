-- ===== src/Examples/Sleep.antt =====
-- The sleep queue's theorems at the busy processor's queue.
use st_nvs.Base.{◌≡◌, some, [], ◌∷◌, refl, arith, Ensures, false, ulong_sub}
use st_nvs.SleepQueue.{SleepQueue, sleeper, add, del}
use st_nvs.SleepQueue.Insert.{Added, add-Added}
use st_nvs.SleepQueue.Delete.{Deleted, del-Deleted}
use st_nvs.Sched.{_st_vp_check_clock}
use st_nvs.Sched.Clock.{Clocked, _st_vp_check_clock-Clocked}
use st_nvs.Examples.State.{busy, busy-Inv}

abbrev queue : SleepQueue
queue = busy.sleep_q

-- The gap of the later sleeper is split.
add_between :
    add 7 120 queue
    ≡ some (record { queue = sleeper 3 50 ∷ sleeper 7 70 ∷ sleeper 2 30 ∷ []; max = 150 })
unfolding add
add_between = refl

add_last :
    add 7 400 queue
    ≡ some (record { queue = sleeper 3 50 ∷ sleeper 2 100 ∷ sleeper 7 250 ∷ []; max = 400 })
unfolding add
add_last = refl

del_first : del 3 false queue ≡ some (record { queue = sleeper 2 150 ∷ []; max = 150 })
unfolding del
del_first = refl

add-Added_example : Ensures (Added 7 120 queue) (add 7 120 queue)
add-Added_example = add-Added 7 120 queue (omega arith) (omega arith)

del-Deleted_example : Ensures (Deleted 3 queue) (del 3 false queue)
del-Deleted_example = del-Deleted 3 queue (omega arith) (omega arith)

_st_vp_check_clock-Clocked_example :
    Ensures (Clocked (ulong_sub 1070 1000) 1070 busy) (_st_vp_check_clock 1070 0 busy)
_st_vp_check_clock-Clocked_example = _st_vp_check_clock-Clocked 1070 0 busy busy-Inv
