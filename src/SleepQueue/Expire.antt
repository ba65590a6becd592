-- ===== src/SleepQueue/Expire.antt =====
-- `_st_del_sleep_q` at the head of the queue, as `_st_vp_check_clock` calls it.
use st_nvs.Base.{
  ℕ, ◌+◌, ◌-◌, ◌<◌, ◌≤◌, ◌≡◌, ◌^◌, refl, List, [], ◌∷◌, true, arith, leb, if◌then◌else◌, Ensures,
  ap, ◌∙◌, count, map, ==_refl,
}
use st_nvs.SleepQueue.{Sleeper, SleepQueue, unlink_queue, unlink_max, del_from, del}
use st_nvs.SleepQueue.Deadlines.{Deadline, deadline, deadlines, total, IsSound}

pub record Popped (rest : List Sleeper) (q : SleepQueue) : Type 0 where
  pub sound : IsSound q
  pub rests : q.queue ≡ rest

unlink-Popped :
    (s : Sleeper) (rest : List Sleeper) (max : ℕ)
    → max ≡ s.sleep + total rest
    → max < 2 ^ 32
    → Popped rest
        (record { queue = unlink_queue true s rest; max = unlink_max true true s max rest })
unfolding unlink_queue unlink_max
unlink-Popped s [] max sum fits = record {
  sound = record { max_total = refl; fits = omega arith };
  rests = refl;
}
unlink-Popped s (n ∷ rest) max sum fits = record {
  sound = record { max_total = omega arith; fits = omega arith };
  rests = refl;
}

del_from-Popped :
    (s : Sleeper) (rest l : List Sleeper) (max : ℕ)
    → l ≡ s ∷ rest
    → max ≡ s.sleep + total rest
    → max < 2 ^ 32
    → Ensures (Popped rest) (del_from s.thread true true max l)
unfolding del_from
del_from-Popped s rest l max e sum fits =
    rw (e, ==_refl s.thread) (unlink-Popped s rest max sum fits)

-- The head leaves the rest of the queue as it is.
pub del-Popped :
    (s : Sleeper) (rest : List Sleeper) (q : SleepQueue)
    → IsSound q
    → q.queue ≡ s ∷ rest
    → Ensures (Popped rest) (del s.thread true q)
unfolding del
del-Popped s rest q sound e =
    del_from-Popped s rest q.queue q.max e (sound.max_total ∙ ap total e) sound.fits

-- The threads whose deadline has come at a time, in order, and the deadlines that are left,
-- counted from that time.
unfoldable pub due : ℕ → List Deadline → List ℕ
due e [] = []
due e (d ∷ rest) = if leb d.time e then d.thread ∷ due e rest else due e rest

unfoldable pub later : ℕ → List Deadline → List Deadline
later e [] = []
later e (d ∷ rest) =
    if leb d.time e then later e rest else deadline d.thread (d.time - e) ∷ later e rest

pub due_none : (e from : ℕ) (l : List Sleeper) → e < from → due e (deadlines from l) ≡ []
unfolding due
due_none e from [] h = refl
due_none e from (s ∷ l) h = ground (arith, due_none e (from + s.sleep) l (omega arith))

pub later_shift :
    (e from from' : ℕ) (l : List Sleeper)
    → 0 < from'
    → from ≡ from' + e
    → later e (deadlines from l) ≡ deadlines from' l
unfolding later
later_shift e from from' [] h eq = refl
later_shift e from from' (s ∷ l) h eq =
    let ih = later_shift e (from + s.sleep) (from' + s.sleep) l (omega arith) (omega arith) in
    let time : from + s.sleep - e ≡ from' + s.sleep = omega arith in ground (arith, ih)

pub count-due-le :
    (e from u : ℕ) (l : List Sleeper)
    → count u (due e (deadlines from l)) ≤ count u (map (λ s. s.thread) l)
unfolding due
count-due-le e from u [] = omega arith
count-due-le e from u (s ∷ l) = ground (arith, count-due-le e (from + s.sleep) u l)
