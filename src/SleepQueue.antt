-- ===== src/SleepQueue.antt =====
-- The sleep queue of sched_win.cpp, `_ST_SLEEPQ` with `_ST_SLEEPQMAX`. Each sleeper stores the
-- time that it sleeps on after the one in front of it. The circular list is the list of its
-- members in order, and the field `sleep` of a thread, which is read only while the thread is on
-- the queue or has just left it, stands in the thread's entry. `none` is a failed `ST_ASSERT`.
pub mod Deadlines
pub mod Insert
pub mod Delete
pub mod Expire
use st_nvs.Base.{
  ℕ, ◌++◌, Bool, true, false, Option, none, some, List, [], ◌∷◌, ltb, leb, ◌==◌, if◌then◌else◌,
  ◌>>=◌, ulong_add, ulong_sub,
}

pub record Sleeper : Type 0 where
  pub thread : ℕ
  pub sleep : ℕ

pub record SleepQueue : Type 0 where
  pub queue : List Sleeper
  pub max : ℕ

abbrev pub sleeper : ℕ → ℕ → Sleeper
sleeper t d = record { thread = t; sleep = d }

abbrev pub empty : SleepQueue
empty = record { queue = []; max = 0 }

-- The scan for the sleeper to insert in front of. Past the last one the code's assertion fails.
unfoldable pub insert : ℕ → ℕ → List Sleeper → Option (List Sleeper)
insert t d [] = none
insert t d (s ∷ rest) =
    if ltb d s.sleep
    then some (sleeper t d ∷ record s { sleep = ulong_sub s.sleep d } ∷ rest)
    else (insert t (ulong_sub d s.sleep) rest >>= λ q. some (s ∷ q))

-- `_st_add_sleep_q`
unfoldable pub add : ℕ → ℕ → SleepQueue → Option SleepQueue
unfolding insert
add t timeout q =
    if leb q.max timeout
    then some
        (record { queue = q.queue ++ sleeper t (ulong_sub timeout q.max) ∷ []; max = timeout })
    else (insert t timeout q.queue >>= λ l. some (record q { queue = l }))

-- What `_st_del_sleep_q` does to the sleepers behind the removed one.
unfoldable pub unlink_queue : (expired : Bool) → Sleeper → List Sleeper → List Sleeper
unlink_queue expired s [] = []
unlink_queue true s (n ∷ rest) = n ∷ rest
unlink_queue false s (n ∷ rest) = record n { sleep = ulong_add n.sleep s.sleep } ∷ rest

-- What it does to `_ST_SLEEPQMAX`; `first` says that the head of the list is its predecessor.
unfoldable pub unlink_max : (expired first : Bool) → Sleeper → ℕ → List Sleeper → ℕ
unlink_max expired first s max [] = if first then 0 else ulong_sub max s.sleep
unlink_max true first s max (n ∷ rest) = ulong_sub max s.sleep
unlink_max false first s max (n ∷ rest) = max

unfoldable pub del_from : ℕ → (expired first : Bool) → ℕ → List Sleeper → Option SleepQueue
unfolding unlink_queue unlink_max
del_from t expired first max [] = none
del_from t expired first max (s ∷ rest) =
    if s.thread == t
    then some
        (record { queue = unlink_queue expired s rest; max = unlink_max expired first s max rest })
    else (del_from t expired false max rest >>= λ q. some (record q { queue = s ∷ q.queue }))

-- `_st_del_sleep_q`
unfoldable pub del : ℕ → (expired : Bool) → SleepQueue → Option SleepQueue
unfolding del_from
del t expired q = del_from t expired true q.max q.queue
