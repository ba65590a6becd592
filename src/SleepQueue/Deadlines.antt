-- ===== src/SleepQueue/Deadlines.antt =====
-- What a sleep queue stands for: each sleeper's deadline, counted from the last clock check.
use st_nvs.Base.{
  ℕ, ◌+◌, ◌<◌, ◌≤◌, ◌≡◌, ◌++◌, ◌^◌, ◌-◌, ap, List, [], ◌∷◌, arith, ltb, if◌then◌else◌, ulong_add,
  ulong_sub,
}
use st_nvs.SleepQueue.{Sleeper, SleepQueue}

pub record Deadline : Type 0 where
  pub thread : ℕ
  pub time : ℕ

abbrev pub deadline : ℕ → ℕ → Deadline
deadline t d = record { thread = t; time = d }

abbrev pub total : List Sleeper → ℕ
total [] = 0
total (s ∷ rest) = s.sleep + total rest

-- The sleep times are gaps: a deadline is the sum of the gaps up to it.
abbrev pub deadlines : ℕ → List Sleeper → List Deadline
deadlines from [] = []
deadlines from (s ∷ rest) = deadline s.thread (from + s.sleep) ∷ deadlines (from + s.sleep) rest

-- The maximum is the last deadline, and all of them fit an `unsigned long`.
pub record IsSound (q : SleepQueue) : Type 0 where
  pub max_total : q.max ≡ total q.queue
  pub fits : q.max < 2 ^ 32

-- A deadline goes behind the earlier ones and those of the same time.
unfoldable pub place : ℕ → ℕ → List Deadline → List Deadline
place t d [] = deadline t d ∷ []
place t d (x ∷ rest) = if ltb d x.time then deadline t d ∷ x ∷ rest else x ∷ place t d rest

pub ulong_sub_lem : (a b : ℕ) → a < 2 ^ 32 → b ≤ a → ulong_sub a b ≡ a - b
ulong_sub_lem a b h k = omega arith

pub ulong_add_lem : (a b : ℕ) → a + b < 2 ^ 32 → ulong_add a b ≡ a + b
ulong_add_lem a b h = omega arith

pub place_last :
    (t d from : ℕ) (l : List Sleeper)
    → from + total l ≤ d
    → place t d (deadlines from l) ≡ deadlines from l ++ deadline t d ∷ []
unfolding place
place_last t d from [] h = ground arith
place_last t d from (s ∷ l) h = ground (arith, place_last t d (from + s.sleep) l (omega arith))

pub total-append : (l r : List Sleeper) → total (l ++ r) ≡ total l + total r
total-append [] r = omega arith
total-append (s ∷ l) r = omega (arith, total-append l r)

pub deadlines-append :
    (from : ℕ) (l r : List Sleeper)
    → deadlines from (l ++ r) ≡ deadlines from l ++ deadlines (from + total l) r
deadlines-append from [] r = ap (λ a. deadlines a r) (omega arith)
deadlines-append from (s ∷ l) r =
    let regroup : from + s.sleep + total l ≡ from + (s.sleep + total l) = omega arith in
    ground (arith, deadlines-append (from + s.sleep) l r)
