-- ===== src/SleepQueue/Delete.antt =====
-- `_st_del_sleep_q`: what a removal does to the deadlines of the other sleepers.
use st_nvs.Base.{
  ℕ, ◌+◌, ◌<◌, ◌≤◌, ◌≡◌, ◌^◌, Bool-cases, inl, inr, refl, List, [], ◌∷◌, Bool, true, false, some,
  arith, ◌==◌, if◌then◌else◌, Ensures, Ensures-bind, ulong_add, Ensures-mono, count, map,
}
use st_nvs.SleepQueue.{Sleeper, SleepQueue, unlink_queue, unlink_max, del_from, del}
use st_nvs.SleepQueue.Deadlines.{Deadline, deadlines, total, IsSound}

-- The deadlines without the first of a thread.
unfoldable pub without : ℕ → List Deadline → List Deadline
without t [] = []
without t (x ∷ rest) = if x.thread == t then rest else x ∷ without t rest

abbrev pub threads : List Sleeper → List ℕ
threads = map (λ s. s.thread)

record Unlinked (t from before : ℕ) (l : List Sleeper) (q : SleepQueue) : Type 0 where
  max_total : q.max ≡ before + total q.queue
  le_before : q.max ≤ before + total l
  kept : deadlines from q.queue ≡ without t (deadlines from l)

unlink-Unlinked :
    (t from before max : ℕ) (first : Bool) (s : Sleeper) (rest : List Sleeper)
    → (s.thread == t) ≡ true
    → (first ≡ true → before ≡ 0)
    → max ≡ before + (s.sleep + total rest)
    → max < 2 ^ 32
    → Unlinked t from before
        (s ∷ rest)
        (record { queue = unlink_queue false s rest; max = unlink_max false first s max rest })
unfolding unlink_queue unlink_max without
unlink-Unlinked t from before max true s [] here start sum fits = record {
  max_total = omega (arith, start refl);
  le_before = omega arith;
  kept = ground arith;
}
unlink-Unlinked t from before max false s [] here start sum fits = record {
  max_total = omega arith;
  le_before = omega arith;
  kept = ground arith;
}
unlink-Unlinked t from before max first s (n ∷ rest) here start sum fits =
    let add : ulong_add n.sleep s.sleep ≡ n.sleep + s.sleep = omega arith in
    let time : from + (n.sleep + s.sleep) ≡ from + s.sleep + n.sleep = omega arith in
    record {
      max_total = rw add (omega arith);
      le_before = omega arith;
      kept = rw (add, time) (ground arith);
    }

del_from-Unlinked :
    (t from before max : ℕ) (first : Bool) (l : List Sleeper)
    → 0 < count t (threads l)
    → (first ≡ true → before ≡ 0)
    → max ≡ before + total l
    → max < 2 ^ 32
    → Ensures (Unlinked t from before l) (del_from t false first max l)
unfolding del_from without
del_from-Unlinked t from before max first [] on start sum fits = elim on [ ]
del_from-Unlinked t from before max first (s ∷ rest) on start sum fits =
    elim (Bool-cases (s.thread == t)) [
      | inl here ↦ rw here (unlink-Unlinked t from before max first s rest here start sum fits)
      | inr other ↦ rw other (
          Ensures-bind (Unlinked t (from + s.sleep) (before + s.sleep) rest)
            (Unlinked t from before (s ∷ rest)) (del_from t false false max rest)
            (λ q. some (record q { queue = s ∷ q.queue }))
            (del_from-Unlinked t (from + s.sleep) (before + s.sleep) max false rest (ground arith)
              (λ e. cc) (omega arith) fits)
            (λ q u. record {
              max_total = omega (arith, u.max_total);
              le_before = omega (arith, u.le_before);
              kept = ground (arith, u.kept);
            }))
    ]

-- What a removal means for the deadlines.
pub record Deleted (t : ℕ) (q q' : SleepQueue) : Type 0 where
  pub sound : IsSound q'
  pub kept : deadlines 0 q'.queue ≡ without t (deadlines 0 q.queue)

-- A sleeper that is woken early leaves a sound queue with no assertion failing, and every other
-- sleeper keeps its deadline and its place.
pub del-Deleted :
    (t : ℕ) (q : SleepQueue)
    → IsSound q
    → 0 < count t (threads q.queue)
    → Ensures (Deleted t q) (del t false q)
unfolding del
del-Deleted t q sound on =
    Ensures-mono (Unlinked t 0 0 q.queue) (Deleted t q) (del_from t false true q.max q.queue)
      (del_from-Unlinked t 0 0 q.max true q.queue on (λ _. refl) (omega (arith, sound.max_total))
        sound.fits)
      (λ q' u. record {
        sound = record {
          max_total = omega (arith, u.max_total);
          fits = omega (arith, u.le_before, sound.max_total, sound.fits);
        };
        kept = u.kept;
      })
