-- ===== src/SleepQueue/Insert.antt =====
-- `_st_add_sleep_q` keeps the order of the deadlines, and its assertions hold.
use st_nvs.Base.{
  ℕ, ◌+◌, ◌<◌, ◌≤◌, ◌≡◌, ◌++◌, ◌^◌, ◌-◌, Bool-cases, inl, inr, List, [], ◌∷◌, some, arith, ltb, leb,
  Ensures, ulong_sub, ltb→le, Ensures-bind, sym, ap, ◌∙◌,
}
use st_nvs.SleepQueue.{Sleeper, SleepQueue, sleeper, insert, add}
use st_nvs.SleepQueue.Deadlines.{
  deadlines, total, place, place_last, IsSound, total-append, deadlines-append,
}

-- The list that the scan leaves, with the deadlines counted from `from`.
record Inserted (t d from : ℕ) (l l' : List Sleeper) : Type 0 where
  same_total : total l' ≡ total l
  placed : deadlines from l' ≡ place t (from + d) (deadlines from l)

Inserted-cons :
    (t d from : ℕ) (s : Sleeper) (l l' : List Sleeper)
    → s.sleep ≤ d
    → Inserted t (d - s.sleep) (from + s.sleep) l l'
    → Inserted t d from (s ∷ l) (s ∷ l')
unfolding place
Inserted-cons t d from s l l' le i =
    let time : from + s.sleep + (d - s.sleep) ≡ from + d = omega arith in
    record { same_total = omega arith; placed = ground (arith, i.placed) }

-- The scan meets a later sleeper, and splits its gap.
insert-Inserted :
    (t d from : ℕ) (l : List Sleeper)
    → d < total l
    → total l < 2 ^ 32
    → Ensures (Inserted t d from l) (insert t d l)
unfolding insert place
insert-Inserted t d from [] h fits = elim h [ ]
insert-Inserted t d from (s ∷ rest) h fits = elim (Bool-cases (ltb d s.sleep)) [
  | inl lt ↦ rw lt (record { same_total = ground arith; placed = ground arith })
  | inr ge ↦
      let le : s.sleep ≤ d = ltb→le d s.sleep ge in
      let sub : ulong_sub d s.sleep ≡ d - s.sleep = omega arith in
      rw (ge, sub)
        (Ensures-bind (Inserted t (d - s.sleep) (from + s.sleep) rest)
          (Inserted t d from (s ∷ rest)) (insert t (d - s.sleep) rest) (λ l. some (s ∷ l))
          (insert-Inserted t (d - s.sleep) (from + s.sleep) rest (omega arith) (omega arith))
          (λ l'. Inserted-cons t d from s rest l' le))
]

-- What adding a sleeper means for the deadlines.
pub record Added (t timeout : ℕ) (q q' : SleepQueue) : Type 0 where
  pub sound : IsSound q'
  pub placed : deadlines 0 q'.queue ≡ place t timeout (deadlines 0 q.queue)

append-Added :
    (t timeout : ℕ) (q : SleepQueue)
    → IsSound q
    → timeout < 2 ^ 32
    → q.max ≤ timeout
    → Added t timeout q
        (record { queue = q.queue ++ sleeper t (ulong_sub timeout q.max) ∷ []; max = timeout })
append-Added t timeout q sound fits le =
    let sub : ulong_sub timeout q.max ≡ timeout - q.max = omega arith in
    let back : 0 + total q.queue + (timeout - q.max) ≡ timeout = omega (arith, sound.max_total) in
    record {
      sound = record {
        max_total =
            rw (total-append q.queue (sleeper t (ulong_sub timeout q.max) ∷ [])) (omega arith);
        fits = fits;
      };
      placed = rw (
        deadlines-append 0 q.queue (sleeper t (ulong_sub timeout q.max) ∷ []),
        sub,
        back,
        place_last t timeout 0 q.queue (omega (arith, sound.max_total)),
      );
    }

-- Every timeout that fits an `unsigned long` can be added to a sound queue: no assertion fails, the
-- queue stays sound, and the new deadline takes its place in the order, behind those of its time.
pub add-Added :
    (t timeout : ℕ) (q : SleepQueue)
    → IsSound q
    → timeout < 2 ^ 32
    → Ensures (Added t timeout q) (add t timeout q)
unfolding add
add-Added t timeout q sound fits = elim (Bool-cases (leb q.max timeout)) [
  | inl longest ↦ rw longest (append-Added t timeout q sound fits (ground arith))
  | inr sooner ↦ rw sooner (
      Ensures-bind (Inserted t timeout 0 q.queue) (Added t timeout q) (insert t timeout q.queue)
        (λ l. some (record q { queue = l }))
        (insert-Inserted t timeout 0 q.queue (ground arith)
          (omega (arith, sound.max_total, sound.fits)))
        (λ l' i. record {
          sound = record { max_total = sound.max_total ∙ sym i.same_total; fits = sound.fits };
          placed = i.placed ∙ ap (λ d. place t d (deadlines 0 q.queue)) (omega arith);
        }))
]
