-- ===== src/Sched/Clock.antt =====
-- `_st_vp_check_clock`: who is woken by the clock, and what stays on the sleep queue.
use st_nvs.Base.{
  ℕ, ◌+◌, ◌-◌, ◌<◌, ◌≤◌, ◌≡◌, ◌++◌, ◌^◌, true, false, List, [], ◌∷◌, ltb, leb, ltb→lt, ◌==◌,
  if◌then◌else◌, arith, count, Ensures, Ensures-mono, Ensures-bind, Bool-cases, inl, inr, refl, ◌∙◌,
  ap, sym, subst, ulong_sub,
}
use st_nvs.SleepQueue.{Sleeper}
use st_nvs.SleepQueue.Deadlines.{deadlines, total}
use st_nvs.SleepQueue.Expire.{due, later, due_none, later_shift, count-due-le}
use st_nvs.SleepQueue.Delete.{threads}
use mathlib.Core.List.{append-nil, append_assoc}
use st_nvs.Vp.{Vp}
use st_nvs.Vp.Invariant.{Inv, IsQueued}
use st_nvs.Sched.{expire, check_sleepers, refresh_time, _st_vp_check_clock}
use st_nvs.Sched.Fire.{timed_out, head_on, Expired, expire-Expired}

-- What the loop leaves when the queue's deadlines are counted from `from`, and the clock from 0.
record Checked (e from : ℕ) (l : List Sleeper) (v v' : Vp) : Type 0 where
  inv : Inv v'
  woken : v'.run_q ≡ v.run_q ++ due e (deadlines from l)
  left : deadlines 0 v'.sleep_q.queue ≡ later e (deadlines from l)
  thread :
      (u : ℕ)
      → v'.thread u
        ≡ (if count u (due e (deadlines from l)) == 0 then v.thread u else timed_out (v.thread u))
  clock : v'.last_clock ≡ v.last_clock
  this_thread : v'.this_thread ≡ v.this_thread
  mutex : v'.mutex ≡ v.mutex
  idle_thread : v'.idle_thread ≡ v.idle_thread

-- The head sleeps on for what is left of its gap.
abbrev cut : ℕ → Sleeper → List Sleeper → Vp → Vp
cut elapsed s rest v = record v {
  sleep_q = record {
    queue = record s { sleep = ulong_sub s.sleep elapsed } ∷ rest;
    max = ulong_sub v.sleep_q.max elapsed;
  };
}

cut-IsQueued :
    (elapsed u : ℕ) (s : Sleeper) (rest : List Sleeper) (v : Vp)
    → v.sleep_q.queue ≡ s ∷ rest
    → IsQueued v u
    → IsQueued (cut elapsed s rest v) u
cut-IsQueued elapsed u s rest v e h =
    ground
      (arith, h.ready, h.dead, h.asleep, h.waits, h.idle, h.idles, ap (λ l. count u (threads l)) e)

cut-Checked :
    (e from : ℕ) (s : Sleeper) (rest : List Sleeper) (v : Vp)
    → Inv v
    → v.sleep_q.queue ≡ s ∷ rest
    → from ≤ e
    → e - from < s.sleep
    → Checked e from (s ∷ rest) v (cut (e - from) s rest v)
unfolding due later
cut-Checked e from s rest v i q le lt =
    let sum : v.sleep_q.max ≡ s.sleep + total rest = i.sound.max_total ∙ ap total q in
    let sub : ulong_sub s.sleep (e - from) ≡ s.sleep - (e - from) = omega (arith, i.sound.fits) in
    let less : ulong_sub v.sleep_q.max (e - from) ≡ v.sleep_q.max - (e - from) =
      omega (arith, i.sound.fits) in
    let none_due = due_none e (from + s.sleep) rest (omega arith) in
    let shift =
      later_shift e (from + s.sleep) (s.sleep - (e - from)) rest (omega arith) (omega arith) in
    let gap : from + s.sleep - e ≡ s.sleep - (e - from) = omega arith in
    let front : 0 + (s.sleep - (e - from)) ≡ s.sleep - (e - from) = omega arith in
    let test : leb (from + s.sleep) e ≡ false = ground arith in
    record {
      inv = record {
        sound = record { max_total = rw (sub, less) (omega arith); fits = omega arith };
        queued = λ u. cut-IsQueued (e - from) u s rest v q (i.queued u);
      };
      woken = rw (test, none_due) (sym (append-nil v.run_q));
      left = rw (test, sub, front, shift, gap);
      thread = λ u. rw (test, none_due);
      clock = refl;
      this_thread = refl;
      mutex = refl;
      idle_thread = refl;
    }

Expired-Checked :
    (e from : ℕ) (s : Sleeper) (rest : List Sleeper) (v v' w : Vp)
    → Inv v
    → v.sleep_q.queue ≡ s ∷ rest
    → from + s.sleep ≤ e
    → Expired s rest v v'
    → Checked e (from + s.sleep) rest v' w
    → Checked e from (s ∷ rest) v w
unfolding due later
Expired-Checked e from s rest v v' w i q le x c =
    let test : leb (from + s.sleep) e ≡ true = ground arith in
    let gone = (head_on s rest v q (i.queued s.thread)).1 in
    record {
      inv = c.inv;
      woken = rw test (
          c.woken
          ∙ ap (λ r. r ++ due e (deadlines (from + s.sleep) rest)) x.queued
          ∙ append_assoc v.run_q (s.thread ∷ []) (due e (deadlines (from + s.sleep) rest)));
      left = rw test c.left;
      thread = λ u. rw test (
          ground (
            arith,
            c.thread u,
            x.thread u,
            x.thread s.thread,
            gone,
            count-due-le e (from + s.sleep) s.thread rest,
          ));
      clock = c.clock ∙ x.clock;
      this_thread = c.this_thread ∙ x.this_thread;
      mutex = c.mutex ∙ x.mutex;
      idle_thread = c.idle_thread ∙ x.idle_thread;
    }

check_sleepers-Checked :
    (e from : ℕ) (l : List Sleeper) (v : Vp)
    → Inv v
    → v.sleep_q.queue ≡ l
    → from ≤ e
    → e < 2 ^ 32
    → Ensures (Checked e from l v) (check_sleepers l (e - from) v)
unfolding check_sleepers due later
check_sleepers-Checked e from [] v i q le fits = record {
  inv = i;
  woken = sym (append-nil v.run_q);
  left = ap (deadlines 0) q;
  thread = λ u. refl;
  clock = refl;
  this_thread = refl;
  mutex = refl;
  idle_thread = refl;
}
check_sleepers-Checked e from (s ∷ rest) v i q le fits =
    elim (Bool-cases (ltb (e - from) s.sleep)) [
      | inl lt ↦
          rw ((head_on s rest v q (i.queued s.thread)).0, lt)
            (cut-Checked e from s rest v i q le (ltb→lt _ _ lt))
      | inr ge ↦
          let sub : ulong_sub (e - from) s.sleep ≡ e - (from + s.sleep) = ground arith in
          rw ((head_on s rest v q (i.queued s.thread)).0, ge, sub)
            (Ensures-bind (Expired s rest v) (Checked e from (s ∷ rest) v) (expire s.thread v)
              (check_sleepers rest (e - (from + s.sleep))) (expire-Expired s rest v i q)
              (λ v' x.
                Ensures-mono (Checked e (from + s.sleep) rest v') (Checked e from (s ∷ rest) v)
                  (check_sleepers rest (e - (from + s.sleep)) v')
                  (check_sleepers-Checked e (from + s.sleep) rest v' x.inv x.rests (ground arith)
                    fits)
                  (λ w c. Expired-Checked e from s rest v v' w i q (ground arith) x c)))
    ]

started-Inv :
    (now time : ℕ) (v : Vp) → Inv v → Inv (refresh_time now time (record v { last_clock = now }))
unfolding refresh_time
started-Inv now time v i = elim (Bool-cases (v.curr_time == 0)) [
  | inl off ↦ rw off (record { sound = i.sound; queued = λ u. ground (arith, i.queued u) })
  | inr on ↦ elim (Bool-cases (ltb 999000 (ulong_sub now v.last_tset))) [
    | inl old ↦ rw (on, old) (record { sound = i.sound; queued = λ u. ground (arith, i.queued u) })
    | inr fresh ↦
        rw (on, fresh) (record { sound = i.sound; queued = λ u. ground (arith, i.queued u) })
  ]
]

started_rest :
    (now time : ℕ) (v : Vp)
    → let w = refresh_time now time (record v { last_clock = now }) in
      (w.run_q ≡ v.run_q)
      × (w.thread ≡ v.thread)
      × (w.sleep_q ≡ v.sleep_q)
      × (w.last_clock ≡ now)
      × (w.this_thread ≡ v.this_thread)
      × (w.idle_thread ≡ v.idle_thread)
unfolding refresh_time
started_rest now time v = ground arith

started_mutex :
    (now time : ℕ) (v : Vp)
    → (refresh_time now time (record v { last_clock = now })).mutex ≡ v.mutex
unfolding refresh_time
started_mutex now time v = ground arith

-- What a clock check does when `elapsed` has passed since the last one.
pub record Clocked (elapsed now : ℕ) (v v' : Vp) : Type 0 where
  pub inv : Inv v'
  pub woken : v'.run_q ≡ v.run_q ++ due elapsed (deadlines 0 v.sleep_q.queue)
  pub left : deadlines 0 v'.sleep_q.queue ≡ later elapsed (deadlines 0 v.sleep_q.queue)
  pub thread :
      (u : ℕ)
      → v'.thread u ≡ (
          if count u (due elapsed (deadlines 0 v.sleep_q.queue)) == 0
          then v.thread u
          else timed_out (v.thread u))
  pub clock : v'.last_clock ≡ now
  pub this_thread : v'.this_thread ≡ v.this_thread
  pub mutex : v'.mutex ≡ v.mutex
  pub idle_thread : v'.idle_thread ≡ v.idle_thread

-- The clock check never fails an assertion. It wakes exactly the sleepers whose deadline has come,
-- in the order of the deadlines, marks those that waited on a condition variable as timed out,
-- leaves every other thread alone, and counts the other deadlines from now on. The time that has
-- passed is computed modulo 2 ^ 32.
pub _st_vp_check_clock-Clocked :
    (now time : ℕ) (v : Vp)
    → Inv v
    → Ensures (Clocked (ulong_sub now v.last_clock) now v) (_st_vp_check_clock now time v)
unfolding _st_vp_check_clock
_st_vp_check_clock-Clocked now time v i =
    let e = ulong_sub now v.last_clock in
    let w = refresh_time now time (record v { last_clock = now }) in
    let (ran, th, slept, clocked, same_this, same_idle) = started_rest now time v in
    let zero_off : e - 0 ≡ e = omega arith in
    Ensures-mono (Checked e 0 v.sleep_q.queue w) (Clocked e now v)
      (check_sleepers v.sleep_q.queue e w)
      (subst (λ n. Ensures (Checked e 0 v.sleep_q.queue w) (check_sleepers v.sleep_q.queue n w))
        zero_off
        (check_sleepers-Checked e 0 v.sleep_q.queue w (started-Inv now time v i)
          (ap (λ q. q.queue) slept) (omega arith) (omega arith)))
      (λ v' c. record {
        inv = c.inv;
        woken = c.woken ∙ ap (λ r. r ++ due e (deadlines 0 v.sleep_q.queue)) ran;
        left = c.left;
        thread = λ u.
            c.thread u
            ∙ ap
                (λ f.
                  if count u (due e (deadlines 0 v.sleep_q.queue)) == 0
                  then f u
                  else timed_out (f u))
                th;
        clock = c.clock ∙ clocked;
        this_thread = c.this_thread ∙ same_this;
        mutex = c.mutex ∙ started_mutex now time v;
        idle_thread = c.idle_thread ∙ same_idle;
      })
