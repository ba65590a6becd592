-- ===== src/Machine/Idle.antt =====
-- A round of the idle thread.
use mathlib.Core.List.{append_assoc}
use st_nvs.Base.{
  ℕ, ◌≡◌, ◌⊎◌, inl, inr, ◌++◌, Bool, true, false, List, [], ◌==◌, ==→eq, if◌then◌else◌, arith,
  ◌>>=◌, Ensures, Ensures-mono, Ensures-bind, ◌∙◌, ap, sym, subst, ulong_sub,
}
use st_nvs.Vp.{Vp, Thread, runnable, set_state, is_running}
use st_nvs.Vp.Invariant.{Inv, IsQueued}
use st_nvs.SleepQueue.Deadlines.{deadlines}
use st_nvs.SleepQueue.Expire.{due}
use st_nvs.Sched.{_st_vp_check_clock, _st_vp_schedule}
use st_nvs.Sched.Clock.{Clocked, _st_vp_check_clock-Clocked}
use st_nvs.Sync.Signal.{Signalled, nobody}
use st_nvs.Thread.{_st_vp_idle}
use st_nvs.Thread.Completion.{AllWait, _st_vp_idle-Signalled}
use st_nvs.Machine.{idle_round}
use st_nvs.Machine.Calls.{Gone}
use st_nvs.Machine.Dispatch.{Runs, Parted, next, rest_of, Scheduled, _st_vp_schedule-Scheduled}

-- A switch after threads were added at the end of the run queue: the first of the queue runs; the
-- thread that ran before is not marked as running any more, unless it is that first one or has exited
-- for good, and no third thread begins to run.
pub record Switched (v w : Vp) : Type 0 where
  pub runs : Runs w
  pub idle : w.idle_thread ≡ v.idle_thread
  pub added : List ℕ
  pub chosen : w.this_thread ≡ next (v.run_q ++ added) v.idle_thread
  pub left : w.run_q ≡ rest_of (v.run_q ++ added)
  pub gave_up :
      (v.this_thread == w.this_thread) ≡ false
      → (is_running (w.thread v.this_thread).state ≡ false) ⊎ Gone v w
  pub others :
      (u : ℕ)
      → (u == w.this_thread) ≡ false
      → (u == v.this_thread) ≡ false
      → is_running (v.thread u).state ≡ false
      → is_running (w.thread u).state ≡ false

-- A processor that is ready for the switch.
pub record Handover (v u : Vp) : Type 0 where
  pub parted : Parted u
  pub idle : u.idle_thread ≡ v.idle_thread
  pub added : List ℕ
  pub queued : u.run_q ≡ v.run_q ++ added
  pub stops : (is_running (u.thread v.this_thread).state ≡ false) ⊎ Gone v u
  pub others :
      (x : ℕ)
      → (x == v.this_thread) ≡ false
      → is_running (v.thread x).state ≡ false
      → is_running (u.thread x).state ≡ false

pub Handover-Switched : (v u : Vp) → Handover v u → Ensures (Switched v) (_st_vp_schedule u)
Handover-Switched v u h =
    Ensures-mono (Scheduled u) (Switched v) (_st_vp_schedule u)
      (_st_vp_schedule-Scheduled u h.parted)
      (λ w s. record {
        runs = s.runs;
        idle = s.idle ∙ h.idle;
        added = h.added;
        chosen =
            s.chosen
            ∙ ap (λ q. next q u.idle_thread) h.queued
            ∙ ap (next (v.run_q ++ h.added)) h.idle;
        left = s.left ∙ ap rest_of h.queued;
        gave_up = λ ne. elim h.stops [
          | inl q ↦ inl (ap (λ (t : Thread). is_running t.state) (s.thread v.this_thread ne) ∙ q)
          | inr g ↦ inr (record {
            detached = ap (λ (t : Thread). t.term) (s.thread v.this_thread ne) ∙ g.detached;
            gave_back = λ b. s.stacks ∙ g.gave_back b;
          })
        ];
        others =
            λ x ne me q. ap (λ (t : Thread). is_running t.state) (s.thread x ne) ∙ h.others x me q;
      })

ready-IsQueued :
    (u : ℕ) (v : Vp)
    → IsQueued v v.idle_thread
    → IsQueued v u
    → IsQueued (set_state v.idle_thread runnable v) u
ready-IsQueued u v hi hu = ground (
  arith, hi.ready, hi.dead, hi.asleep, hi.waits, hi.idle, hi.idles, hu.ready, hu.dead, hu.asleep,
  hu.waits, hu.idle, hu.idles,
)

-- The idle thread may make itself runnable.
pub ready-Parted : (v : Vp) → Inv v → Parted (set_state v.idle_thread runnable v)
ready-Parted v i = record {
  inv = record {
    sound = i.sound;
    queued = λ u. ready-IsQueued u v (i.queued v.idle_thread) (i.queued u);
  };
  spare = ground arith;
}

pub completed-Signalled :
    (signalled : Bool) (completed : List ℕ) (v : Vp)
    → Inv v
    → AllWait completed v
    → Ensures
        (Signalled (if signalled then completed else []) v)
        (_st_vp_idle signalled completed v)
unfolding _st_vp_idle
completed-Signalled true completed v i a = _st_vp_idle-Signalled completed v i a
completed-Signalled false completed v i a = nobody v i

-- The rest of the round, after the completions.
clocked-Switched :
    (ts : List ℕ) (now time : ℕ) (v v1 : Vp)
    → (v.this_thread == v.idle_thread) ≡ true
    → Signalled ts v v1
    → Ensures (Switched v) (
        _st_vp_check_clock now time v1 >>= λ v2.
        _st_vp_schedule (set_state v.this_thread runnable v2))
clocked-Switched ts now time v v1 me s =
    let e = ulong_sub now v1.last_clock in
    let late = due e (deadlines 0 v1.sleep_q.queue) in
    Ensures-bind (Clocked e now v1) (Switched v) (_st_vp_check_clock now time v1)
      (λ v2. _st_vp_schedule (set_state v.this_thread runnable v2))
      (_st_vp_check_clock-Clocked now time v1 s.inv)
      (λ v2 c.
        let same : v.this_thread ≡ v2.idle_thread =
          ==→eq v.this_thread v.idle_thread me ∙ sym s.idle_thread ∙ sym c.idle_thread in
        subst (λ t. Ensures (Switched v) (_st_vp_schedule (set_state t runnable v2))) (sym same)
          (Handover-Switched v (set_state v2.idle_thread runnable v2) (record {
            parted = ready-Parted v2 c.inv;
            idle = c.idle_thread ∙ s.idle_thread;
            added = ts ++ late;
            queued = c.woken ∙ ap (λ q. q ++ late) s.woken ∙ append_assoc v.run_q ts late;
            stops = inl (ground (arith, same));
            others = λ x ne q. ground (arith, s.thread x, c.thread x, q);
          })))

-- Where the idle thread runs and the queues are consistent, and the completed threads are
-- distinct and wait, a round of the idle thread never fails an assertion: completed threads and
-- those whose time has come are added to the run queue, and the first thread of the queue runs,
-- or the idle thread again.
pub idle_round-Switched :
    (signalled : Bool) (completed : List ℕ) (now time : ℕ) (v : Vp)
    → Runs v
    → (v.this_thread == v.idle_thread) ≡ true
    → AllWait completed v
    → Ensures (Switched v) (idle_round signalled completed now time v)
unfolding idle_round
idle_round-Switched signalled completed now time v r me a =
    let ts : List ℕ = if signalled then completed else [] in
    Ensures-bind (Signalled ts v) (Switched v) (_st_vp_idle signalled completed v)
      (λ v1. _st_vp_check_clock now time v1 >>= λ v2.
        _st_vp_schedule (set_state v.this_thread runnable v2))
      (completed-Signalled signalled completed v r.inv a)
      (λ v1 s. clocked-Switched ts now time v v1 me s)
