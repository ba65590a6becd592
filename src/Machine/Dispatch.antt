-- ===== src/Machine/Dispatch.antt =====
-- `_st_vp_schedule`: who runs next.
use st_nvs.Base.{
  ℕ, ◌<◌, ◌≡◌, true, false, some, List, [], ◌∷◌, ◌==◌, arith, count, count-unlink, unlink, Ensures,
  inl, inr, refl, ◌∙◌, ap, sym, ==_refl, subst, List-cases,
}
use st_nvs.Vp.{Vp, is_running, is_runnable, running, set_state, del_runq}
use st_nvs.Vp.Invariant.{Inv, IsQueued}
use st_nvs.Sched.{_st_vp_schedule, schedule_from, dispatch}

-- The caller of a blocking call has given up the processor: the queues are consistent, and the idle
-- thread can run.
pub record Parted (v : Vp) : Type 0 where
  pub inv : Inv v
  pub spare : is_runnable (v.thread v.idle_thread).state ≡ true

-- The current thread runs, and the idle thread can, if it does not.
pub record Runs (v : Vp) : Type 0 where
  pub inv : Inv v
  pub runs : is_running (v.thread v.this_thread).state ≡ true
  pub spare :
      (v.this_thread == v.idle_thread) ≡ false → is_runnable (v.thread v.idle_thread).state ≡ true

abbrev pub next : List ℕ → ℕ → ℕ
next [] idle = idle
next (t ∷ rest) idle = t

abbrev pub rest_of : List ℕ → List ℕ
rest_of [] = []
rest_of (t ∷ rest) = rest

-- What a switch leaves: the thread that was first on the run queue runs, or else the idle thread, and
-- the others wait on in their order.
pub record Scheduled (v w : Vp) : Type 0 where
  pub runs : Runs w
  pub chosen : w.this_thread ≡ next v.run_q v.idle_thread
  pub left : w.run_q ≡ rest_of v.run_q
  pub idle : w.idle_thread ≡ v.idle_thread
  pub stacks : w.stacks ≡ v.stacks
  pub mutex : w.mutex ≡ v.mutex
  pub flags : (u : ℕ) → (w.thread u).flags ≡ (v.thread u).flags
  pub thread : (u : ℕ) → (u == w.this_thread) ≡ false → w.thread u ≡ v.thread u

run_idle-IsQueued :
    (u : ℕ) (v : Vp)
    → IsQueued v v.idle_thread
    → IsQueued v u
    → v.run_q ≡ []
    → is_runnable (v.thread v.idle_thread).state ≡ true
    → IsQueued (record (set_state v.idle_thread running v) { this_thread = v.idle_thread }) u
run_idle-IsQueued u v hi hu e ready = ground (
  arith, e, hi.ready, hi.dead, hi.asleep, hi.waits, hi.idle, hi.idles, hu.ready, hu.dead, hu.asleep,
  hu.waits, hu.idle, hu.idles,
)

run_first-IsQueued :
    (t u : ℕ) (v : Vp)
    → IsQueued v t
    → IsQueued v u
    → 0 < count t v.run_q
    → IsQueued (record (set_state t running (del_runq t v)) { this_thread = t }) u
run_first-IsQueued t u v ht hu on = ground (
  arith,
  count-unlink t u v.run_q,
  ht.ready,
  ht.dead,
  ht.asleep,
  ht.waits,
  ht.idle,
  ht.idles,
  hu.ready,
  hu.dead,
  hu.asleep,
  hu.waits,
  hu.idle,
  hu.idles,
)

idle_next :
    (v : Vp)
    → v.run_q ≡ []
    → is_runnable (v.thread v.idle_thread).state ≡ true
    → _st_vp_schedule v
      ≡ some (record (set_state v.idle_thread running v) { this_thread = v.idle_thread })
unfolding _st_vp_schedule schedule_from dispatch
idle_next v e ready = ap (λ q. schedule_from q v) e ∙ rw ready

first_next :
    (t : ℕ) (q : List ℕ) (v : Vp)
    → v.run_q ≡ t ∷ q
    → is_runnable (v.thread t).state ≡ true
    → _st_vp_schedule v ≡ some (record (set_state t running (del_runq t v)) { this_thread = t })
unfolding _st_vp_schedule schedule_from dispatch
first_next t q v e ready = ap (λ l. schedule_from l v) e ∙ rw ready

schedule_idle :
    (v : Vp)
    → Parted v
    → v.run_q ≡ []
    → Scheduled v (record (set_state v.idle_thread running v) { this_thread = v.idle_thread })
schedule_idle v p e = record {
  runs = record {
    inv = record {
      sound = p.inv.sound;
      queued = λ u. run_idle-IsQueued u v (p.inv.queued v.idle_thread) (p.inv.queued u) e p.spare;
    };
    runs = ground arith;
    spare = ground arith;
  };
  chosen = ap (λ q. next q v.idle_thread) (sym e);
  left = e ∙ ap rest_of (sym e);
  idle = refl;
  stacks = refl;
  mutex = refl;
  flags = λ u. ground arith;
  thread = λ u ne. rw ne refl;
}

schedule_first :
    (t : ℕ) (q : List ℕ) (v : Vp)
    → Parted v
    → v.run_q ≡ t ∷ q
    → 0 < count t v.run_q
    → (t == v.idle_thread) ≡ false
    → Scheduled v (record (set_state t running (del_runq t v)) { this_thread = t })
schedule_first t q v p e on busy = record {
  runs = record {
    inv = record {
      sound = p.inv.sound;
      queued = λ u. run_first-IsQueued t u v (p.inv.queued t) (p.inv.queued u) on;
    };
    runs = ground arith;
    spare = λ away. ground (arith, p.spare);
  };
  chosen = ap (λ l. next l v.idle_thread) (sym e);
  left = ap (unlink t) e ∙ rw (==_refl t) (ap rest_of (sym e));
  idle = refl;
  stacks = refl;
  mutex = refl;
  flags = λ u. ground arith;
  thread = λ u ne. rw ne refl;
}

-- Where the queues are consistent and the idle thread can run, a switch never fails an assertion:
-- the first thread of the run queue runs, or the idle thread if there is none, and the queues
-- stay consistent.
pub _st_vp_schedule-Scheduled : (v : Vp) → Parted v → Ensures (Scheduled v) (_st_vp_schedule v)
_st_vp_schedule-Scheduled v p = elim (List-cases v.run_q) [
  | inl e ↦ subst (Ensures (Scheduled v)) (sym (idle_next v e p.spare)) (schedule_idle v p e)
  | inr (t, q, e) ↦
      let on : 0 < count t v.run_q = ground (arith, ap (count t) e) in
      let ready : is_runnable (v.thread t).state ≡ true =
        ground (arith, on, (p.inv.queued t).ready) in
      let busy : (t == v.idle_thread) ≡ false = ground (arith, on, (p.inv.queued t).ready) in
      subst (Ensures (Scheduled v)) (sym (first_next t q v e ready))
        (schedule_first t q v p e on busy)
]
