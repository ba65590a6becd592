-- ===== src/Machine/Create.antt =====
-- What the creation of a thread leaves to the scheduler.
use st_nvs.Base.{
  ℕ, ◌+◌, ◌≡◌, ◌++◌, Bool, true, false, Option, none, some, [], ◌∷◌, ◌==◌, arith, count-append,
  refl, if_both,
}
use st_nvs.Vp.{
  Vp, Thread, returns, success, is_running, is_runnable, runnable, blank, no_flags, update,
  set_thread, add_runq,
}
use st_nvs.Vp.Invariant.{IsQueued}
use st_nvs.Sync.{st_cond_new}
use st_nvs.Thread.{Platform, start_thread, st_thread_create}
use st_nvs.Stk.{Stack, StackCache, lay_out, _st_stack_new, _st_stack_free, adjust_size}
use st_nvs.Machine.Calls.{Outcome, Calls, same-Outcome}

-- A thread object that is in no queue: it has not been used, or its thread is gone.
pub record Unused (t : ℕ) (v : Vp) : Type 0 where
  pub runs : is_running (v.thread t).state ≡ true
  pub not_me : (t == v.this_thread) ≡ false
  pub not_idle : (t == v.idle_thread) ≡ false

started-IsQueued :
    (t u : ℕ) (th : Thread) (v w : Vp)
    → IsQueued v t
    → IsQueued v u
    → Unused t v
    → w.run_q ≡ v.run_q ++ t ∷ []
    → w.zombie_q ≡ v.zombie_q
    → w.sleep_q ≡ v.sleep_q
    → w.idle_thread ≡ v.idle_thread
    → w.thread u ≡ update v.thread t th u
    → is_runnable th.state ≡ true
    → th.flags ≡ no_flags
    → IsQueued w u
started-IsQueued t u th v w ht hu x run died slept idle wth ready flags = record {
  ready =
      rw (run, wth, idle)
        (ground
          (arith, count-append u v.run_q (t ∷ []), ht.ready, hu.ready, x.runs, x.not_idle, ready));
  dead = rw (died, wth) (ground (arith, ht.dead, hu.dead, x.runs, ready));
  asleep = rw (slept, wth) (ground (arith, ht.asleep, hu.asleep, ht.waits, x.runs, flags));
  waits = rw wth (ground (arith, hu.waits, flags));
  idle = rw (wth, idle) (ground (arith, hu.idle, flags, x.not_idle));
  idles = rw wth (ground (arith, hu.idles, flags, ready));
}

started-Outcome :
    (t : ℕ) (th : Thread) (v w : Vp)
    → Calls v
    → Unused t v
    → w.run_q ≡ v.run_q ++ t ∷ []
    → w.zombie_q ≡ v.zombie_q
    → w.sleep_q ≡ v.sleep_q
    → w.idle_thread ≡ v.idle_thread
    → w.this_thread ≡ v.this_thread
    → ((u : ℕ) → w.thread u ≡ update v.thread t th u)
    → is_runnable th.state ≡ true
    → th.flags ≡ no_flags
    → Outcome v (w, returns success)
started-Outcome t th v w c x run died slept idle this wth ready flags = record {
  inv = record {
    sound = rw slept c.runs.inv.sound;
    queued = λ u.
        started-IsQueued t u th v w (c.runs.inv.queued t) (c.runs.inv.queued u) x run died slept
          idle (wth u) ready flags;
  };
  runs = λ _. ground (arith, wth v.this_thread, c.runs.runs, x.not_me);
  this_thread = this;
  idle = idle;
  spare = ground (arith, wth v.idle_thread, c.runs.spare c.away, ready);
  stops = λ e. cc;
  others = λ u ne q. ground (arith, wth u, q, ready);
  added = t ∷ [];
  queued = run;
}

-- A created thread is the last of the run queue; a failure changes only the cache of stacks.
abbrev Created : Vp → Vp × Option ℕ → Type 0
Created v r = ((t : ℕ) → r.1 ≡ some t → Unused t v) → Outcome v (r.0, returns success)

start-Outcome :
    (p : Platform) (joinable : Bool) (ts : Stack) (stacks : StackCache) (v : Vp)
    → Calls v
    → Created v (start_thread p joinable ts (record v { stacks = stacks }))
unfolding start_thread st_cond_new
start-Outcome p joinable ts stacks v c =
    let t = (lay_out p.word p.thread_size p.pad ts).thread in
    let u = record v { stacks = stacks } in
    let fresh : Thread = record blank { stack = some ts } in
    let finish : Vp × Option ℕ → Vp × Option ℕ = λ made. elim made.1 [
      | none ↦ (record u { stacks = _st_stack_free (some ts) u.stacks }, none)
      | some k ↦ (
        add_runq t
            (record (set_thread t (record fresh { term = some k; state = runnable }) made.0) {
              active_count = u.active_count + 1;
            }),
        some t,
      )
    ] in
    let plain = add_runq t (record (set_thread t (record fresh { state = runnable }) u) {
      active_count = u.active_count + 1;
    }) in
    if_both (Created v) joinable (finish (st_cond_new p.cond u)) (plain, some t)
      (λ _. elim p.cond as (λ o. Created v (finish (st_cond_new o u))) [
        | none ↦ λ h.
            same-Outcome v (record u { stacks = _st_stack_free (some ts) u.stacks })
              (returns success) refl c refl refl refl refl refl (λ x. refl) (λ x. refl) (λ x. refl)
        | some k ↦ λ h.
            started-Outcome t (record fresh { term = some k; state = runnable }) v
              (finish (st_cond_new (some k) u)).0 c (h t refl) refl refl refl refl refl (λ x. refl)
              refl refl
      ])
      (λ _ h.
        started-Outcome t (record fresh { state = runnable }) v plain c (h t refl) refl refl refl
          refl refl (λ x. refl) refl refl)

pub create-Outcome :
    (p : Platform) (joinable : Bool) (size : ℕ) (v : Vp)
    → Calls v
    → ((t : ℕ) → (st_thread_create p joinable size v).1 ≡ some t → Unused t v)
    → Outcome v ((st_thread_create p joinable size v).0, returns success)
unfolding st_thread_create
create-Outcome p joinable size v c =
    elim (_st_stack_new p.page p.object p.segment (adjust_size p.page size) v.stacks)
      as (λ o. Created v (elim o [
        | none ↦ (v, none)
        | some (ts, stacks) ↦ start_thread p joinable ts (record v { stacks = stacks })
      ])) [
        | none ↦ λ h.
            same-Outcome v v (returns success) refl c refl refl refl refl refl (λ x. refl)
              (λ x. refl) (λ x. refl)
        | some (ts, stacks) ↦ start-Outcome p joinable ts stacks v c
      ]
