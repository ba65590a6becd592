-- ===== src/Machine/Calls.antt =====
-- What each call leaves to the scheduler.
use mathlib.Core.List.{append-nil}
use st_nvs.Base.{
  ℕ, ◌<◌, ◌≤◌, ◌^◌, ◌≡◌, ◌++◌, ◌⊎◌, inl, inr, Bool, true, false, none, some, List, [], ◌∷◌, ◌==◌,
  if◌then◌else◌, arith, ◌>>=◌, count, Ensures, Ensures-mono, Ensures-bind, refl, ◌∙◌, ap, sym,
  subst, if_both,
}
use st_nvs.Vp.{
  Vp, Thread, Progress, returns, switches, Ret, success, failure, ThreadState, is_running,
  is_runnable, is_wait, sleeping, cond_wait, io_wait, set_state, update, add_sleepq,
}
use st_nvs.Vp.Invariant.{may_sleep, Inv, PutOn, add_sleepq-PutOn}
use st_nvs.Vp.Moves.{Inv-same, park-Inv, runs_awake}
use st_nvs.Sync.{
  interrupted, consume, st_usleep, st_cond_timedwait, no_timeout, st_cond_signal, st_cond_broadcast,
}
use st_nvs.Sync.Signal.{
  Signalled, waiting, oldest, st_cond_signal-Signalled, st_cond_broadcast-Signalled,
}
use st_nvs.Thread.{_st_wait}
use st_nvs.Thread.Lifecycle.{not_waiting, count-oldest}
use st_nvs.Stk.{_st_stack_free}
use st_nvs.Machine.Dispatch.{Runs}

abbrev pub is_switch : Progress → Bool
is_switch (returns r) = false
is_switch switches = true

-- The caller has exited and never runs again: it has no termination condition, and its stack is given
-- back, unless it is the primordial thread.
pub record Gone (v w : Vp) : Type 0 where
  pub detached : (w.thread v.this_thread).term ≡ none
  pub gave_back :
      (v.thread v.this_thread).flags.primordial ≡ false
      → w.stacks ≡ _st_stack_free (v.thread v.this_thread).stack v.stacks

-- A thread that is not the idle thread has made a call: the queues are consistent; it still runs if
-- the call has returned, and is not marked as running otherwise, unless it has exited for good; no
-- other thread begins to run; the idle thread can run; and threads were only added at the end of
-- the run queue.
pub record Outcome (v : Vp) (r : Vp × Progress) : Type 0 where
  pub inv : Inv (r.0)
  pub runs : is_switch r.1 ≡ false → is_running ((r.0).thread v.this_thread).state ≡ true
  pub this_thread : (r.0).this_thread ≡ v.this_thread
  pub idle : (r.0).idle_thread ≡ v.idle_thread
  pub spare : is_runnable ((r.0).thread v.idle_thread).state ≡ true
  pub stops :
      is_switch r.1 ≡ true → (is_running ((r.0).thread v.this_thread).state ≡ false) ⊎ Gone v (r.0)
  pub others :
      (u : ℕ)
      → (u == v.this_thread) ≡ false
      → is_running (v.thread u).state ≡ false
      → is_running ((r.0).thread u).state ≡ false
  pub added : List ℕ
  pub queued : (r.0).run_q ≡ v.run_q ++ added

-- The caller: it runs, and is not the idle thread.
pub record Calls (v : Vp) : Type 0 where
  pub runs : Runs v
  pub away : (v.this_thread == v.idle_thread) ≡ false

-- A call that changes no state of a thread and no queue of threads, and returns.
pub same-Outcome :
    (v w : Vp) (p : Progress)
    → is_switch p ≡ false
    → Calls v
    → w.run_q ≡ v.run_q
    → w.zombie_q ≡ v.zombie_q
    → w.sleep_q ≡ v.sleep_q
    → w.idle_thread ≡ v.idle_thread
    → w.this_thread ≡ v.this_thread
    → ((u : ℕ) → (w.thread u).state ≡ (v.thread u).state)
    → ((u : ℕ) → (w.thread u).flags.on_sleepq ≡ (v.thread u).flags.on_sleepq)
    → ((u : ℕ) → (w.thread u).flags.idle ≡ (v.thread u).flags.idle)
    → Outcome v (w, p)
same-Outcome v w p stays c run dead slept idle this st on id = record {
  inv = Inv-same v w c.runs.inv run dead slept idle st on id;
  runs = λ _. ap is_running (st v.this_thread) ∙ c.runs.runs;
  this_thread = this;
  idle = idle;
  spare = ap is_runnable (st v.idle_thread) ∙ c.runs.spare c.away;
  stops = λ e. cc;
  others = λ u ne q. ap is_running (st u) ∙ q;
  added = [];
  queued = run ∙ sym (append-nil v.run_q);
}

pub consume-Outcome : (v : Vp) (r : Ret) → Calls v → Outcome v (consume v.this_thread v, returns r)
consume-Outcome v r c =
    same-Outcome v (consume v.this_thread v) (returns r) refl c refl refl refl refl refl
      (λ u. ground arith) (λ u. ground arith) (λ u. ground arith)

-- The caller begins to wait.
pub park-Outcome :
    (s : ThreadState) (v : Vp)
    → Calls v
    → is_wait s ≡ true
    → Outcome v (set_state v.this_thread s v, switches)
park-Outcome s v c w = record {
  inv = park-Inv v.this_thread s v c.runs.inv c.runs.runs c.away w;
  runs = λ e. cc;
  this_thread = refl;
  idle = refl;
  spare = ground (arith, c.runs.spare c.away, c.away);
  stops = λ e. inl (ground arith);
  others = λ u ne q. ground (arith, ne, q);
  added = [];
  queued = sym (append-nil v.run_q);
}

-- Threads other than the caller are made runnable.
pub signalled-Outcome :
    (ts : List ℕ) (v w : Vp)
    → Calls v
    → count v.this_thread ts ≡ 0
    → Signalled ts v w
    → Outcome v (w, returns success)
signalled-Outcome ts v w c none_me s = record {
  inv = s.inv;
  runs = λ _. ground (arith, s.thread v.this_thread, c.runs.runs);
  this_thread = s.this_thread;
  idle = s.idle_thread;
  spare = ground (arith, s.thread v.idle_thread, c.runs.spare c.away);
  stops = λ e. cc;
  others = λ u ne q. ground (arith, s.thread u, q);
  added = ts;
  queued = s.woken;
}

pub me_not_waiting : (q : List ℕ) (v : Vp) → Calls v → count v.this_thread (waiting q v) ≡ 0
me_not_waiting q v c = not_waiting v.this_thread q v (ground (arith, c.runs.runs))

pub signal-Outcome :
    (k : ℕ) (q : List ℕ) (v : Vp)
    → Calls v
    → v.cond k ≡ some q
    → Ensures (λ w. Outcome v (w, returns success)) (st_cond_signal k v)
signal-Outcome k q v c e =
    Ensures-mono (Signalled (oldest (waiting q v)) v) (λ w. Outcome v (w, returns success))
      (st_cond_signal k v) (st_cond_signal-Signalled k q v c.runs.inv e)
      (λ w s.
        signalled-Outcome (oldest (waiting q v)) v w c
          (count-oldest v.this_thread (waiting q v) (me_not_waiting q v c)) s)

pub broadcast-Outcome :
    (k : ℕ) (q : List ℕ) (v : Vp)
    → Calls v
    → v.cond k ≡ some q
    → ((u : ℕ) → count u q ≤ 1)
    → Ensures (λ w. Outcome v (w, returns success)) (st_cond_broadcast k v)
broadcast-Outcome k q v c e once =
    Ensures-mono (Signalled (waiting q v) v) (λ w. Outcome v (w, returns success))
      (st_cond_broadcast k v) (st_cond_broadcast-Signalled k q v c.runs.inv e once)
      (λ w s. signalled-Outcome (waiting q v) v w c (me_not_waiting q v c) s)

pub wait-Outcome : (v : Vp) → Calls v → Outcome v (_st_wait v)
unfolding _st_wait
wait-Outcome v c =
    if_both (Outcome v) (interrupted v.this_thread v) (consume v.this_thread v, returns failure)
      (set_state v.this_thread io_wait v, switches) (λ _. consume-Outcome v failure c)
      (λ _. park-Outcome io_wait v c refl)

-- The caller waits, and goes on the sleep queue.
PutOn-Outcome :
    (timeout : ℕ) (v u w : Vp)
    → Outcome v (u, switches)
    → PutOn v.this_thread timeout u w
    → Outcome v (w, switches)
PutOn-Outcome timeout v u w o p = record {
  inv = p.inv;
  runs = λ e. cc;
  this_thread = ap (λ x. x.this_thread) p.same ∙ o.this_thread;
  idle = ap (λ x. x.idle_thread) p.same ∙ o.idle;
  spare = ground (arith, ap (λ x. x.thread v.idle_thread) p.same, o.spare);
  stops = λ e. elim (o.stops refl) [
    | inl q ↦ inl (ground (arith, ap (λ x. x.thread v.this_thread) p.same, q))
    | inr g ↦ inr (record {
      detached = ground (arith, ap (λ x. x.thread v.this_thread) p.same, g.detached);
      gave_back = λ h. ap (λ x. x.stacks) p.same ∙ g.gave_back h;
    })
  ];
  others = λ u ne q. ground (arith, ap (λ x. x.thread u) p.same, o.others u ne q);
  added = o.added;
  queued = ap (λ x. x.run_q) p.same ∙ o.queued;
}

sleeping-Outcome :
    (s : ThreadState) (timeout : ℕ) (v u : Vp)
    → Outcome v (u, switches)
    → u.thread v.this_thread ≡ record (v.thread v.this_thread) { state = s }
    → Calls v
    → may_sleep s ≡ true
    → timeout < 2 ^ 32
    → Ensures (Outcome v) (add_sleepq v.this_thread timeout u >>= λ w. some (w, switches))
sleeping-Outcome s timeout v u o th c may fits =
    let off : (u.thread v.this_thread).flags.on_sleepq ≡ false =
      ap (λ (x : Thread). x.flags.on_sleepq) th
      ∙ runs_awake v.this_thread v c.runs.inv c.runs.runs in
    Ensures-bind (PutOn v.this_thread timeout u) (Outcome v) (add_sleepq v.this_thread timeout u)
      (λ w. some (w, switches))
      (add_sleepq-PutOn v.this_thread timeout u o.inv off
        (ap (λ (x : Thread). may_sleep x.state) th ∙ may) fits)
      (λ w p. PutOn-Outcome timeout v u w o p)

pub usleep-Outcome :
    (usecs : ℕ) (v : Vp) → Calls v → usecs < 2 ^ 32 → Ensures (Outcome v) (st_usleep usecs v)
unfolding st_usleep
usleep-Outcome usecs v c fits =
    if_both (Ensures (Outcome v)) (interrupted v.this_thread v)
      (some (consume v.this_thread v, returns failure))
      (add_sleepq v.this_thread usecs (set_state v.this_thread sleeping v) >>= λ w.
        some (w, switches))
      (λ _. consume-Outcome v failure c)
      (λ _.
        sleeping-Outcome sleeping usecs v (set_state v.this_thread sleeping v)
          (park-Outcome sleeping v c refl) (ground arith) c refl fits)

-- The caller on the wait queue of a condition variable.
abbrev waits_for : ℕ → List ℕ → Vp → Vp
waits_for k q v = record (set_state v.this_thread cond_wait v) {
  cond = update v.cond k (some (q ++ v.this_thread ∷ []));
}

waits_for-Outcome : (k : ℕ) (q : List ℕ) (v : Vp) → Calls v → Outcome v (waits_for k q v, switches)
waits_for-Outcome k q v c =
    let o = park-Outcome cond_wait v c refl in
    record {
      inv =
          Inv-same (set_state v.this_thread cond_wait v) (waits_for k q v) o.inv refl refl refl refl
            (λ u. refl) (λ u. refl) (λ u. refl);
      runs = λ e. cc;
      this_thread = refl;
      idle = refl;
      spare = o.spare;
      stops = λ e. inl (ground arith);
      others = o.others;
      added = o.added;
      queued = o.queued;
    }

pub timedwait-Outcome :
    (k timeout : ℕ) (q : List ℕ) (v : Vp)
    → Calls v
    → v.cond k ≡ some q
    → timeout < 2 ^ 32
    → Ensures (Outcome v) (st_cond_timedwait k timeout v)
unfolding st_cond_timedwait
timedwait-Outcome k timeout q v c e fits =
    if_both (Ensures (Outcome v)) (interrupted v.this_thread v)
      (some (consume v.this_thread v, returns failure))
      (v.cond k >>= λ l.
        (if timeout == no_timeout
          then some (waits_for k l v)
          else add_sleepq v.this_thread timeout (waits_for k l v))
        >>= λ w. some (w, switches))
      (λ _. consume-Outcome v failure c)
      (λ _.
        subst
          (λ m. Ensures (Outcome v) (
            m >>= λ l.
            (if timeout == no_timeout
              then some (waits_for k l v)
              else add_sleepq v.this_thread timeout (waits_for k l v))
            >>= λ w. some (w, switches)))
          (sym e)
          (if_both (λ m. Ensures (Outcome v) (m >>= λ w. some (w, switches)))
            (timeout == no_timeout) (some (waits_for k q v))
            (add_sleepq v.this_thread timeout (waits_for k q v)) (λ _. waits_for-Outcome k q v c)
            (λ _.
              sleeping-Outcome cond_wait timeout v (waits_for k q v) (waits_for-Outcome k q v c)
                (ground arith) c refl fits)))
