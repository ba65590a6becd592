-- ===== src/Machine/Life.antt =====
-- What creation, exit and join leave to the scheduler.
use st_nvs.Base.{
  ℕ, ◌≡◌, inl, inr, true, false, Option, none, some, List, [], ◌∷◌, ◌==◌, arith, ◌>>=◌, Ensures,
  Ensures-mono, Ensures-bind, refl, ◌∙◌, ap, sym, subst, if_both,
}
use st_nvs.Vp.{
  Vp, Flags, Progress, Ret, returns, switches, success, failure, is_runnable, is_zombie, runnable,
  set_state, add_runq, del_zombieq, set_errno, einval, edeadlk,
}
use st_nvs.Vp.Moves.{Inv-same}
use st_nvs.Sync.{st_cond_signal, st_cond_timedwait, no_timeout}
use st_nvs.Sync.Signal.{Signalled, waiting, oldest, st_cond_signal-Signalled}
use st_nvs.Thread.{
  st_thread_exit, st_thread_join, join_loop, Joining, joined, join_fails, waits, leave,
}
use st_nvs.Thread.Lifecycle.{dead, cleaned, dead-Inv, reap-Inv}
use st_nvs.Stk.{_st_stack_free}
use st_nvs.Machine.Calls.{is_switch, Outcome, Calls, same-Outcome, timedwait-Outcome}

-- The caller is a zombie, and the thread that waits to join it is runnable.
pub joinable_exit-Outcome :
    (retval k : ℕ) (q : List ℕ) (v : Vp)
    → Calls v
    → (v.thread v.this_thread).term ≡ some k
    → v.cond k ≡ some q
    → Ensures (λ w. Outcome v (w, switches)) (st_thread_exit retval v)
unfolding st_thread_exit
joinable_exit-Outcome retval k q v c joinable e =
    let d = dead retval v in
    let spare : is_runnable (d.thread v.idle_thread).state ≡ true =
      ground (arith, c.runs.spare c.away, c.away) in
    rw (joinable, st_thread_exit)
      (Ensures-mono (Signalled (oldest (waiting q d)) d) (λ w. Outcome v (w, switches))
        (st_cond_signal k d)
        (st_cond_signal-Signalled k q d (dead-Inv retval v c.runs.inv c.runs.runs c.away) e)
        (λ w s. record {
          inv = s.inv;
          runs = λ x. cc;
          this_thread = s.this_thread;
          idle = s.idle_thread;
          spare = ground (arith, s.thread v.idle_thread, spare);
          stops = λ x. inl (ground (arith, s.thread v.this_thread));
          others = λ u ne x. ground (arith, s.thread u, x, ne);
          added = oldest (waiting q d);
          queued = s.woken;
        }))

-- A thread that has no termination condition gives its stack back. Its state stays what it was, but
-- nothing leads to it.
pub leave-Outcome :
    (v w : Vp)
    → w.this_thread ≡ v.this_thread
    → (w.thread v.this_thread).term ≡ none
    → (w.thread v.this_thread).flags ≡ (v.thread v.this_thread).flags
    → (w.thread v.this_thread).stack ≡ (v.thread v.this_thread).stack
    → w.stacks ≡ v.stacks
    → Outcome v (w, returns success)
    → Outcome v (leave w, switches)
unfolding leave
leave-Outcome v w me detached flags stack stacks o =
    let x = record w { stacks = _st_stack_free (w.thread w.this_thread).stack w.stacks } in
    if_both (λ x. Outcome v (x, switches)) (w.thread w.this_thread).flags.primordial w x
      (λ p. record {
        inv = o.inv;
        runs = λ e. cc;
        this_thread = o.this_thread;
        idle = o.idle;
        spare = o.spare;
        stops = λ e. inr (record {
          detached = detached;
          gave_back = λ h.
              let q : (v.thread v.this_thread).flags.primordial ≡ true =
                ap (λ (f : Flags). f.primordial) (sym flags)
                ∙ ap (λ t. (w.thread t).flags.primordial) (sym me)
                ∙ p in
              ground (arith, q, h);
        });
        others = o.others;
        added = o.added;
        queued = o.queued;
      })
      (λ p. record {
        inv = Inv-same w x o.inv refl refl refl refl (λ u. refl) (λ u. refl) (λ u. refl);
        runs = λ e. cc;
        this_thread = o.this_thread;
        idle = o.idle;
        spare = o.spare;
        stops = λ e. inr (record {
          detached = detached;
          gave_back = λ h.
              ap (λ t. _st_stack_free (w.thread t).stack w.stacks) me
              ∙ ap (λ k. _st_stack_free k w.stacks) stack
              ∙ ap (_st_stack_free (v.thread v.this_thread).stack) stacks;
        });
        others = o.others;
        added = o.added;
        queued = o.queued;
      })

pub exit-Outcome :
    (retval : ℕ) (v : Vp)
    → Calls v
    → (v.thread v.this_thread).term ≡ none
    → Ensures (λ w. Outcome v (w, switches)) (st_thread_exit retval v)
unfolding st_thread_exit
exit-Outcome retval v c detached =
    let w = cleaned retval v in
    rw (detached, st_thread_exit)
      (leave-Outcome v w refl (ground (arith, detached)) (ground arith) (ground arith) refl (
        same-Outcome v w (returns success) refl c refl refl refl refl refl (λ u. ground arith)
          (λ u. ground arith) (λ u. ground arith)))

-- The joined thread is runnable again.
reaped-Outcome :
    (t : ℕ) (v : Vp) (r : Ret)
    → Calls v
    → is_zombie (v.thread t).state ≡ true
    → Outcome v (add_runq t (del_zombieq t (set_state t runnable v)), returns r)
reaped-Outcome t v r c z = record {
  inv = reap-Inv t v c.runs.inv z;
  runs = λ _. ground (arith, c.runs.runs);
  this_thread = refl;
  idle = refl;
  spare = ground (arith, c.runs.spare c.away);
  stops = λ e. cc;
  others = λ u ne q. ground (arith, q);
  added = t ∷ [];
  queued = refl;
}

retag :
    (v w : Vp) (p p' : Progress) → is_switch p' ≡ is_switch p → Outcome v (w, p) → Outcome v (w, p')
retag v w p p' e o = record {
  inv = o.inv;
  runs = λ x. o.runs (sym e ∙ x);
  this_thread = o.this_thread;
  idle = o.idle;
  spare = o.spare;
  stops = λ x. o.stops (sym e ∙ x);
  others = o.others;
  added = o.added;
  queued = o.queued;
}

-- How far a join has got, as a call.
abbrev pub join_progress : Joining → Progress
join_progress (joined x) = returns success
join_progress join_fails = returns failure
join_progress waits = switches

abbrev pub Tagged : Vp → Vp × Joining → Type 0
Tagged v r = Outcome v (r.0, join_progress r.1)

pub loop-Outcome :
    (t k : ℕ) (q : List ℕ) (v : Vp)
    → Calls v
    → v.cond k ≡ some q
    → Ensures (Tagged v) (join_loop t k v)
unfolding join_loop
loop-Outcome t k q v c e =
    if_both (Ensures (Tagged v)) (is_zombie (v.thread t).state)
      (some (add_runq t (del_zombieq t (set_state t runnable v)), joined (v.thread t).retval))
      (st_cond_timedwait k no_timeout v >>= λ r.
        some (r.0, elim r.1 [ returns _ ↦ join_fails | switches ↦ waits ]))
      (λ z. reaped-Outcome t v success c z)
      (λ _.
        Ensures-bind (Outcome v) (Tagged v) (st_cond_timedwait k no_timeout v)
          (λ r. some (r.0, elim r.1 [ returns _ ↦ join_fails | switches ↦ waits ]))
          (timedwait-Outcome k no_timeout q v c e (omega arith))
          (λ r o.
            elim r.1
                as (λ p.
                  Outcome v (r.0, p)
                  → Tagged v (r.0, elim p [ returns _ ↦ join_fails | switches ↦ waits ])) [
                    | returns x ↦ λ o'. retag v r.0 (returns x) (returns failure) refl o'
                    | switches ↦ λ o'. o'
                  ]
              o))

refused-Outcome :
    (x : Joining) (v w : Vp)
    → Calls v
    → w ≡ set_errno w.errno v
    → is_switch (join_progress x) ≡ false
    → Tagged v (w, x)
refused-Outcome x v w c e y =
    subst (λ u. Tagged v (u, x)) (sym e)
      (same-Outcome v (set_errno w.errno v) (join_progress x) y c refl refl refl refl refl
        (λ u. refl) (λ u. refl) (λ u. refl))

pub join-Outcome :
    (t k : ℕ) (q : List ℕ) (v : Vp)
    → Calls v
    → (v.thread t).term ≡ some k
    → v.cond k ≡ some q
    → Ensures (Tagged v) (st_thread_join t v)
unfolding st_thread_join
join-Outcome t k q v c joinable e =
    let busy : List ℕ → Option (Vp × Joining) =
      λ l. elim l [ [] ↦ join_loop t k v | u ∷ rest ↦ some (set_errno einval v, join_fails) ] in
    rw (joinable, st_thread_join)
      (if_both (Ensures (Tagged v)) (v.this_thread == t) (some (set_errno edeadlk v, join_fails))
        (v.cond k >>= busy) (λ _. refused-Outcome join_fails v (set_errno edeadlk v) c refl refl)
        (λ _.
          subst (λ o. Ensures (Tagged v) (o >>= busy)) (sym e)
            (elim q as (λ l. v.cond k ≡ some l → Ensures (Tagged v) (busy l)) [
              | [] ↦ λ e'. loop-Outcome t k [] v c e'
              | u ∷ rest ↦ λ e'. refused-Outcome join_fails v (set_errno einval v) c refl refl
            ]
              e)))
