-- ===== src/Machine/Stale.antt =====
-- A completion that comes while its thread waits for a lock: the thread has given up an operation on
-- a socket after an interrupt, and has called `st_mutex_lock` since.
use st_nvs.Base.{
  ℕ, ◌≡◌, ◌++◌, true, false, some, [], ◌∷◌, ◌==◌, ==→eq, arith, ◌>>=◌, unlink, Ensures,
  Ensures-mono, Ensures-bind, refl, ◌∙◌, ap, sym, subst, ulong_sub,
}
use st_nvs.Vp.{Vp, Mutex, Ret, success, runnable, set_state, is_lock_wait}
use st_nvs.SleepQueue.Deadlines.{deadlines}
use st_nvs.SleepQueue.Expire.{due}
use st_nvs.Sched.{_st_vp_check_clock, _st_vp_schedule}
use st_nvs.Sched.Clock.{Clocked, _st_vp_check_clock-Clocked}
use st_nvs.Sync.{st_mutex_lock_resumed, interrupted, owned_by}
use st_nvs.Sync.Signal.{Signalled}
use st_nvs.Thread.{_st_vp_idle}
use st_nvs.Machine.{idle_round}
use st_nvs.Machine.Dispatch.{Runs, next, Scheduled, _st_vp_schedule-Scheduled}
use st_nvs.Machine.Idle.{ready-Parted, completed-Signalled}

-- The thread runs again, not interrupted, with the locks as they were.
record RunsAgain (t : ℕ) (v x : Vp) : Type 0 where
  this_thread : x.this_thread ≡ t
  mutex : x.mutex ≡ v.mutex
  calm : interrupted t x ≡ false

scheduled_again :
    (t now : ℕ) (v v1 v2 : Vp)
    → v.run_q ≡ []
    → interrupted t v ≡ false
    → Signalled (t ∷ []) v v1
    → Clocked (ulong_sub now v1.last_clock) now v1 v2
    → Ensures (RunsAgain t v) (_st_vp_schedule (set_state v2.idle_thread runnable v2))
scheduled_again t now v v1 v2 empty calm s c =
    let u = set_state v2.idle_thread runnable v2 in
    let late = due (ulong_sub now v1.last_clock) (deadlines 0 v1.sleep_q.queue) in
    let q : v2.run_q ≡ t ∷ late =
      c.woken ∙ ap (λ q. q ++ late) s.woken ∙ ap (λ q. (q ++ t ∷ []) ++ late) empty in
    Ensures-mono (Scheduled u) (RunsAgain t v) (_st_vp_schedule u)
      (_st_vp_schedule-Scheduled u (ready-Parted v2 c.inv))
      (λ x d. record {
        this_thread = d.chosen ∙ ap (λ l. next l v2.idle_thread) q;
        mutex = d.mutex ∙ c.mutex ∙ s.mutex;
        calm = ground (arith, d.flags t, c.thread t, s.thread t, calm);
      })

idle_round-RunsAgain :
    (t now time : ℕ) (v : Vp)
    → Runs v
    → (v.this_thread == v.idle_thread) ≡ true
    → v.run_q ≡ []
    → is_lock_wait (v.thread t).state ≡ true
    → interrupted t v ≡ false
    → Ensures (RunsAgain t v) (idle_round true (t ∷ []) now time v)
unfolding idle_round
idle_round-RunsAgain t now time v r me empty waits calm =
    Ensures-bind (Signalled (t ∷ []) v) (RunsAgain t v) (_st_vp_idle true (t ∷ []) v)
      (λ v1. _st_vp_check_clock now time v1 >>= λ v2.
        _st_vp_schedule (set_state v.this_thread runnable v2))
      (completed-Signalled true (t ∷ []) v r.inv (ground (arith, waits), refl, tt))
      (λ v1 s.
        Ensures-bind (Clocked (ulong_sub now v1.last_clock) now v1) (RunsAgain t v)
          (_st_vp_check_clock now time v1)
          (λ v2. _st_vp_schedule (set_state v.this_thread runnable v2))
          (_st_vp_check_clock-Clocked now time v1 s.inv)
          (λ v2 c.
            let same : v.this_thread ≡ v2.idle_thread =
              ==→eq v.this_thread v.idle_thread me ∙ sym s.idle_thread ∙ sym c.idle_thread in
            subst (λ i. Ensures (RunsAgain t v) (_st_vp_schedule (set_state i runnable v2)))
              (sym same) (scheduled_again t now v v1 v2 empty calm s c)))

-- `st_mutex_lock` reports success to the thread, and the lock has the owner that it had.
pub record Mistaken (t m : ℕ) (lock : Mutex) (r : Vp × Ret) : Type 0 where
  pub done : r.1 ≡ success
  pub caller : (r.0).this_thread ≡ t
  pub kept : (r.0).mutex m ≡ some (record lock { wait_q = unlink t lock.wait_q })
  pub not_owner : owned_by t lock.owner ≡ false

resumed-Mistaken :
    (t m : ℕ) (lock : Mutex) (v x : Vp)
    → v.mutex m ≡ some lock
    → owned_by t lock.owner ≡ false
    → RunsAgain t v x
    → Ensures (Mistaken t m lock) (st_mutex_lock_resumed m x)
unfolding st_mutex_lock_resumed
resumed-Mistaken t m lock v x e other a =
    let there : x.mutex m ≡ some lock = ap (λ f. f m) a.mutex ∙ e in
    let calm : interrupted x.this_thread x ≡ false =
      ap (λ i. interrupted i x) a.this_thread ∙ a.calm in
    rw (there, st_mutex_lock_resumed, calm)
      (record {
        done = refl;
        caller = a.this_thread;
        kept = ground (arith, a.this_thread);
        not_owner = other;
      })

-- A thread waits for a lock that another one owns or that is free, nobody is ready, and a round of the
-- idle thread takes a completion for the thread from the queue: the thread runs, and `st_mutex_lock`
-- returns 0 to it, although it does not own the lock.
pub st_mutex_lock_resumed-idle_round :
    (t m now time : ℕ) (lock : Mutex) (v : Vp)
    → Runs v
    → (v.this_thread == v.idle_thread) ≡ true
    → v.run_q ≡ []
    → v.mutex m ≡ some lock
    → is_lock_wait (v.thread t).state ≡ true
    → interrupted t v ≡ false
    → owned_by t lock.owner ≡ false
    → Ensures (Mistaken t m lock) (idle_round true (t ∷ []) now time v >>= st_mutex_lock_resumed m)
st_mutex_lock_resumed-idle_round t m now time lock v r me empty e waits calm other =
    Ensures-bind (RunsAgain t v) (Mistaken t m lock) (idle_round true (t ∷ []) now time v)
      (st_mutex_lock_resumed m) (idle_round-RunsAgain t now time v r me empty waits calm)
      (λ x a. resumed-Mistaken t m lock v x e other a)
