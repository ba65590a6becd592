-- ===== src/Machine/Wakes.antt =====
-- What interrupts and the ends of timed waits leave to the scheduler.
use st_nvs.Base.{
  ℕ, ◌≡◌, Bool, true, false, Option, some, List, [], ◌∷◌, if◌then◌else◌, arith, ◌>>=◌, unlink,
  Ensures, Ensures-mono, refl, sym, subst, if_both, bool_both,
}
use st_nvs.Vp.{
  Vp, returns, success, failure, Ret, is_running, is_runnable, is_wait, is_zombie, etime,
  set_interrupt, set_timedout, update, set_errno,
}
use st_nvs.Vp.Moves.{interrupt-Inv}
use st_nvs.Sched.{st_thread_interrupt, wake}
use st_nvs.Sched.Wake.{Woken, wake-Woken}
use st_nvs.Sync.{interrupted, consume, st_cond_timedwait_resumed}
use st_nvs.Machine.{done}
use st_nvs.Machine.Locks.{errno-Outcome}
use st_nvs.Machine.Calls.{Outcome, Calls, same-Outcome}

flag-Outcome : (t : ℕ) (v : Vp) → Calls v → Outcome v (set_interrupt t true v, returns success)
flag-Outcome t v c =
    same-Outcome v (set_interrupt t true v) (returns success) refl c refl refl refl refl refl
      (λ u. ground arith) (λ u. ground arith) (λ u. ground arith)

Woken-Outcome :
    (t : ℕ) (v w : Vp)
    → Calls v
    → is_wait (v.thread t).state ≡ true
    → Woken t (set_interrupt t true v) w
    → Outcome v (w, returns success)
Woken-Outcome t v w c waits x = record {
  inv = x.inv;
  runs = λ _. ground (arith, x.thread v.this_thread, c.runs.runs);
  this_thread = x.this_thread;
  idle = x.idle_thread;
  spare = ground (arith, x.thread v.idle_thread, c.runs.spare c.away);
  stops = λ e. cc;
  others = λ u ne q. ground (arith, x.thread u, q);
  added = t ∷ [];
  queued = x.queued;
}

pub interrupt-Outcome :
    (t : ℕ) (v : Vp)
    → Calls v
    → Ensures (λ w. Outcome v (w, returns success)) (st_thread_interrupt t v)
unfolding st_thread_interrupt
interrupt-Outcome t v c =
    let P : Option Vp → Type 0 = Ensures (λ w. Outcome v (w, returns success)) in
    let u = set_interrupt t true v in
    if_both P (is_zombie (v.thread t).state) (some v)
      (if is_running (v.thread t).state
        then some u
        else if is_runnable (v.thread t).state
        then some u
        else wake t u)
      (λ _. errno-Outcome v v success c refl)
      (λ alive.
        if_both P (is_running (v.thread t).state) (some u)
          (if is_runnable (v.thread t).state then some u else wake t u) (λ _. flag-Outcome t v c)
          (λ stop.
            if_both P (is_runnable (v.thread t).state) (some u) (wake t u) (λ _. flag-Outcome t v c)
              (λ blocked.
                let waits : is_wait (v.thread t).state ≡ true = ground arith in
                Ensures-mono (Woken t u) (λ w. Outcome v (w, returns success)) (wake t u)
                  (wake-Woken t u (interrupt-Inv t true v c.runs.inv) (ground (arith, waits)))
                  (λ w x. Woken-Outcome t v w c waits x))))

-- The caller goes on after a wait: it leaves the wait queue, and its flags are read and reset.
pub timedwaited-Outcome :
    (k : ℕ) (q : List ℕ) (v : Vp)
    → Calls v
    → v.cond k ≡ some q
    → Ensures (Outcome v) (done (st_cond_timedwait_resumed k v))
unfolding st_cond_timedwait_resumed
timedwaited-Outcome k q v c e =
    let me = v.this_thread in
    let left : List ℕ → Vp = λ l. record v { cond = update v.cond k (some (unlink me l)) } in
    let finish : Bool → Vp → Option (Vp × Ret) = λ late x.
      let y = if late then set_errno etime (set_timedout me false x) else x in
      if interrupted me y
      then some (consume me y, failure)
      else some (y, if late then failure else success) in
    let P : Option (Vp × Ret) → Type 0 = λ r. Ensures (Outcome v) (done r) in
    let late_one = set_errno etime (set_timedout me false (left q)) in
    subst (λ o. P (o >>= λ l. finish ((left l).thread me).flags.timedout (left l))) (sym e)
      (bool_both (λ b. P (finish b (left q))) (v.thread me).flags.timedout
        (if_both P (interrupted me late_one) (some (consume me late_one, failure))
          (some (late_one, failure))
          (λ _.
            same-Outcome v (consume me late_one) (returns failure) refl c refl refl refl refl refl
              (λ u. ground arith) (λ u. ground arith) (λ u. ground arith))
          (λ _.
            same-Outcome v late_one (returns failure) refl c refl refl refl refl refl
              (λ u. ground arith) (λ u. ground arith) (λ u. ground arith)))
        (if_both P (interrupted me (left q)) (some (consume me (left q), failure))
          (some (left q, success))
          (λ _.
            same-Outcome v (consume me (left q)) (returns failure) refl c refl refl refl refl refl
              (λ u. ground arith) (λ u. ground arith) (λ u. ground arith))
          (λ _.
            same-Outcome v (left q) (returns success) refl c refl refl refl refl refl (λ u. refl)
              (λ u. refl) (λ u. refl))))
