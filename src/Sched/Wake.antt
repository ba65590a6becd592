-- ===== src/Sched/Wake.antt =====
-- Making a thread runnable, in sched_win.cpp: `st_thread_interrupt`.
use st_nvs.Base.{
  ℕ, ◌≡◌, ◌++◌, ◌||◌, true, false, some, [], ◌∷◌, ◌==◌, arith, count-append, Ensures, Ensures-mono,
  Ensures-bind, Bool-cases, inl, inr, refl, ap,
}
use st_nvs.Vp.Moves.{interrupt-Inv}
use st_nvs.Vp.{
  awake, update, is_running, is_runnable, is_zombie, is_wait, runnable, Vp, set_state, add_runq,
  set_interrupt, del_sleepq,
}
use st_nvs.Vp.Invariant.{Inv, IsQueued, TakenOff, del_sleepq-TakenOff}
use st_nvs.Sched.{wake, st_thread_interrupt}

ready-IsQueued :
    (t u : ℕ) (v : Vp)
    → IsQueued v t
    → IsQueued v u
    → is_wait (v.thread t).state ≡ true
    → (v.thread t).flags.on_sleepq ≡ false
    → IsQueued (add_runq t (set_state t runnable v)) u
ready-IsQueued t u v ht hu b off = ground (
  arith,
  count-append u v.run_q (t ∷ []),
  ht.ready,
  ht.asleep,
  ht.dead,
  ht.idle,
  ht.idles,
  hu.asleep,
  hu.ready,
  hu.dead,
  hu.waits,
  hu.idle,
  hu.idles,
)

pub ready-Inv :
    (t : ℕ) (v : Vp)
    → Inv v
    → is_wait (v.thread t).state ≡ true
    → (v.thread t).flags.on_sleepq ≡ false
    → Inv (add_runq t (set_state t runnable v))
ready-Inv t v i b off = record {
  sound = i.sound;
  queued = λ u. ready-IsQueued t u v (i.queued t) (i.queued u) b off;
}

-- A thread was made runnable, and nothing else changed but the sleep queue.
pub record Woken (t : ℕ) (v v' : Vp) : Type 0 where
  pub inv : Inv v'
  pub queued : v'.run_q ≡ v.run_q ++ t ∷ []
  pub thread : (u : ℕ) → v'.thread u ≡ update v.thread t (awake (v.thread t)) u
  pub cond : v'.cond ≡ v.cond
  pub mutex : v'.mutex ≡ v.mutex
  pub destroyed : v'.destroyed ≡ v.destroyed
  pub this_thread : v'.this_thread ≡ v.this_thread
  pub idle_thread : v'.idle_thread ≡ v.idle_thread

ready-Woken :
    (t : ℕ) (v v' : Vp)
    → is_wait (v.thread t).state ≡ true
    → TakenOff t v v'
    → Woken t v (add_runq t (set_state t runnable v'))
ready-Woken t v v' b o =
    let th = ap (λ w. w.thread t) o.same in
    record {
      inv = ready-Inv t v' o.inv (rw th (ground arith)) (rw th (ground arith));
      queued = ap (λ w. w.run_q ++ t ∷ []) o.same;
      thread = λ u. ground (arith, th, ap (λ w. w.thread u) o.same);
      cond = ap (λ w. w.cond) o.same;
      mutex = ap (λ w. w.mutex) o.same;
      destroyed = ap (λ w. w.destroyed) o.same;
      this_thread = ap (λ w. w.this_thread) o.same;
      idle_thread = ap (λ w. w.idle_thread) o.same;
    }

-- A blocked thread is made runnable.
pub wake-Woken :
    (t : ℕ) (v : Vp) → Inv v → is_wait (v.thread t).state ≡ true → Ensures (Woken t v) (wake t v)
unfolding wake
wake-Woken t v i b = elim (Bool-cases (v.thread t).flags.on_sleepq) [
  | inl on ↦ rw on (
      Ensures-bind (TakenOff t v) (Woken t v) (del_sleepq t false v)
        (λ v'. some (add_runq t (set_state t runnable v'))) (del_sleepq-TakenOff t v i on)
        (λ v' o. ready-Woken t v v' b o))
  | inr off ↦ rw off (record {
    inv = ready-Inv t v i b off;
    queued = refl;
    thread = λ u. ground arith;
    cond = refl;
    mutex = refl;
    destroyed = refl;
    this_thread = refl;
    idle_thread = refl;
  })
]

-- What `st_thread_interrupt` leaves of its target: a zombie is left alone; any other thread has
-- the interrupt flag, and is running or runnable.
pub record Interrupted (t : ℕ) (v v' : Vp) : Type 0 where
  pub inv : Inv v'
  pub flag : is_zombie (v.thread t).state ≡ false → (v'.thread t).flags.interrupt ≡ true
  pub active :
      is_zombie (v.thread t).state ≡ false
      → (is_running (v'.thread t).state || is_runnable (v'.thread t).state) ≡ true
  pub untouched : is_zombie (v.thread t).state ≡ true → v' ≡ v
  pub others : (u : ℕ) → (u == t) ≡ false → v'.thread u ≡ v.thread u

-- Interrupting any thread in any state runs without a fault, keeps the queues consistent, and leaves
-- a live target running or runnable with its interrupt flag set, and every other thread as it was.
pub st_thread_interrupt-Interrupted :
    (t : ℕ) (v : Vp) → Inv v → Ensures (Interrupted t v) (st_thread_interrupt t v)
unfolding st_thread_interrupt
st_thread_interrupt-Interrupted t v i = elim (Bool-cases (is_zombie (v.thread t).state)) [
  | inl dead ↦ rw dead (record {
    inv = i;
    flag = ground arith;
    active = ground arith;
    untouched = λ _. refl;
    others = λ u _. refl;
  })
  | inr live ↦ elim (Bool-cases (is_running (v.thread t).state)) [
    | inl run ↦ rw (live, run) (flagged (ground arith))
    | inr stop ↦ elim (Bool-cases (is_runnable (v.thread t).state)) [
      | inl ready ↦ rw (live, stop, ready) (flagged (ground arith))
      | inr blocked ↦
          rw (live, stop, blocked)
            (Ensures-mono (Woken t (set_interrupt t true v)) (Interrupted t v)
              (wake t (set_interrupt t true v))
              (wake-Woken t (set_interrupt t true v) (interrupt-Inv t true v i) (ground arith))
              (λ v' w. record {
                inv = w.inv;
                flag = ground (arith, w.thread t);
                active = λ _. ground (arith, w.thread t);
                untouched = ground arith;
                others = λ u ne. ground (arith, w.thread u);
              }))
    ]
  ]
]
  where
    flagged :
        (is_running (v.thread t).state || is_runnable (v.thread t).state) ≡ true
        → Interrupted t v (set_interrupt t true v)
    flagged active = record {
      inv = interrupt-Inv t true v i;
      flag = ground arith;
      active = ground arith;
      untouched = ground arith;
      others = λ u ne. ground arith;
    }
