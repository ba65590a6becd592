-- ===== src/Vp/Moves.antt =====
-- Changes of a thread that the queues' invariant survives.
use st_nvs.Base.{ℕ, ◌≡◌, Bool, true, false, ◌==◌, arith, refl}
use st_nvs.Vp.{ThreadState, is_running, is_wait, Vp, set_state, set_interrupt, set_timedout}
use st_nvs.Vp.Invariant.{IsQueued, Inv}

-- The invariant speaks of the queues, and of each thread's state and two of its flags.
pub Inv-same :
    (v w : Vp)
    → Inv v
    → w.run_q ≡ v.run_q
    → w.zombie_q ≡ v.zombie_q
    → w.sleep_q ≡ v.sleep_q
    → w.idle_thread ≡ v.idle_thread
    → ((u : ℕ) → (w.thread u).state ≡ (v.thread u).state)
    → ((u : ℕ) → (w.thread u).flags.on_sleepq ≡ (v.thread u).flags.on_sleepq)
    → ((u : ℕ) → (w.thread u).flags.idle ≡ (v.thread u).flags.idle)
    → Inv w
Inv-same v w i run dead slept idle st on id = record {
  sound = rw slept i.sound;
  queued = λ u.
      let h = i.queued u in
      record {
        ready = rw (run, st u, idle) h.ready;
        dead = rw (dead, st u) h.dead;
        asleep = rw (slept, on u) h.asleep;
        waits = rw (on u, st u) h.waits;
        idle = rw (id u, idle) h.idle;
        idles = rw (id u, st u) h.idles;
      };
}

pub flag-Inv : (t : ℕ) (b : Bool) (v : Vp) → Inv v → Inv (set_timedout t b v)
flag-Inv t b v i =
    Inv-same v (set_timedout t b v) i refl refl refl refl (λ u. ground arith) (λ u. ground arith)
      (λ u. ground arith)

pub interrupt-Inv : (t : ℕ) (b : Bool) (v : Vp) → Inv v → Inv (set_interrupt t b v)
interrupt-Inv t b v i =
    Inv-same v (set_interrupt t b v) i refl refl refl refl (λ u. ground arith) (λ u. ground arith)
      (λ u. ground arith)

park-IsQueued :
    (t u : ℕ) (s : ThreadState) (v : Vp)
    → IsQueued v t
    → IsQueued v u
    → is_running (v.thread t).state ≡ true
    → (t == v.idle_thread) ≡ false
    → is_wait s ≡ true
    → IsQueued (set_state t s v) u
park-IsQueued t u s v ht hu r idle w = ground (
  arith, ht.ready, ht.asleep, ht.dead, ht.waits, ht.idle, hu.ready, hu.asleep, hu.dead, hu.waits,
  hu.idle, hu.idles,
)

-- The running thread, not the idle one, may begin to wait.
pub park-Inv :
    (t : ℕ) (s : ThreadState) (v : Vp)
    → Inv v
    → is_running (v.thread t).state ≡ true
    → (t == v.idle_thread) ≡ false
    → is_wait s ≡ true
    → Inv (set_state t s v)
park-Inv t s v i r idle w = record {
  sound = i.sound;
  queued = λ u. park-IsQueued t u s v (i.queued t) (i.queued u) r idle w;
}

-- A running thread is not on the sleep queue.
pub runs_awake :
    (t : ℕ) (v : Vp)
    → Inv v
    → is_running (v.thread t).state ≡ true
    → (v.thread t).flags.on_sleepq ≡ false
runs_awake t v i r = ground (arith, (i.queued t).waits)
