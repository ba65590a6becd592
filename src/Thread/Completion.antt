-- ===== src/Thread/Completion.antt =====
-- `_st_vp_idle`: threads whose I/O has completed.
use st_nvs.Base.{
  ℕ, ◌≡◌, ◌++◌, true, false, List, [], ◌∷◌, ◌==◌, arith, count, count-append, Ensures, Ensures-mono,
  Ensures-bind,
}
use st_nvs.Vp.{is_wait, is_runnable, Vp}
use st_nvs.Vp.Invariant.{Inv}
use st_nvs.Sched.{wake}
use st_nvs.Sched.Wake.{Woken, wake-Woken}
use st_nvs.Sync.Signal.{Signalled, nobody, more}
use st_nvs.Thread.{drain, _st_vp_idle}

-- Each thread of a list waits, and is named once.
abbrev pub AllWait : List ℕ → Vp → Type 0
AllWait [] v = Unit {0}
AllWait (t ∷ rest) v = (is_wait (v.thread t).state ≡ true) × (count t rest ≡ 0) × AllWait rest v

AllWait-frame :
    (t : ℕ) (l : List ℕ) (v v' : Vp) → Woken t v v' → count t l ≡ 0 → AllWait l v → AllWait l v'
AllWait-frame t [] v v' w h a = tt
AllWait-frame t (u ∷ l) v v' w h a =
    (ground (arith, w.thread u), a.1, AllWait-frame t l v v' w (ground arith) a.2)

drain-Signalled : (l : List ℕ) (v : Vp) → Inv v → AllWait l v → Ensures (Signalled l v) (drain l v)
unfolding drain
drain-Signalled [] v i a = nobody v i
drain-Signalled (t ∷ l) v i a =
    Ensures-bind (Woken t v) (Signalled (t ∷ l) v) (wake t v) (drain l) (wake-Woken t v i a.0)
      (λ v' x.
        Ensures-mono (Signalled l v') (Signalled (t ∷ l) v) (drain l v')
          (drain-Signalled l v' x.inv (AllWait-frame t l v v' x a.1 a.2))
          (λ w s. more t l v v' w a.1 x s))

-- If the completed threads are distinct and all of them wait, they are made runnable in the order in
-- which they completed, the queues stay consistent, and no other thread is touched.
pub _st_vp_idle-Signalled :
    (completed : List ℕ) (v : Vp)
    → Inv v
    → AllWait completed v
    → Ensures (Signalled completed v) (_st_vp_idle true completed v)
unfolding _st_vp_idle
_st_vp_idle-Signalled completed v i a = drain-Signalled completed v i a

-- The loop does not look at the state of a completed thread. One that an interrupt has already made
-- runnable is queued a second time, and the queues are inconsistent.
pub _st_vp_idle_twice :
    (t : ℕ) (v : Vp)
    → Inv v
    → is_runnable (v.thread t).state ≡ true
    → (t == v.idle_thread) ≡ false
    → Ensures (λ v'. (count t v'.run_q ≡ 2) × ¬ Inv v') (_st_vp_idle true (t ∷ []) v)
unfolding _st_vp_idle wake
_st_vp_idle_twice t v i r idle =
    let off : (v.thread t).flags.on_sleepq ≡ false = ground (arith, (i.queued t).waits) in
    let twice : count t (v.run_q ++ t ∷ []) ≡ 2 =
      ground (arith, count-append t v.run_q (t ∷ []), (i.queued t).ready) in
    rw (off, wake) (twice, λ j. ground (arith, twice, (j.queued t).ready))
