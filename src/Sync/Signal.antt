-- ===== src/Sync/Signal.antt =====
-- `_st_cond_signal`: who is woken by a signal and by a broadcast.
use mathlib.Core.List.{append-nil, append_assoc}
use st_nvs.Base.{
  ℕ, ◌≤◌, ◌≡◌, ◌++◌, true, false, some, List, [], ◌∷◌, ◌==◌, if◌then◌else◌, arith, count, Ensures,
  Ensures-mono, Ensures-bind, Bool-cases, inl, inr, refl, ◌∙◌, ap, sym, subst,
}
use st_nvs.Vp.{Vp, awake, is_cond_wait}
use st_nvs.Vp.Invariant.{Inv}
use st_nvs.Sched.{wake}
use st_nvs.Sched.Wake.{Woken, wake-Woken}
use st_nvs.Sync.{signal_waiters, st_cond_signal, st_cond_broadcast}

-- Those of a list that wait on a condition variable, in order.
unfoldable pub waiting : List ℕ → Vp → List ℕ
waiting [] v = []
waiting (t ∷ rest) v =
    if is_cond_wait (v.thread t).state then t ∷ waiting rest v else waiting rest v

unfoldable pub oldest : List ℕ → List ℕ
oldest [] = []
oldest (t ∷ rest) = t ∷ []

-- The threads of a list are made runnable, in order, and nothing happens to any other.
pub record Signalled (ts : List ℕ) (v v' : Vp) : Type 0 where
  pub inv : Inv v'
  pub woken : v'.run_q ≡ v.run_q ++ ts
  pub thread : (u : ℕ) → v'.thread u ≡ (if count u ts == 0 then v.thread u else awake (v.thread u))
  pub cond : v'.cond ≡ v.cond
  pub mutex : v'.mutex ≡ v.mutex
  pub destroyed : v'.destroyed ≡ v.destroyed
  pub this_thread : v'.this_thread ≡ v.this_thread
  pub idle_thread : v'.idle_thread ≡ v.idle_thread

pub nobody : (v : Vp) → Inv v → Signalled [] v v
nobody v i = record {
  inv = i;
  woken = sym (append-nil v.run_q);
  thread = λ u. refl;
  cond = refl;
  mutex = refl;
  destroyed = refl;
  this_thread = refl;
  idle_thread = refl;
}

one : (t : ℕ) (v v' : Vp) → Woken t v v' → Signalled (t ∷ []) v v'
one t v v' w = record {
  inv = w.inv;
  woken = w.queued;
  thread = λ u. ground (arith, w.thread u);
  cond = w.cond;
  mutex = w.mutex;
  destroyed = w.destroyed;
  this_thread = w.this_thread;
  idle_thread = w.idle_thread;
}

signal_one :
    (q : List ℕ) (v : Vp)
    → Inv v
    → Ensures (Signalled (oldest (waiting q v)) v) (signal_waiters false q v)
unfolding signal_waiters waiting oldest
signal_one [] v i = nobody v i
signal_one (t ∷ rest) v i = elim (Bool-cases (is_cond_wait (v.thread t).state)) [
  | inl w ↦ rw w (
      Ensures-bind (Woken t v) (Signalled (t ∷ []) v) (wake t v) (λ v'. some v')
        (wake-Woken t v i (ground arith)) (λ v' x. one t v v' x))
  | inr other ↦ rw other (signal_one rest v i)
]

-- A signal wakes the thread that has waited longest, and no other; if nobody waits, nobody.
pub st_cond_signal-Signalled :
    (c : ℕ) (q : List ℕ) (v : Vp)
    → Inv v
    → v.cond c ≡ some q
    → Ensures (Signalled (oldest (waiting q v)) v) (st_cond_signal c v)
unfolding st_cond_signal
st_cond_signal-Signalled c q v i e = rw e (signal_one q v i)

-- Waking one thread leaves the others of a list as they were.
waiting_frame :
    (t : ℕ) (q : List ℕ) (v v' : Vp) → Woken t v v' → count t q ≡ 0 → waiting q v' ≡ waiting q v
unfolding waiting
waiting_frame t [] v v' w h = refl
waiting_frame t (u ∷ q) v v' w h =
    let ih = waiting_frame t q v v' w (ground arith) in ground (arith, w.thread u)

count-waiting-le : (u : ℕ) (q : List ℕ) (v : Vp) → count u (waiting q v) ≤ count u q
unfolding waiting
count-waiting-le u [] v = omega arith
count-waiting-le u (t ∷ q) v = ground (arith, count-waiting-le u q v)

pub more :
    (t : ℕ) (ts : List ℕ) (v v' w : Vp)
    → count t ts ≡ 0
    → Woken t v v'
    → Signalled ts v' w
    → Signalled (t ∷ ts) v w
more t ts v v' w fresh x s = record {
  inv = s.inv;
  woken = s.woken ∙ ap (λ r. r ++ ts) x.queued ∙ append_assoc v.run_q (t ∷ []) ts;
  thread = λ u. ground (arith, s.thread u, x.thread u);
  cond = s.cond ∙ x.cond;
  mutex = s.mutex ∙ x.mutex;
  destroyed = s.destroyed ∙ x.destroyed;
  this_thread = s.this_thread ∙ x.this_thread;
  idle_thread = s.idle_thread ∙ x.idle_thread;
}

signal_all :
    (q : List ℕ) (v : Vp)
    → Inv v
    → ((u : ℕ) → count u q ≤ 1)
    → Ensures (Signalled (waiting q v) v) (signal_waiters true q v)
unfolding signal_waiters waiting
signal_all [] v i once = nobody v i
signal_all (t ∷ rest) v i once =
    let apart : count t rest ≡ 0 = ground (arith, once t) in
    let tail_once : (u : ℕ) → count u rest ≤ 1 = λ u. ground (arith, once u) in
    elim (Bool-cases (is_cond_wait (v.thread t).state)) [
      | inl w ↦ rw w (
          Ensures-bind (Woken t v) (Signalled (t ∷ waiting rest v) v) (wake t v)
            (signal_waiters true rest) (wake-Woken t v i (ground arith))
            (λ v' x.
              Ensures-mono (Signalled (waiting rest v') v') (Signalled (t ∷ waiting rest v) v)
                (signal_waiters true rest v') (signal_all rest v' x.inv tail_once)
                (λ w' s.
                  more t (waiting rest v) v v' w' (omega (arith, count-waiting-le t rest v)) x
                    (subst (λ l. Signalled l v' w') (waiting_frame t rest v v' x apart) s))))
      | inr other ↦ rw other (signal_all rest v i tail_once)
    ]

-- A broadcast wakes every thread that waits, in the order in which they came, and no other.
pub st_cond_broadcast-Signalled :
    (c : ℕ) (q : List ℕ) (v : Vp)
    → Inv v
    → v.cond c ≡ some q
    → ((u : ℕ) → count u q ≤ 1)
    → Ensures (Signalled (waiting q v) v) (st_cond_broadcast c v)
unfolding st_cond_broadcast
st_cond_broadcast-Signalled c q v i e once = rw e (signal_all q v i once)
