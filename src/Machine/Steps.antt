-- ===== src/Machine/Steps.antt =====
-- The steps of the processor and what every run of them keeps.
use st_nvs.Base.{
  ℕ, ◌+◌, ◌≡◌, ◌++◌, ◌⊎◌, Bool, true, false, Option, some, List, ◌==◌, Ensures, inl, inr, refl, ◌∙◌,
  ap, subst,
}
use st_nvs.Vp.{Vp, is_running, is_runnable, returns, switches, Ret}
use st_nvs.Sched.{_st_vp_schedule}
use st_nvs.Thread.Completion.{AllWait}
use st_nvs.Machine.{Action, act, idle_round}
use st_nvs.Machine.Dispatch.{Runs}
use st_nvs.Machine.Calls.{Outcome, Calls}
use st_nvs.Machine.Idle.{Switched, Handover, Handover-Switched, idle_round-Switched}
use st_nvs.Machine.Acts.{Allowed, act-Outcome}

-- What a step without a switch leaves: the thread goes on, no other begins to run, and the threads
-- that the step has made runnable were added at the end of the queue.
pub record Kept (v w : Vp) : Type 0 where
  pub runs : Runs w
  pub this_thread : w.this_thread ≡ v.this_thread
  pub idle : w.idle_thread ≡ v.idle_thread
  pub others :
      (u : ℕ)
      → (u == v.this_thread) ≡ false
      → is_running (v.thread u).state ≡ false
      → is_running (w.thread u).state ≡ false
  pub added : List ℕ
  pub queued : w.run_q ≡ v.run_q ++ added

abbrev pub Stepped : Vp → Vp → Type 0
Stepped v w = Kept v w ⊎ Switched v w

Outcome-Kept : (v w : Vp) (r : Ret) → Calls v → Outcome v (w, returns r) → Kept v w
Outcome-Kept v w r c o = record {
  runs = record {
    inv = o.inv;
    runs = ap (λ t. is_running (w.thread t).state) o.this_thread ∙ o.runs refl;
    spare = λ _. ap (λ t. is_runnable (w.thread t).state) o.idle ∙ o.spare;
  };
  this_thread = o.this_thread;
  idle = o.idle;
  others = o.others;
  added = o.added;
  queued = o.queued;
}

Outcome-Handover : (v w : Vp) → Outcome v (w, switches) → Handover v w
Outcome-Handover v w o = record {
  parted = record {
    inv = o.inv;
    spare = ap (λ t. is_runnable (w.thread t).state) o.idle ∙ o.spare;
  };
  idle = o.idle;
  stops = o.stops refl;
  others = o.others;
  added = o.added;
  queued = o.queued;
}

-- One step of the processor, with the number of its calls of the scheduler: a call that returns, a
-- call that gives up the processor, or a round of the idle thread.
pub data Step (turns : ℕ) (v w : Vp) : Type 0 where
  returned :
      (a : Action) (r : Ret)
      → (v.this_thread == v.idle_thread) ≡ false
      → Allowed a v
      → act a v ≡ some (w, returns r)
      → turns ≡ 0
      → Step turns v w
  parted :
      (a : Action) (u : Vp)
      → (v.this_thread == v.idle_thread) ≡ false
      → Allowed a v
      → act a v ≡ some (u, switches)
      → _st_vp_schedule u ≡ some w
      → turns ≡ 1
      → Step turns v w
  round :
      (signalled : Bool) (completed : List ℕ) (now time : ℕ)
      → (v.this_thread == v.idle_thread) ≡ true
      → AllWait completed v
      → idle_round signalled completed now time v ≡ some w
      → turns ≡ 1
      → Step turns v w

-- The runs of the processor from a state, with the number of calls of the scheduler.
pub data Run (v : Vp) : ℕ → Vp → Type 0 where
  here : Run v 0 v
  next : {n k : ℕ} {w x : Vp} → Run v n w → Step k w x → Run v (n + k) x

ensured {ℓ} : {A : Type ℓ} (P : A → Type 0) (m : Option A) (a : A) → m ≡ some a → Ensures P m → P a
ensured P m a e h = subst (Ensures P) e h

calls : (v : Vp) → Runs v → (v.this_thread == v.idle_thread) ≡ false → Calls v
calls v r away = record { runs = r; away = away }

-- A step without a call of the scheduler leaves the thread running; another switches.
pub Step-Stepped :
    (k : ℕ) (v w : Vp) → Runs v → Step k v w → ((k ≡ 0) × Kept v w) ⊎ ((k ≡ 1) × Switched v w)
Step-Stepped k v w r (returned a x away h e zero) =
    let c = calls v r away in
    inl (
      zero,
      Outcome-Kept v w x c (ensured (Outcome v) (act a v) (w, returns x) e (act-Outcome a v c h)),
    )
Step-Stepped k v w r (parted a u away h e e' one) =
    let c = calls v r away in
    inr (
      one,
      ensured (Switched v) (_st_vp_schedule u) w e' (
          Handover-Switched v u (
            Outcome-Handover v u
              (ensured (Outcome v) (act a v) (u, switches) e (act-Outcome a v c h)))),
    )
Step-Stepped k v w r (round signalled completed now time me a e one) = inr (
  one,
  ensured (Switched v) (idle_round signalled completed now time v) w e
      (idle_round-Switched signalled completed now time v r me a),
)

pub Step-Runs : (k : ℕ) (v w : Vp) → Runs v → Step k v w → Runs w
Step-Runs k v w r s = elim (Step-Stepped k v w r s) [ inl (e, h) ↦ h.runs | inr (e, h) ↦ h.runs ]

-- Every run from a state in which the current thread runs and the queues are consistent leads to such
-- states only.
pub Run-Runs : {v : Vp} {n : ℕ} {w : Vp} → Runs v → Run v n w → Runs w
Run-Runs r here = r
Run-Runs r (next {k = k} {w = w} {x = x} p s) = Step-Runs k w x (Run-Runs r p) s
