-- ===== src/Machine/Fair.antt =====
-- Whether each thread gets its turn.
use mathlib.Core.List.{append_assoc}
use st_nvs.Base.{
  ℕ, ◌+◌, ◌≤◌, ◌<◌, ◌≡◌, ◌++◌, List, ◌∷◌, arith, inl, inr, ◌∙◌, ap, sym, subst, length, List-cases,
}
use st_nvs.Vp.{Vp}
use st_nvs.Machine.Dispatch
use st_nvs.Machine.Dispatch.{Runs, rest_of}
use st_nvs.Machine.Idle.{Switched}
use st_nvs.Machine.Steps.{Step, Kept, Run, here, next, Run-Runs, Step-Stepped}

-- A thread on the run queue, behind as many others as there were in `xs`, less `n`.
record Stands (n t : ℕ) (xs : List ℕ) (w : Vp) : Type 0 where
  before : List ℕ
  behind : List ℕ
  left : length before + n ≡ length xs
  queue : w.run_q ≡ before ++ t ∷ behind

Kept-Stands : (n t : ℕ) (xs : List ℕ) (w x : Vp) → Stands n t xs w → Kept w x → Stands n t xs x
Kept-Stands n t xs w x s k = record {
  before = s.before;
  behind = s.behind ++ k.added;
  left = s.left;
  queue = k.queued ∙ ap (λ q. q ++ k.added) s.queue ∙ append_assoc s.before (t ∷ s.behind) k.added;
}

Switched-Stands :
    (n t : ℕ) (xs : List ℕ) (w x : Vp)
    → n < length xs
    → Stands n t xs w
    → Switched w x
    → Stands (n + 1) t xs x
Switched-Stands n t xs w x lt s h = elim (List-cases s.before) [
  | inl e ↦ absurd (omega (arith, s.left, ap length e))
  | inr (z, zs, e) ↦ record {
    before = zs;
    behind = s.behind ++ h.added;
    left = omega (arith, s.left, ap length e);
    queue =
        h.left
        ∙ ap (λ q. rest_of (q ++ h.added)) (s.queue ∙ ap (λ q. q ++ t ∷ s.behind) e)
        ∙ append_assoc zs (t ∷ s.behind) h.added;
  }
]

Step-Stands :
    (n k t : ℕ) (xs : List ℕ) (w x : Vp)
    → n + k ≤ length xs
    → Runs w
    → Stands n t xs w
    → Step k w x
    → Stands (n + k) t xs x
Step-Stands n k t xs w x le r s st = elim (Step-Stepped k w x r st) [
  | inl (e, h) ↦ subst (λ i. Stands i t xs x) (omega (arith, e)) (Kept-Stands n t xs w x s h)
  | inr (e, h) ↦
      subst (λ i. Stands (n + i) t xs x) (sym e)
        (Switched-Stands n t xs w x (omega (arith, e, le)) s h)
]

Run-Stands :
    {v : Vp} (t : ℕ) (xs ys : List ℕ) {n : ℕ} {w : Vp}
    → Runs v
    → v.run_q ≡ xs ++ t ∷ ys
    → n ≤ length xs
    → Run v n w
    → Stands n t xs w
Run-Stands t xs ys r e le here = record { before = xs; behind = ys; left = omega arith; queue = e }
Run-Stands t xs ys r e le (next {n = n} {k = k} {w = w} {x = x} p s) =
    Step-Stands n k t xs w x le (Run-Runs r p) (Run-Stands t xs ys r e (omega (arith, le)) p) s

-- From a state in which the current thread runs and the queues are consistent, each thread that
-- is on the run queue gets its turn, whatever allowed calls the threads make: when the scheduler
-- was called as often as there are threads before it on the queue, the next call of the scheduler
-- runs it. The threads that a round of the idle thread takes from the completion queue are distinct
-- and wait.
pub _st_vp_schedule-turn :
    {v w x : Vp} (t : ℕ) (xs ys : List ℕ)
    → Runs v
    → v.run_q ≡ xs ++ t ∷ ys
    → Run v (length xs) w
    → Step 1 w x
    → x.this_thread ≡ t
_st_vp_schedule-turn {w = w} {x = x} t xs ys r e p st =
    elim (Step-Stepped 1 w x (Run-Runs r p) st) [
      | inl (bad, h) ↦ absurd (omega (arith, bad))
      | inr (one, h) ↦
          let s : Stands (length xs) t xs w = Run-Stands t xs ys r e (omega arith) p in
          elim (List-cases s.before) [
            | inl none_before ↦
                h.chosen
                ∙ ap (λ q. Dispatch.next (q ++ h.added) w.idle_thread)
                    (s.queue ∙ ap (λ q. q ++ t ∷ s.behind) none_before)
            | inr (z, zs, some_before) ↦ absurd (omega (arith, s.left, ap length some_before))
          ]
    ]
