-- ===== src/Machine/Alone.antt =====
-- One thread runs at a time.
use st_nvs.Base.{ℕ, ◌+◌, ◌≡◌, true, false, ◌==◌}
use st_nvs.Vp.{Vp, is_running}
use st_nvs.Machine.Dispatch.{Runs}
use st_nvs.Machine.Calls.{Gone}
use st_nvs.Machine.Steps.{Step, Run, next}

-- Between two states a thread has exited and gone for good, in a step in which it was the current one.
pub record Departed (u : ℕ) (v w : Vp) : Type 0 where
  pub before : ℕ
  pub turns : ℕ
  pub after : ℕ
  pub from : Vp
  pub into : Vp
  pub first : Run v before from
  pub leaves : Step turns from into
  pub last : Run into after w
  pub was : from.this_thread ≡ u
  pub gone : Gone from into

-- A thread is the current one, or is not marked as running, or has gone.
pub data Accounted (u : ℕ) (v w : Vp) : Type 0 where
  current : (u == w.this_thread) ≡ true → Accounted u v w
  quiet : is_running (w.thread u).state ≡ false → Accounted u v w
  departed : Departed u v w → Accounted u v w

later : (u k : ℕ) (v w x : Vp) → Step k w x → Departed u v w → Departed u v x
later u k v w x s d = record {
  before = d.before;
  turns = d.turns;
  after = d.after + k;
  from = d.from;
  into = d.into;
  first = d.first;
  leaves = d.leaves;
  last = next d.last s;
  was = d.was;
  gone = d.gone;
}

-- What is said of a state that a run reaches, and of a thread in it.
pub record Alone (u : ℕ) (v w : Vp) : Type 0 where
  pub runs : Runs w
  pub alone : Accounted u v w
