-- ===== src/Examples/Interleaved.antt =====
-- The theorems on calls of `_st_lock_free_enqueue` that run at the same time.
use st_nvs.Base.{ℕ, arith, ◌≡◌, none, some, List, [], ◌∷◌, refl, Ensures}
use st_nvs.LockFree.{Queue, pointer, store, _st_lock_free_dequeue}
use st_nvs.LockFree.Concurrent.Freed.{advance-freed}
use st_nvs.LockFree.Chain.{IsQueue, cell}
use st_nvs.LockFree.Concurrent.{has_tail, System, advance, Reach, begin, call, step}
use st_nvs.LockFree.Concurrent.Runs.{Served, Reach-Served}

-- A new queue, with its dummy node at 1.
abbrev opened : Queue
opened = record {
  heap = store 1 (some (record { value = 0; next = pointer 0 0 })) (λ a. none);
  head = pointer 1 0;
  tail = pointer 1 0;
}

opened-IsQueue : IsQueue opened []
opened-IsQueue = record {
  before = [];
  behind = [];
  last = 1;
  to_tail = refl;
  from_tail = refl;
  ends = refl;
  apart = λ a. ground arith;
  not_null = refl;
  holds = refl;
}

-- A run, as far as its accesses are to memory that is allocated.
record Run : Type 0 where
  last : System
  log : List ℕ
  reach : Reach opened last log

stepped : (i : ℕ) → Run → Run
stepped i r =
    elim (advance (r.last.pc i) r.last.queue)
        as (λ o. advance (r.last.pc i) r.last.queue ≡ o → Run) [
          | none ↦ λ e. r
          | some m ↦ λ e. record { last = _; log = _; reach = step i m r.reach e }
        ]
      refl

unfoldable run : List ℕ → Run → Run
unfolding stepped advance
run [] r = r
run (i ∷ is) r = run is (stepped i r)

-- Two calls have started: 0 with the thread 7 and the node 2, and 1 with the thread 8 and the node 3.
abbrev two_calls : Run
two_calls = record {
  last = _;
  log = _;
  reach = call 1 3 8 (call 0 2 7 begin refl refl refl) refl refl refl;
}

-- Both read the tail; 1 links its node, 0 fails, moves the tail on, and links its node behind.
abbrev raced : Run
raced =
    run
      (0 ∷ 0 ∷ 0 ∷ 0 ∷ 1 ∷ 1 ∷ 1 ∷ 1 ∷ 1 ∷ 1 ∷ 1 ∷ 0 ∷ 0 ∷ 0 ∷ 0 ∷ 0 ∷ 0 ∷ 0 ∷ 0 ∷ 0 ∷ 0 ∷ 0 ∷ 0 ∷ 0
        ∷ 0 ∷ 0 ∷ 0 ∷ 0 ∷ 0 ∷ 0 ∷ 0 ∷ 0 ∷ 1 ∷ [])
      two_calls

raced_log : raced.log ≡ 8 ∷ 7 ∷ []
unfolding run
raced_log = refl

Reach-Served_example : Served [] (8 ∷ 7 ∷ []) raced.last
unfolding run
Reach-Served_example = Reach-Served [] opened (8 ∷ 7 ∷ []) raced.last opened-IsQueue raced.reach

-- The dummy node 1 with the thread 8 in the node 3 behind it.
abbrev one_thread : Queue
one_thread = record {
  heap =
      store 1 (some (record { value = 0; next = pointer 3 1 }))
        (store 3 (some (record { value = 8; next = pointer 0 0 })) (λ a. none));
  head = pointer 1 0;
  tail = pointer 1 0;
}

one_thread-IsQueue : IsQueue one_thread (8 ∷ [])
one_thread-IsQueue = record {
  before = [];
  behind = cell 3 8 ∷ [];
  last = 3;
  to_tail = refl;
  from_tail = (refl, refl, refl);
  ends = refl;
  apart = λ a. ground arith;
  not_null = refl;
  holds = refl;
}

advance-freed_example :
    Ensures
      (λ r. advance (has_tail 2 7 (pointer 1 0)) (r.0) ≡ none)
      (_st_lock_free_dequeue 2 one_thread)
advance-freed_example = advance-freed 0 2 7 8 (pointer 1 0) one_thread [] one_thread-IsQueue refl
