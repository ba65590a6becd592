-- ===== src/Proto/Queue.antt =====
-- The references that the queue of messages holds.
use st_nvs.Base.{
  ℕ, ◌+◌, ◌-◌, ◌%◌, ◌^◌, ◌≤◌, ◌<◌, ◌≡◌, false, some, List, [], ◌∷◌, ◌++◌, ◌==◌, ◌>>=◌, Ensures,
  Ensures-bind, Ensures-mono, arith, count, refl, ap, ◌∙◌,
}
use st_nvs.Proto.{Refs, set_ref, add, release, push, push_all, release_all, clear, backup}

-- Every message has a reference for each time that it stands in the list.
abbrev pub Holds : List ℕ → Refs → Type 0
Holds ms refs = (m : ℕ) → count m ms ≤ refs m

-- The counts without those of the list.
abbrev pub Dropped : List ℕ → (before after : Refs) → Type 0
Dropped ms before after = (m : ℕ) → after m ≡ before m - count m ms

release_all-Dropped :
    (ms : List ℕ) (refs : Refs) → Holds ms refs → Ensures (Dropped ms refs) (release_all ms refs)
unfolding release_all release
release_all-Dropped [] refs h = λ m. omega arith
release_all-Dropped (n ∷ ms) refs h =
    let held : (refs n == 0) ≡ false = ground (arith, h n) in
    let refs' = set_ref n (refs n - 1) refs in
    rw (held, release_all, release, ◌>>=◌)
      (Ensures-mono (Dropped ms refs') (Dropped (n ∷ ms) refs) (release_all ms refs')
        (release_all-Dropped ms refs' (λ m. ground (arith, h m))) (λ r d m. ground (arith, d m)))

-- What sending messages leaves: the queue with them behind, one more reference to each.
pub record Pushed (ms q : List ℕ) (refs : Refs) (r : List ℕ × Refs) : Type 0 where
  pub queue : r.0 ≡ q ++ ms
  pub counts : (m : ℕ) → (r.1) m ≡ refs m + count m ms

append_cons : (q : List ℕ) (m : ℕ) (ms : List ℕ) → (q ++ m ∷ []) ++ ms ≡ q ++ m ∷ ms
append_cons [] m ms = refl
append_cons (x ∷ q) m ms = ap (λ l. x ∷ l) (append_cons q m ms)

append_nil : (q : List ℕ) → q ≡ q ++ []
append_nil [] = refl
append_nil (x ∷ q) = ap (λ l. x ∷ l) (append_nil q)

push_all-Pushed :
    (ms q : List ℕ) (refs : Refs)
    → ((m : ℕ) → 0 < count m ms → 0 < refs m)
    → ((m : ℕ) → refs m + count m ms < 2 ^ 32)
    → Ensures (Pushed ms q refs) (push_all ms q refs)
unfolding push_all push add
push_all-Pushed [] q refs alive small = record { queue = append_nil q; counts = λ m. omega arith }
push_all-Pushed (n ∷ ms) q refs alive small =
    let live : (refs n == 0) ≡ false = ground (arith, alive n) in
    let refs' = set_ref n ((refs n + 1) % 2 ^ 32) refs in
    rw (live, push_all, push, add, ◌>>=◌)
      (Ensures-mono (Pushed ms (q ++ n ∷ []) refs') (Pushed (n ∷ ms) q refs)
        (push_all ms (q ++ n ∷ []) refs')
        (push_all-Pushed ms (q ++ n ∷ []) refs' (λ m on. ground (arith, alive m, small m))
          (λ m. ground (arith, small m)))
        (λ r p. record {
          queue = p.queue ∙ append_cons q n ms;
          counts = λ m. ground (arith, p.counts m, small m);
        }))

-- The messages that were queued stand in the vector, in order, and the queue is empty.
pub record BackedUp (vec ms : List ℕ) (refs : Refs) (r : (List ℕ × List ℕ) × Refs) : Type 0 where
  pub taken : r.0.0 ≡ vec ++ ms
  pub emptied : r.0.1 ≡ []
  pub counts : (m : ℕ) → (r.1) m ≡ refs m

-- Clearing a queue that holds its references gives back exactly one for each message in it, and so
-- deletes those messages to which nobody else has a reference.
pub clear-Dropped :
    (ms : List ℕ) (refs : Refs)
    → Holds ms refs
    → Ensures (λ r. (r.0 ≡ []) × Dropped ms refs (r.1)) (clear ms refs)
unfolding clear
clear-Dropped ms refs h =
    Ensures-bind (Dropped ms refs) (λ r. (r.0 ≡ []) × Dropped ms refs (r.1)) (release_all ms refs)
      (λ refs'. some ([], refs')) (release_all-Dropped ms refs h) (λ refs' d. (refl, d))

backup-BackedUp :
    (vec ms : List ℕ) (refs : Refs) (pushed : List ℕ × Refs)
    → Pushed ms [] refs pushed
    → Ensures (BackedUp vec ms refs) (backup vec (pushed.0) (pushed.1))
unfolding backup
backup-BackedUp vec ms refs pushed p =
    let queue : pushed.0 ≡ ms = p.queue in
    let held : Holds (pushed.0) (pushed.1) = λ m. ground (arith, p.counts m, ap (count m) queue) in
    Ensures-bind (λ r. (r.0 ≡ []) × Dropped (pushed.0) (pushed.1) (r.1)) (BackedUp vec ms refs)
      (clear (pushed.0) (pushed.1)) (λ r. some ((vec ++ pushed.0, r.0), r.1))
      (clear-Dropped (pushed.0) (pushed.1) held)
      (λ r d. record {
        taken = ap (λ l. vec ++ l) queue;
        emptied = d.0;
        counts = λ m. ground (arith, d.1 m, p.counts m, ap (count m) queue);
      })

-- Messages that are queued one after the other and then taken over stand in the vector in the order
-- of the calls, no call touches a deleted message, and all counts are what they were before: the
-- queue keeps no reference, and the vector has none but those of the callers.
pub backup-push_all :
    (vec ms : List ℕ) (refs : Refs)
    → ((m : ℕ) → 0 < count m ms → 0 < refs m)
    → ((m : ℕ) → refs m + count m ms < 2 ^ 32)
    → Ensures (BackedUp vec ms refs) (push_all ms [] refs >>= λ r. backup vec (r.0) (r.1))
backup-push_all vec ms refs alive small =
    Ensures-bind (Pushed ms [] refs) (BackedUp vec ms refs) (push_all ms [] refs)
      (λ r. backup vec (r.0) (r.1)) (push_all-Pushed ms [] refs alive small)
      (λ r p. backup-BackedUp vec ms refs r p)
