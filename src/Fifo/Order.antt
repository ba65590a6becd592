-- ===== src/Fifo/Order.antt =====
-- The stack of cells is last in, first out.
use st_nvs.Base.{
  ℕ, suc, ◌+◌, ◌%◌, ◌^◌, ◌≤◌, ◌≡◌, true, false, some, List, [], ◌∷◌, ◌==◌, ==_refl, if◌then◌else◌,
  Ensures, Ensures-mono, arith, count, refl, Bool-cases, inl, inr, ap,
}
use st_nvs.Fifo.{Fifo, push_round, pop_round, st_stack_push, st_stack_pop}

-- From `p` the links lead through the cells to the end.
abbrev pub Links : (ℕ → ℕ) → ℕ → List ℕ → Type 0
Links next p [] = p ≡ 0
Links next p (c ∷ cs) = (p ≡ c) × Links next (next c) cs

-- What the stack holds, from the top.
pub record Holds (fp : Fifo) (cs : List ℕ) : Type 0 where
  pub links : Links fp.next fp.top cs
  pub apart : (c : ℕ) → count c (0 ∷ cs) ≤ 1

Links-other :
    (next : ℕ → ℕ) (a b p : ℕ) (cs : List ℕ)
    → Links next p cs
    → count a cs ≡ 0
    → Links (λ c. if c == a then b else next c) p cs
Links-other next a b p [] l off = l
Links-other next a b p (c ∷ cs) l off =
    let other : (c == a) ≡ false = ground arith in
    (l.0, rw other (Links-other next a b (next c) cs l.1 (ground arith)))

-- What one round makes of the stack.
abbrev pushed : ℕ → Fifo → Fifo
pushed cl fp = record {
  top = cl;
  seq = (fp.seq + 1) % 2 ^ 32;
  next = λ c. if c == cl then fp.top else fp.next c;
}

push_round_lem : (cl : ℕ) (fp : Fifo) → push_round cl fp ≡ (pushed cl fp, true)
unfolding push_round
push_round_lem cl fp = rw (==_refl fp.seq, ==_refl cl, ==_refl fp.top) refl

push_lem : (fuel cl : ℕ) (fp : Fifo) → st_stack_push (suc fuel) cl fp ≡ some (pushed cl fp)
unfolding st_stack_push
push_lem fuel cl fp =
    rw (push_round_lem cl fp, st_stack_push) (ap (λ r. some (r.0)) (push_round_lem cl fp))

abbrev pulled : Fifo → Fifo
pulled fp = record fp { top = fp.next fp.top; seq = (fp.seq + 1) % 2 ^ 32 }

pop_round_lem : (fp : Fifo) → (fp.seq == 0) ≡ false → pop_round fp ≡ (pulled fp, true)
unfolding pop_round
pop_round_lem fp seq = rw (seq, ==_refl fp.seq, ==_refl fp.top) refl

-- At the sequence number 0 a round only counts it up.
pop_round_at_0 :
    (fp : Fifo)
    → (fp.seq == 0) ≡ true
    → pop_round fp ≡ (record fp { seq = (fp.seq + 1) % 2 ^ 32 }, false)
unfolding pop_round
pop_round_at_0 fp seq = rw (seq, ==_refl fp.seq) refl

pop_lem :
    (fuel : ℕ) (fp : Fifo)
    → (fp.top == 0) ≡ false
    → (fp.seq == 0) ≡ false
    → st_stack_pop (suc fuel) fp ≡ some (pulled fp, fp.top)
unfolding st_stack_pop
pop_lem fuel fp full seq =
    rw (full, pop_round_lem fp seq, st_stack_pop)
      (ap (λ r. some (r.0, fp.top)) (pop_round_lem fp seq))

pop_retry :
    (fuel : ℕ) (fp : Fifo)
    → (fp.top == 0) ≡ false
    → (fp.seq == 0) ≡ true
    → st_stack_pop (suc fuel) fp ≡ st_stack_pop fuel (record fp { seq = (fp.seq + 1) % 2 ^ 32 })
unfolding st_stack_pop
pop_retry fuel fp full seq =
    rw (full, pop_round_at_0 fp seq, st_stack_pop)
      (ap (λ r. st_stack_pop fuel (r.0)) (pop_round_at_0 fp seq))

-- What popping does, whatever the sequence number is.
abbrev Pulled : Fifo → Fifo × ℕ → Type 0
Pulled fp r = (r.1 ≡ fp.top) × ((r.0).top ≡ fp.next fp.top) × ((r.0).next ≡ fp.next)

pop-Pulled :
    (fuel : ℕ) (fp : Fifo)
    → (fp.top == 0) ≡ false
    → Ensures (Pulled fp) (st_stack_pop (suc (suc fuel)) fp)
pop-Pulled fuel fp full = elim (Bool-cases (fp.seq == 0)) [
  | inr seq ↦ rw (pop_lem (suc fuel) fp full seq) (refl, refl, refl)
  | inl zero_seq ↦
      let fp' = record fp { seq = (fp.seq + 1) % 2 ^ 32 } in
      let seq : (fp'.seq == 0) ≡ false = ground (arith, zero_seq) in
      rw (pop_retry (suc fuel) fp full zero_seq, pop_lem fuel fp' full seq) (refl, refl, refl)
]

push-Holds :
    (cl : ℕ) (fp : Fifo) (cs : List ℕ)
    → Holds fp cs
    → count cl (0 ∷ cs) ≡ 0
    → Holds (pushed cl fp) (cl ∷ cs)
push-Holds cl fp cs h off = record {
  links = (refl, rw (==_refl cl) (Links-other fp.next cl fp.top fp.top cs h.links (ground arith)));
  apart = λ c. ground (arith, h.apart c, off);
}

-- A cell that is not on the stack is put on top of it in one round, and two rounds take it off
-- again, even at the sequence number 0, at which a round of `st_stack_pop` is lost: what was on
-- the stack is on it in the same order.
pub st_stack_pop-st_stack_push :
    (fuel cl : ℕ) (fp : Fifo) (cs : List ℕ)
    → Holds fp cs
    → count cl (0 ∷ cs) ≡ 0
    → Ensures
        (λ fp'.
          Holds fp' (cl ∷ cs)
          × Ensures (λ r. (r.1 ≡ cl) × Holds (r.0) cs) (st_stack_pop (suc (suc fuel)) fp'))
        (st_stack_push (suc fuel) cl fp)
st_stack_pop-st_stack_push fuel cl fp cs h off =
    let full : (cl == 0) ≡ false = ground (arith, off) in
    let on : Holds (pushed cl fp) (cl ∷ cs) = push-Holds cl fp cs h off in
    rw (push_lem fuel cl fp) (
      on,
      Ensures-mono (Pulled (pushed cl fp)) (λ r. (r.1 ≡ cl) × Holds (r.0) cs)
          (st_stack_pop (suc (suc fuel)) (pushed cl fp)) (pop-Pulled fuel (pushed cl fp) full)
          (λ r p. (p.0, record { links = rw (p.1, p.2) on.links.1; apart = h.apart })),
    )
