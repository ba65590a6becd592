-- ===== src/LockFree/Concurrent/Solo.antt =====
-- A call of `_st_lock_free_enqueue` that is not interrupted: its accesses one by one, and the rounds
-- of its loop as LockFree has them.
use st_nvs.Base.{
  ℕ, zero, suc, ◌+◌, ◌%◌, ◌^◌, ◌≡◌, ◌++◌, Bool, true, false, Option, some, [], ◌∷◌, ◌==◌, ==_refl,
  refl, Bool-cases, inl, inr, ap, ◌∙◌, if◌then◌else◌, ◌>>=◌,
}
use st_nvs.LockFree.{pointer, Node, Heap, Queue, store, enqueue_round}
use st_nvs.LockFree.Concurrent.{
  Pc, top, has_tail, has_link, has_next, same_count, consistent, linked, swung, ended, Moved,
  advance, quiet,
}

-- So many accesses of one call, one after the other.
unfoldable pub solo : ℕ → Moved → Option Moved
unfolding advance
solo zero m = some m
solo (suc n) m = advance m.pc m.queue >>= λ r. solo n (record r { log = m.log ++ r.log })

abbrev pub starts : (node thread : ℕ) → Queue → Moved
starts node thread q = record { queue = q; pc = top node thread; log = [] }

abbrev pub rounded : (node thread : ℕ) → Queue × Bool → Moved
rounded node thread r = record {
  queue = r.0;
  pc = if r.1 then ended thread else top node thread;
  log = if r.1 then thread ∷ [] else [];
}

abbrev go_on : ℕ → Option Moved → Option Moved
go_on n o = o >>= λ r. solo n (record r { log = [] ++ r.log })

abbrev at_pc : Queue → Pc → Moved
at_pc q p = record { queue = q; pc = p; log = [] }

if_twice {ℓ} :
    {A : Type ℓ} (b : Bool) (x y z : A)
    → (if b then x else if b then y else z) ≡ (if b then x else z)
if_twice true x y z = refl
if_twice false x y z = refl

store_twice : (a : ℕ) (x y : Option Node) (h : Heap) → store a x (store a y h) ≡ store a x h
store_twice a x y h = λ i b. if_twice (b == a) x y (h b) i

module _ (node thread : ℕ) (q : Queue) (n : Node) where
  tail_copied :
      (q.tail.ptr == 0) ≡ false
      → q.heap q.tail.ptr ≡ some n
      → solo 8 (starts node thread q) ≡ solo 2 (at_pc q (consistent node thread q.tail n.next))
  unfolding solo advance
  tail_copied real e =
      let link_read : advance (has_tail node thread q.tail) q
          ≡ quiet q (has_link node thread q.tail n.next.ptr) =
        rw (real, e) refl in
      let next_read : advance (has_link node thread q.tail n.next.ptr) q
          ≡ quiet q (has_next node thread q.tail n.next) =
        rw (real, e) refl in
      let count_tested : advance (has_next node thread q.tail n.next) q
          ≡ quiet q (same_count node thread q.tail n.next) =
        rw (==_refl q.tail.count) refl in
      let ptr_tested : advance (same_count node thread q.tail n.next) q
          ≡ quiet q (consistent node thread q.tail n.next) =
        rw (==_refl q.tail.ptr) refl in
      ap (go_on 5) link_read
      ∙ ap (go_on 4) next_read
      ∙ ap (go_on 3) count_tested
      ∙ ap (go_on 2) ptr_tested

  abbrev relinked : ℕ → Option Node
  relinked count = some (record n { next = record { ptr = node; count = count } })

  linked_alone :
      q.heap q.tail.ptr ≡ some n
      → (n.next.ptr == 0) ≡ true
      → solo 2 (at_pc q (consistent node thread q.tail n.next))
        ≡ some (
            rounded node thread (
              record q { heap = store q.tail.ptr (relinked ((n.next.count + 1) % 2 ^ 32)) q.heap },
              true,
            ))
  unfolding solo advance
  linked_alone e end =
      let count = (n.next.count + 1) % 2 ^ 32 in
      let half : Heap = store q.tail.ptr (relinked n.next.count) q.heap in
      let half_done : Moved = record {
        queue = record q { heap = half };
        pc = linked thread q.tail.ptr count;
        log = thread ∷ [];
      } in
      let exchanged : advance (consistent node thread q.tail n.next) q ≡ some half_done =
        rw (end, e, ==_refl n.next.ptr) refl in
      let stored : advance half_done.pc half_done.queue
          ≡ quiet (record q { heap = store q.tail.ptr (relinked count) half }) (ended thread) =
        rw (==_refl q.tail.ptr) refl in
      ap (go_on 1) exchanged
      ∙ ap
          (λ (o : Option Moved).
            o >>= λ (r : Moved). some (record r { log = (thread ∷ []) ++ r.log }))
          stored
      ∙ ap (λ h. some (rounded node thread (record q { heap = h }, true)))
          (store_twice q.tail.ptr (relinked count) (relinked n.next.count) q.heap)

  swung_alone :
      (n.next.ptr == 0) ≡ false
      → solo 2 (at_pc q (consistent node thread q.tail n.next))
        ≡ some (
            rounded node thread
              (record q { tail = pointer n.next.ptr (q.tail.count + 1 + 1) }, false))
  unfolding solo advance
  swung_alone real =
      let count = (q.tail.count + 1 + 1) % 2 ^ 32 in
      let exchanged : advance (consistent node thread q.tail n.next) q
          ≡ quiet (record q { tail = record { ptr = n.next.ptr; count = q.tail.count } })
              (swung node thread count) =
        rw (real, ==_refl q.tail.ptr) refl in
      ap (go_on 1) exchanged

  -- A call that runs alone through the loop, access by access, does to the queue what the loop body does
  -- in one piece: after eight accesses it has linked its node and ended, or has moved the tail one
  -- node on and is back at the top.
  pub solo-enqueue_round :
      (q.tail.ptr == 0) ≡ false
      → q.heap q.tail.ptr ≡ some n
      → solo 8 (starts node thread q) ≡ (enqueue_round node q >>= λ r. some (rounded node thread r))
  unfolding enqueue_round
  solo-enqueue_round real e = tail_copied real e ∙ elim (Bool-cases (n.next.ptr == 0)) [
    | inl end ↦
        linked_alone e end
        ∙ rw (e, end, ==_refl q.tail.count, ==_refl q.tail.ptr, ==_refl n.next.ptr) refl
    | inr more ↦ swung_alone more ∙ rw (e, more, ==_refl q.tail.count, ==_refl q.tail.ptr) refl
  ]
