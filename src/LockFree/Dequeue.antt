-- ===== src/LockFree/Dequeue.antt =====
-- `_st_lock_free_dequeue` takes the first thread.
use st_nvs.Base.{
  ℕ, suc, ◌+◌, ◌≤◌, ◌<◌, ◌≡◌, ◌++◌, false, Option, none, some, List, [], ◌∷◌, ◌==◌, ==→eq, ==_refl,
  arith, count, count-append, refl, Bool-cases, inl, inr, ap, sym, subst, ◌∙◌, Ensures,
}
use st_nvs.LockFree.{
  Node, Queue, pointer, store, dequeue_round, is_empty, taken, again, _st_lock_free_dequeue,
}
use st_nvs.LockFree.Chain.{
  Cell, addrs, values, next_of, value_of, Seg, IsQueue, Seg-last, Seg-out, node_of,
}

value_node :
    (o : Option Node) (x : ℕ) → value_of o ≡ some x → (n : Node) × (o ≡ some n) × (n.value ≡ x)
value_node none x e = absurd (elim_none e)
  where
    elim_none : none ≡ some x → ⊥
    elim_none e = cc
value_node (some n) x e = (n, refl, ground arith)

-- The rounds of the loop on the shapes of a queue.
round_empty :
    (n : Node) (q : Queue)
    → q.heap q.head.ptr ≡ some n
    → n.next.ptr ≡ 0
    → q.head.ptr ≡ q.tail.ptr
    → dequeue_round q ≡ some (q, is_empty)
unfolding dequeue_round
round_empty n q e end same = ground (arith, e)

abbrev swing : ℕ → Queue → Queue
swing a q = record q { tail = pointer a (q.tail.count + 1) }

round_swing :
    (a : ℕ) (n : Node) (q : Queue)
    → q.heap q.head.ptr ≡ some n
    → n.next.ptr ≡ a
    → (a == 0) ≡ false
    → (q.head.ptr == 0) ≡ false
    → q.head.ptr ≡ q.tail.ptr
    → dequeue_round q ≡ some (swing a q, again)
unfolding dequeue_round
round_swing a n q e next real head same = ground (arith, e)

abbrev advance : ℕ → Queue → Queue
advance a q = record q { head = pointer a (q.head.count + 1) }

round_take :
    (a x : ℕ) (n : Node) (m : Node) (q : Queue)
    → q.heap q.head.ptr ≡ some n
    → n.next.ptr ≡ a
    → q.heap a ≡ some m
    → m.value ≡ x
    → (q.head.ptr == 0) ≡ false
    → (q.head.ptr == q.tail.ptr) ≡ false
    → dequeue_round q ≡ some (advance a q, taken x q.head.ptr)
unfolding dequeue_round
round_take a x n m q e next e' value head apart = ground (arith, e, e', next, value)

abbrev freed : ℕ → Queue → Queue
freed a q = record (advance a q) { heap = store q.head.ptr none q.heap }

-- What a call comes to: an empty queue is left alone, and otherwise the first thread leaves, and
-- with it the old dummy node.
abbrev pub Dequeued : Queue → List ℕ → Queue × Option ℕ → Type 0
Dequeued q [] r = (r.0 ≡ q) × (r.1 ≡ none)
Dequeued q (x ∷ xs) r = (r.1 ≡ some x) × IsQueue (r.0) xs × ((r.0).heap q.head.ptr ≡ none)

off_list : (a b : ℕ) (l : List ℕ) → 0 < count a l → count b l ≡ 0 → (a == b) ≡ false
off_list a b l on out = elim (Bool-cases (a == b)) [
  | inl same ↦ absurd (omega (arith, on, out, ap (λ x. count x l) (==→eq a b same)))
  | inr other ↦ other
]

-- The parts of a queue whose tail is not its dummy node.
record Ahead (q : Queue) (c : Cell) (before behind : List Cell) (last : ℕ) : Type 0 where
  to_tail : Seg q.heap q.head.ptr (c ∷ before) q.tail.ptr
  from_tail : Seg q.heap q.tail.ptr behind last
  ends : next_of (q.heap last) ≡ some 0
  apart : (a : ℕ) → count a (q.head.ptr ∷ addrs (c ∷ before) ++ addrs behind) ≤ 1
  not_null : count 0 (q.head.ptr ∷ addrs (c ∷ before) ++ addrs behind) ≡ 0

front_apart :
    (q : Queue) (c : Cell) (before behind : List Cell) (last : ℕ)
    → Ahead q c before behind last
    → (count q.head.ptr (c.addr ∷ addrs before) ≡ 0) × (count q.head.ptr (addrs behind) ≡ 0)
front_apart q c before behind last w =
    let sum = count-append q.head.ptr (c.addr ∷ addrs before) (addrs behind) in
    (ground (arith, w.apart q.head.ptr, sum), ground (arith, w.apart q.head.ptr, sum))

tail_apart :
    (q : Queue) (c : Cell) (before behind : List Cell) (last : ℕ)
    → Ahead q c before behind last
    → (q.tail.ptr == q.head.ptr) ≡ false
tail_apart q c before behind last w =
    off_list q.tail.ptr q.head.ptr (c.addr ∷ addrs before)
      (Seg-last q.heap c.addr q.tail.ptr before w.to_tail.2)
      (front_apart q c before behind last w).0

freed-IsQueue :
    (q : Queue) (c : Cell) (before behind : List Cell) (last : ℕ)
    → Ahead q c before behind last
    → IsQueue (freed c.addr q) (values before ++ values behind)
freed-IsQueue q c before behind last w =
    let old = q.head.ptr in
    let g = (freed c.addr q).heap in
    let same : (b : ℕ) → (b == old) ≡ false → g b ≡ q.heap b = λ b ne. rw ne in
    let (out_front, out_behind) = front_apart q c before behind last w in
    let tail_off = tail_apart q c before behind last w in
    let out_tail : count old (q.tail.ptr ∷ addrs behind) ≡ 0 =
      ground (arith, tail_off, out_behind) in
    let last_off =
      off_list last old (q.tail.ptr ∷ addrs behind)
        (Seg-last q.heap q.tail.ptr last behind w.from_tail) out_tail in
    record {
      before = before;
      behind = behind;
      last = last;
      to_tail = Seg-out q.heap g old c.addr q.tail.ptr before w.to_tail.2 out_front same;
      from_tail = Seg-out q.heap g old q.tail.ptr last behind w.from_tail out_tail same;
      ends = rw last_off w.ends;
      apart = λ a. ground (arith, w.apart a);
      not_null = ground (arith, w.not_null);
      holds = refl;
    }

Ahead-Dequeued :
    (fuel : ℕ) (q : Queue) (c : Cell) (before behind : List Cell) (last : ℕ)
    → Ahead q c before behind last
    → Ensures
        (λ r.
          (r.1 ≡ some c.thread)
          × IsQueue (r.0) (values before ++ values behind)
          × ((r.0).heap q.head.ptr ≡ none))
        (_st_lock_free_dequeue (suc fuel) q)
unfolding _st_lock_free_dequeue
Ahead-Dequeued fuel q c before behind last w =
    let (n, e, next) = node_of (q.heap q.head.ptr) c.addr w.to_tail.0 in
    let (m, e', value) = value_node (q.heap c.addr) c.thread w.to_tail.1 in
    let real : (q.head.ptr == 0) ≡ false = ground (arith, w.not_null) in
    let other : (q.head.ptr == q.tail.ptr) ≡ false =
      ground (arith, tail_apart q c before behind last w) in
    rw (round_take c.addr c.thread n m q e next e' value real other)
      (refl, freed-IsQueue q c before behind last w, rw (==_refl q.head.ptr) refl)

-- The dummy is the tail, and a cell is linked behind it: a round moves the tail, the next one takes.
behind-Dequeued :
    (fuel : ℕ) (q : Queue) (c : Cell) (behind : List Cell) (last : ℕ)
    → q.head.ptr ≡ q.tail.ptr
    → Ahead (swing c.addr q) c [] behind last
    → Ensures
        (λ r.
          (r.1 ≡ some c.thread) × IsQueue (r.0) (values behind) × ((r.0).heap q.head.ptr ≡ none))
        (_st_lock_free_dequeue (suc (suc fuel)) q)
unfolding _st_lock_free_dequeue
behind-Dequeued fuel q c behind last same w =
    let (n, e, next) = node_of (q.heap q.head.ptr) c.addr w.to_tail.0 in
    rw
      (round_swing c.addr n q e next (ground (arith, w.not_null)) (ground (arith, w.not_null)) same)
      (Ahead-Dequeued fuel (swing c.addr q) c [] behind last w)

dequeue_cells :
    (fuel : ℕ) (q : Queue) (before behind : List Cell) (last : ℕ)
    → Seg q.heap q.head.ptr before q.tail.ptr
    → Seg q.heap q.tail.ptr behind last
    → next_of (q.heap last) ≡ some 0
    → ((a : ℕ) → count a (q.head.ptr ∷ addrs before ++ addrs behind) ≤ 1)
    → count 0 (q.head.ptr ∷ addrs before ++ addrs behind) ≡ 0
    → Ensures
        (Dequeued q (values before ++ values behind))
        (_st_lock_free_dequeue (suc (suc fuel)) q)
dequeue_cells fuel q [] [] last t f e apart nn =
    let (n, e', end) = node_of (q.heap q.head.ptr) 0 (ap (λ a. next_of (q.heap a)) (t ∙ f) ∙ e) in
    unfold _st_lock_free_dequeue in rw (round_empty n q e' end t) (refl, refl)
dequeue_cells fuel q [] (c ∷ behind) last t f e apart nn =
    behind-Dequeued fuel q c behind last t (record {
      to_tail = (ap (λ a. next_of (q.heap a)) t ∙ f.0, f.1, refl);
      from_tail = f.2;
      ends = e;
      apart = apart;
      not_null = nn;
    })
dequeue_cells fuel q (c ∷ before) behind last t f e apart nn =
    Ahead-Dequeued (suc fuel) q c before behind last
      (record { to_tail = t; from_tail = f; ends = e; apart = apart; not_null = nn })

-- Two rounds are enough: an empty queue is left as it is and yields nothing, and from any other the
-- first thread is taken, the old dummy freed, and the rest stays in order.
pub _st_lock_free_dequeue-Dequeued :
    (fuel : ℕ) (q : Queue) (xs : List ℕ)
    → IsQueue q xs
    → Ensures (Dequeued q xs) (_st_lock_free_dequeue (suc (suc fuel)) q)
_st_lock_free_dequeue-Dequeued fuel q xs i =
    subst (λ l. Ensures (Dequeued q l) (_st_lock_free_dequeue (suc (suc fuel)) q)) (sym i.holds)
      (dequeue_cells fuel q i.before i.behind i.last i.to_tail i.from_tail i.ends i.apart
        i.not_null)
