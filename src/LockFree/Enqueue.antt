-- ===== src/LockFree/Enqueue.antt =====
-- `_st_lock_free_enqueue` appends.
use mathlib.Core.List.{append-nil}
use st_nvs.Base.{
  ℕ, zero, suc, ◌+◌, ◌≤◌, ◌<◌, ◌≡◌, ◌++◌, true, false, none, some, List, [], ◌∷◌, ◌==◌, ==→eq,
  ==_refl, arith, count, count-append, refl, Bool-cases, inl, inr, ap, sym, subst, ◌∙◌, length,
  Ensures, Ensures-mono,
}
use st_nvs.LockFree.{
  Node, Queue, pointer, store, enqueue_round, enqueue_loop, _st_lock_free_enqueue,
}
use st_nvs.LockFree.Chain.{
  Cell, cell, addrs, values, next_of, value_of, Seg, IsQueue, Seg-last, Seg-append, Seg-out,
  Seg-end, node_of, Queue_fresh, addrs-move, values-move,
}

-- A queue with a node that is to be linked.
record Waits (node v : ℕ) (q : Queue) (before behind : List Cell) (last : ℕ) : Type 0 where
  to_tail : Seg q.heap q.head.ptr before q.tail.ptr
  from_tail : Seg q.heap q.tail.ptr behind last
  ends : next_of (q.heap last) ≡ some 0
  apart : (a : ℕ) → count a (q.head.ptr ∷ addrs before ++ addrs behind) ≤ 1
  not_null : count 0 (q.head.ptr ∷ addrs before ++ addrs behind) ≡ 0
  value : value_of (q.heap node) ≡ some v
  next : next_of (q.heap node) ≡ some 0
  fresh : count node (q.head.ptr ∷ addrs before ++ addrs behind) ≡ 0
  real : (node == 0) ≡ false

abbrev link : ℕ → Node → Queue → Queue
link node n q = record q {
  heap = store q.tail.ptr (some (record n { next = pointer node (n.next.count + 1) })) q.heap;
}

abbrev swing : ℕ → Queue → Queue
swing a q = record q { tail = pointer a (q.tail.count + 1 + 1) }

round_link :
    (node : ℕ) (n : Node) (q : Queue)
    → q.heap q.tail.ptr ≡ some n
    → n.next.ptr ≡ 0
    → enqueue_round node q ≡ some (link node n q, true)
unfolding enqueue_round
round_link node n q e end = ground (arith, e)

round_swing :
    (node a : ℕ) (n : Node) (q : Queue)
    → q.heap q.tail.ptr ≡ some n
    → n.next.ptr ≡ a
    → (a == 0) ≡ false
    → enqueue_round node q ≡ some (swing a q, false)
unfolding enqueue_round
round_swing node a n q e next real = ground (arith, e)

link-IsQueue :
    (node v last : ℕ) (n : Node) (q : Queue) (before : List Cell)
    → Waits node v q before [] last
    → q.heap q.tail.ptr ≡ some n
    → IsQueue (link node n q) (values before ++ v ∷ [])
link-IsQueue node v last n q before w e =
    let tail = q.tail.ptr in
    let kept : value_of ((link node n q).heap tail) ≡ value_of (q.heap tail) = ground (arith, e) in
    let there = Seg-last q.heap q.head.ptr tail before w.to_tail in
    let split : (a : ℕ)
        → count a (q.head.ptr ∷ addrs before ++ []) ≡ count a (q.head.ptr ∷ addrs before) =
      λ a. ap (count a) (append-nil (q.head.ptr ∷ addrs before)) in
    let other : (node == tail) ≡ false = elim (Bool-cases (node == tail)) [
      | inl same ↦ absurd (
          omega (
            arith,
            w.fresh,
            split node,
            there,
            ap (λ a. count a (q.head.ptr ∷ addrs before)) (==→eq node tail same),
          ))
      | inr ne ↦ ne
    ] in
    record {
      before = before;
      behind = cell node v ∷ [];
      last = node;
      to_tail =
          Seg-end q.heap (link node n q).heap q.head.ptr tail before w.to_tail
            (λ a. omega (arith, w.apart a, split a)) (λ b ne. rw ne) kept;
      from_tail = (rw (==_refl tail), rw other w.value, refl);
      ends = rw other w.next;
      apart = λ a. ground (
        arith,
        w.apart a,
        w.fresh,
        split a,
        split node,
        count-append a (q.head.ptr ∷ addrs before) (node ∷ []),
      );
      not_null = ground (
        arith,
        w.not_null,
        w.real,
        split 0,
        count-append 0 (q.head.ptr ∷ addrs before) (node ∷ []),
      );
      holds = refl;
    }

swing-Waits :
    (node v last : ℕ) (q : Queue) (before behind : List Cell) (c : Cell)
    → Waits node v q before (c ∷ behind) last
    → Waits node v (swing c.addr q) (before ++ c ∷ []) behind last
swing-Waits node v last q before behind c w = record {
  to_tail =
      Seg-append q.heap q.head.ptr q.tail.ptr c.addr before (c ∷ []) w.to_tail
        (w.from_tail.0, w.from_tail.1, refl);
  from_tail = w.from_tail.2;
  ends = w.ends;
  apart = λ a. ground (arith, w.apart a, addrs-move a before behind c);
  not_null = ground (arith, w.not_null, addrs-move 0 before behind c);
  value = w.value;
  next = w.next;
  fresh = ground (arith, w.fresh, addrs-move node before behind c);
  real = w.real;
}

enqueue_loop-IsQueue :
    (fuel node v last : ℕ) (q : Queue) (before behind : List Cell)
    → Waits node v q before behind last
    → length behind < fuel
    → Ensures
        (λ q'. IsQueue q' ((values before ++ values behind) ++ v ∷ []))
        (enqueue_loop fuel node q)
unfolding enqueue_loop
enqueue_loop-IsQueue zero node v last q before behind w enough = absurd (omega arith)
enqueue_loop-IsQueue (suc fuel) node v last q before [] w enough =
    let (n, e, end) =
      node_of (q.heap q.tail.ptr) 0 (ap (λ a. next_of (q.heap a)) w.from_tail ∙ w.ends) in
    rw (round_link node n q e end) (
      subst (λ l. IsQueue (link node n q) (l ++ v ∷ [])) (sym (append-nil (values before)))
        (link-IsQueue node v last n q before w e))
enqueue_loop-IsQueue (suc fuel) node v last q before (c ∷ behind) w enough =
    let (n, e, next) = node_of (q.heap q.tail.ptr) c.addr w.from_tail.0 in
    rw
      (round_swing node c.addr n q e next
        (ground (arith, w.not_null, count-append 0 (addrs before) (addrs (c ∷ behind)))))
      (Ensures-mono (λ q'. IsQueue q' ((values (before ++ c ∷ []) ++ values behind) ++ v ∷ []))
        (λ q'. IsQueue q' ((values before ++ values (c ∷ behind)) ++ v ∷ []))
        (enqueue_loop fuel node (swing c.addr q))
        (enqueue_loop-IsQueue fuel node v last (swing c.addr q) (before ++ c ∷ []) behind
          (swing-Waits node v last q before behind c w) (omega arith))
        (λ q'. subst (λ l. IsQueue q' (l ++ v ∷ [])) (values-move before behind c)))

abbrev allocated : ℕ → ℕ → Queue → Queue
allocated node v q = record q {
  heap = store node (some (record { value = v; next = pointer 0 0 })) q.heap;
}

off_list : (a node : ℕ) (l : List ℕ) → 0 < count a l → count node l ≡ 0 → (a == node) ≡ false
off_list a node l on out = elim (Bool-cases (a == node)) [
  | inl same ↦ absurd (omega (arith, on, out, ap (λ b. count b l) (==→eq a node same)))
  | inr other ↦ other
]

allocated-Waits :
    (node v : ℕ) (q : Queue) (xs : List ℕ)
    → (i : IsQueue q xs) → q.heap node ≡ none
    → (node == 0) ≡ false
    → Waits node v (allocated node v q) i.before i.behind i.last
allocated-Waits node v q xs i free real =
    let g = (allocated node v q).heap in
    let same : (b : ℕ) → (b == node) ≡ false → g b ≡ q.heap b = λ b ne. rw ne in
    let fresh = Queue_fresh q xs node i free in
    let sum = count-append node (q.head.ptr ∷ addrs i.before) (addrs i.behind) in
    let there = Seg-last q.heap q.head.ptr q.tail.ptr i.before i.to_tail in
    let off_tail : (q.tail.ptr == node) ≡ false =
      off_list q.tail.ptr node (q.head.ptr ∷ addrs i.before) there (omega (arith, fresh, sum)) in
    let behind_out : count node (q.tail.ptr ∷ addrs i.behind) ≡ 0 =
      ground (arith, off_tail, fresh, sum) in
    let off_last : (i.last == node) ≡ false =
      off_list i.last node (q.tail.ptr ∷ addrs i.behind)
        (Seg-last q.heap q.tail.ptr i.last i.behind i.from_tail) behind_out in
    record {
      to_tail =
          Seg-out q.heap g node q.head.ptr q.tail.ptr i.before i.to_tail (omega (arith, fresh, sum))
            same;
      from_tail = Seg-out q.heap g node q.tail.ptr i.last i.behind i.from_tail behind_out same;
      ends = rw off_last i.ends;
      apart = i.apart;
      not_null = i.not_null;
      value = ground arith;
      next = ground arith;
      fresh = fresh;
      real = real;
    }

-- With a fresh node, and more rounds than the tail is nodes behind, the loop ends, and the thread
-- stands behind all others in the queue.
pub _st_lock_free_enqueue-append :
    (fuel node thread : ℕ) (q : Queue) (xs : List ℕ)
    → (i : IsQueue q xs) → q.heap node ≡ none
    → (node == 0) ≡ false
    → length i.behind < fuel
    → Ensures (λ q'. IsQueue q' (xs ++ thread ∷ [])) (_st_lock_free_enqueue fuel node thread q)
unfolding _st_lock_free_enqueue
_st_lock_free_enqueue-append fuel node thread q xs i free real enough =
    Ensures-mono (λ q'. IsQueue q' ((values i.before ++ values i.behind) ++ thread ∷ []))
      (λ q'. IsQueue q' (xs ++ thread ∷ [])) (enqueue_loop fuel node (allocated node thread q))
      (enqueue_loop-IsQueue fuel node thread i.last (allocated node thread q) i.before i.behind
        (allocated-Waits node thread q xs i free real) enough)
      (λ q'. subst (λ l. IsQueue q' (l ++ thread ∷ [])) (sym i.holds))
