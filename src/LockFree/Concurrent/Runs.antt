-- ===== src/LockFree/Concurrent/Runs.antt =====
-- What concurrent calls of `_st_lock_free_enqueue` leave of the queue.
use mathlib.Core.List.{append-nil, map-append}
use st_nvs.Base.{
  ℕ, ◌<◌, ◌≡◌, ◌++◌, List, [], ◌∷◌, arith, count, count-append, refl, ap, sym, subst, ◌∙◌, Ensures,
  Ensures-mono,
}
use st_nvs.LockFree.{Queue}
use st_nvs.LockFree.Chain.{IsQueue, Cell, addrs, values, Seg-last, Seg-append}
use st_nvs.LockFree.Concurrent.{ended, advance, System, moved, Reach, begin, call, step, at_rest}
use st_nvs.LockFree.Concurrent.Own.{Own, Inv}
use st_nvs.LockFree.Concurrent.Links.{Seg-Cut}
use st_nvs.LockFree.Concurrent.Linked.{call-Inv}
use st_nvs.LockFree.Concurrent.Steps.{advance-Good}

-- A queue at rest is a chain without calls.
begin-Inv : (xs : List ℕ) (q : Queue) → IsQueue q xs → Inv xs [] (at_rest q)
begin-Inv xs q r =
    let joined : (a : ℕ)
        → count a (q.head.ptr ∷ addrs (r.before ++ r.behind))
          ≡ count a (q.head.ptr ∷ addrs r.before ++ addrs r.behind) =
      λ a.
        ap (λ l. count a (q.head.ptr ∷ l)) (map-append (λ (c : Cell). c.addr) r.before r.behind) in
    let there = Seg-last q.heap q.head.ptr q.tail.ptr r.before r.to_tail in
    record {
      cells = r.before ++ r.behind;
      last = r.last;
      path = Seg-append q.heap q.head.ptr q.tail.ptr r.last r.before r.behind r.to_tail r.from_tail;
      ends = r.ends;
      apart = λ a. omega (arith, joined a, r.apart a);
      not_null = joined 0 ∙ r.not_null;
      holds =
          map-append (λ (c : Cell). c.thread) r.before r.behind ∙ sym r.holds ∙ sym (append-nil xs);
      tail = omega (
        arith,
        joined q.tail.ptr,
        there,
        count-append q.tail.ptr (q.head.ptr ∷ addrs r.before) (addrs r.behind),
      );
      own = λ i. tt;
      alone = λ i j ne real. absurd (ground (arith, real));
    }

pub Reach-Inv :
    (xs : List ℕ) (q : Queue) (log : List ℕ) (s : System)
    → IsQueue q xs
    → Reach q s log
    → Inv xs log s
Reach-Inv xs q log s r begin = begin-Inv xs q r
Reach-Inv xs q log s r (call i node thread before rests free real) =
    call-Inv xs log _ (Reach-Inv xs q log _ r before) i node thread rests free real
Reach-Inv xs q log s r (step {s = s'} {log = log'} i m before e) =
    let inv = Reach-Inv xs q log' s' r before in
    subst (λ o. Ensures (λ m. Inv xs (log' ++ m.log) (moved i m s')) o) e
      (advance-Good xs log' s' inv i (s'.pc i) refl (inv.own i))

-- What is there after any steps of the calls.
pub record Served (xs log : List ℕ) (s : System) : Type 0 where
  pub queue : IsQueue s.queue (xs ++ log)
  pub safe : (i : ℕ) → Ensures (λ m. Unit) (advance (s.pc i) s.queue)
  pub logged : (i t : ℕ) → s.pc i ≡ ended t → 0 < count t log

Inv-Served : (xs log : List ℕ) (s : System) → Inv xs log s → Served xs log s
Inv-Served xs log s inv =
    let cut =
      Seg-Cut s.queue.heap s.queue.head.ptr s.queue.tail.ptr inv.last inv.cells inv.path inv.tail in
    let joined : (a : ℕ)
        → count a (s.queue.head.ptr ∷ addrs cut.before ++ addrs cut.behind)
          ≡ count a (s.queue.head.ptr ∷ addrs inv.cells) =
      λ a.
        ap (λ l. count a (s.queue.head.ptr ∷ l))
          (sym (map-append (λ (c : Cell). c.addr) cut.before cut.behind) ∙ ap addrs cut.whole) in
    record {
      queue = record {
        before = cut.before;
        behind = cut.behind;
        last = inv.last;
        to_tail = cut.to_mid;
        from_tail = cut.from_mid;
        ends = inv.ends;
        apart = λ a. omega (arith, joined a, inv.apart a);
        not_null = joined 0 ∙ inv.not_null;
        holds =
            sym inv.holds
            ∙ sym (ap values cut.whole)
            ∙ map-append (λ (c : Cell). c.thread) cut.before cut.behind;
      };
      safe = λ i.
          Ensures-mono (λ m. Inv xs (log ++ m.log) (moved i m s)) (λ m. Unit)
            (advance (s.pc i) s.queue) (advance-Good xs log s inv i (s.pc i) refl (inv.own i))
            (λ m h. tt);
      logged =
          λ i t e. subst (Own s.queue.heap (s.queue.head.ptr ∷ addrs inv.cells) log) e (inv.own i);
    }

-- However calls of `_st_lock_free_enqueue` interleave that start and stop at any access, each with
-- a new node: no access is to memory that is not allocated, the queue holds what it held before and
-- behind it exactly the threads whose nodes were linked, in the order in which they were, and a call
-- that has ended has its thread among them.
pub Reach-Served :
    (xs : List ℕ) (q : Queue) (log : List ℕ) (s : System)
    → IsQueue q xs
    → Reach q s log
    → Served xs log s
Reach-Served xs q log s r run = Inv-Served xs log s (Reach-Inv xs q log s r run)
