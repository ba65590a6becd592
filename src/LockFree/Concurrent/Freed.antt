-- ===== src/LockFree/Concurrent/Freed.antt =====
-- A call of `_st_lock_free_enqueue` that `_st_lock_free_dequeue` overtakes (lock_free_queue.cpp).
use st_nvs.Base.{
  ℕ, suc, ◌≡◌, ◌==◌, false, none, List, ◌∷◌, arith, ap, ◌∙◌, Ensures, Ensures-mono, refl,
}
use st_nvs.LockFree.{Pointer, Queue, _st_lock_free_dequeue}
use st_nvs.LockFree.Chain.{IsQueue}
use st_nvs.LockFree.Dequeue.{Dequeued, _st_lock_free_dequeue-Dequeued}
use st_nvs.LockFree.Concurrent.{has_tail, advance}

-- A call that copied the tail while it was the dummy node, and reads the next node only after
-- a thread has been taken, reads the dummy that was freed: with threads in the queue, the access that
-- follows on any `_st_lock_free_dequeue` faults.
pub advance-freed :
    (fuel node thread x : ℕ) (tail : Pointer) (q : Queue) (xs : List ℕ)
    → IsQueue q (x ∷ xs)
    → tail.ptr ≡ q.head.ptr
    → Ensures
        (λ r. advance (has_tail node thread tail) (r.0) ≡ none)
        (_st_lock_free_dequeue (suc (suc fuel)) q)
unfolding advance
advance-freed fuel node thread x tail q xs i same =
    let real : (tail.ptr == 0) ≡ false = ground (arith, i.not_null, same) in
    Ensures-mono (Dequeued q (x ∷ xs)) (λ r. advance (has_tail node thread tail) (r.0) ≡ none)
      (_st_lock_free_dequeue (suc (suc fuel)) q) (_st_lock_free_dequeue-Dequeued fuel q (x ∷ xs) i)
      (λ r d.
        let gone : (r.0).heap tail.ptr ≡ none = ap (r.0).heap same ∙ d.2 in rw (real, gone) refl)
