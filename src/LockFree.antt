-- ===== src/LockFree.antt =====
-- The queue of completed threads, lock_free_queue.cpp: nodes on a heap, linked from a dummy node. One
-- call runs here at a time, so that each compare-and-swap sees what the call has read. An address is
-- a number, 0 is `NULL`, and `none` as the result of a run is an access to memory that is not
-- allocated. A `LONG` count wraps at 2 ^ 32.
pub mod Chain
pub mod Concurrent
pub mod Enqueue
pub mod Dequeue
use st_nvs.Base.{
  ℕ, zero, suc, ◌+◌, ◌%◌, ◌^◌, ◌&&◌, Bool, true, false, Option, none, some, ◌==◌, if◌then◌else◌,
  ◌>>=◌,
}

-- `st_pointer_t`
pub record Pointer : Type 0 where
  pub ptr : ℕ
  pub count : ℕ

abbrev pub pointer : ℕ → ℕ → Pointer
pointer p c = record { ptr = p; count = c % 2 ^ 32 }

-- `st_node_t`; the value is a thread.
pub record Node : Type 0 where
  pub value : ℕ
  pub next : Pointer

abbrev pub Heap : Type 0
Heap = ℕ → Option Node

-- `st_queue_t`, with the heap.
pub record Queue : Type 0 where
  pub heap : Heap
  pub head : Pointer
  pub tail : Pointer

abbrev pub store : ℕ → Option Node → Heap → Heap
store a n h b = if b == a then n else h b

-- The test that the copies which a round has made are still what the queue holds.
abbrev pub consistent : Pointer → Pointer → Bool
consistent p q = p.count == q.count && p.ptr == q.ptr

-- `cas`: the pointer is compared, and the count is not.
unfoldable pub cas : Pointer → (compare value : Pointer) → Pointer × Bool
cas dest compare value = if dest.ptr == compare.ptr then (value, true) else (dest, false)

-- `_st_lock_free_queue_open`, with the node that `calloc` returns.
unfoldable pub _st_lock_free_queue_open : (node : ℕ) → Heap → Queue
_st_lock_free_queue_open node h = record {
  heap = store node (some (record { value = 0; next = pointer 0 0 })) h;
  head = pointer node 0;
  tail = pointer node 0;
}

-- One round of the loop of `_st_lock_free_enqueue`: it links the node behind the last one, or moves
-- the tail one node on. The result says whether the node is linked.
unfoldable pub enqueue_round : (node : ℕ) → Queue → Option (Queue × Bool)
unfolding cas
enqueue_round node q =
    let tail = q.tail in
    q.heap tail.ptr >>= λ last.
    let next = last.next in
    if consistent tail q.tail
    then if next.ptr == 0
      then (let (linked, done) = cas last.next next (pointer node (next.count + 1)) in
          some (
            record q { heap = store tail.ptr (some (record last { next = linked })) q.heap },
            done,
          ))
      else (let (moved, done) = cas q.tail tail (pointer next.ptr (tail.count + 1 + 1)) in
          some (record q { tail = moved }, false))
    else some (q, false)

unfoldable pub enqueue_loop : ℕ → (node : ℕ) → Queue → Option Queue
unfolding enqueue_round
enqueue_loop zero node q = none
enqueue_loop (suc fuel) node q =
    enqueue_round node q >>= λ r. elim r.1 [ true ↦ some r.0 | false ↦ enqueue_loop fuel node r.0 ]

-- `_st_lock_free_enqueue`, with the node that `calloc` returns.
unfoldable pub _st_lock_free_enqueue : ℕ → (node thread : ℕ) → Queue → Option Queue
unfolding enqueue_loop
_st_lock_free_enqueue fuel node thread q =
    enqueue_loop fuel node
      (record q { heap = store node (some (record { value = thread; next = pointer 0 0 })) q.heap })

-- What a round of the loop of `_st_lock_free_dequeue` comes to.
pub data Round : Type 0 where
  is_empty : Round
  taken : (thread old : ℕ) → Round
  again : Round

unfoldable pub dequeue_round : Queue → Option (Queue × Round)
unfolding cas
dequeue_round q =
    let head = q.head in
    let tail = q.tail in
    if head.ptr == 0
    then some (q, is_empty)
    else (q.heap head.ptr >>= λ dummy.
        let next = dummy.next in
        if consistent head q.head
        then if head.ptr == tail.ptr
          then if next.ptr == 0
            then some (q, is_empty)
            else (let (moved, done) = cas q.tail tail (pointer next.ptr (tail.count + 1)) in
                some (record q { tail = moved }, again))
          else (q.heap next.ptr >>= λ first.
              let (moved, done) = cas q.head head (pointer next.ptr (head.count + 1)) in
              some (record q { head = moved }, if done then taken first.value head.ptr else again))
        else some (q, again))

-- The thread that is taken, if any; the old dummy node is freed.
unfoldable pub _st_lock_free_dequeue : ℕ → Queue → Option (Queue × Option ℕ)
unfolding dequeue_round
_st_lock_free_dequeue zero q = none
_st_lock_free_dequeue (suc fuel) q = dequeue_round q >>= λ r. elim r.1 [
  | is_empty ↦ some (r.0, none)
  | taken thread old ↦ some (record (r.0) { heap = store old none (r.0).heap }, some thread)
  | again ↦ _st_lock_free_dequeue fuel r.0
]
