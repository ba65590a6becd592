-- ===== src/LockFree/Concurrent.antt =====
-- Calls of `_st_lock_free_enqueue` (lock_free_queue.cpp) that run at the same time, as the threads of
-- the completion port and of the databases make them. Each step is one access to the queue or to
-- a node: `cas_back` reads the count and then the pointer, and `cas` exchanges the pointer and then
-- stores the count. Allocations do not fail. `none` is an access to memory that is not allocated.
pub mod Freed
pub mod Kept
pub mod Linked
pub mod Links
pub mod Own
pub mod Runs
pub mod Solo
pub mod Steps
use st_nvs.Base.{
  ℕ, ◌+◌, ◌%◌, ◌^◌, ◌≡◌, false, Option, none, some, List, [], ◌∷◌, ◌++◌, ◌==◌, if◌then◌else◌, ◌>>=◌,
}
use st_nvs.LockFree.{Pointer, pointer, Heap, Queue, store}

-- Where a call stands, with its node, its thread, and its copies of the tail and of the next node.
pub data Pc : Type 0 where
  idle : Pc
  top : (node thread : ℕ) → Pc
  has_count : (node thread count : ℕ) → Pc
  has_tail : (node thread : ℕ) → (tail : Pointer) → Pc
  has_link : (node thread : ℕ) → (tail : Pointer) → (next_ptr : ℕ) → Pc
  has_next : (node thread : ℕ) → (tail next : Pointer) → Pc
  same_count : (node thread : ℕ) → (tail next : Pointer) → Pc
  consistent : (node thread : ℕ) → (tail next : Pointer) → Pc
  linked : (thread at count : ℕ) → Pc
  swung : (node thread count : ℕ) → Pc
  ended : (thread : ℕ) → Pc

-- What a step leaves: the queue, where the call stands, and the thread that the step has linked.
pub record Moved : Type 0 where
  pub queue : Queue
  pub pc : Pc
  pub log : List ℕ

abbrev pub quiet : Queue → Pc → Option Moved
quiet q p = some (record { queue = q; pc = p; log = [] })

-- `cas(&tail.ptr->next, next, tmp)`, up to the store of the count
abbrev pub link : (node thread : ℕ) → (tail next : Pointer) → Queue → Option Moved
link node thread tail next q = q.heap tail.ptr >>= λ last.
    if last.next.ptr == next.ptr
    then some (record {
      queue = record q {
        heap =
            store tail.ptr
              (some (record last { next = record { ptr = node; count = last.next.count } })) q.heap;
      };
      pc = linked thread tail.ptr ((next.count + 1) % 2 ^ 32);
      log = thread ∷ [];
    })
    else quiet q (top node thread)

-- `cas(&queue->tail, tail, tmp)`, up to the store of the count
abbrev pub swing : (node thread : ℕ) → (tail next : Pointer) → Queue → Option Moved
swing node thread tail next q =
    if q.tail.ptr == tail.ptr
    then quiet (record q { tail = record { ptr = next.ptr; count = q.tail.count } })
        (swung node thread ((tail.count + 1 + 1) % 2 ^ 32))
    else quiet q (top node thread)

-- The next access that a call makes. A call that has ended makes none.
unfoldable pub advance : Pc → Queue → Option Moved
advance idle q = quiet q idle
advance (top node thread) q = quiet q (has_count node thread q.tail.count)
advance (has_count node thread count) q =
    quiet q (has_tail node thread (record { ptr = q.tail.ptr; count = count }))
advance (has_tail node thread tail) q =
    if tail.ptr == 0
    then quiet q (has_link node thread tail 0)
    else (q.heap tail.ptr >>= λ last. quiet q (has_link node thread tail last.next.ptr))
advance (has_link node thread tail next_ptr) q =
    if tail.ptr == 0
    then quiet q (has_next node thread tail (record { ptr = next_ptr; count = 0 }))
    else (q.heap tail.ptr >>= λ last.
        quiet q (has_next node thread tail (record { ptr = next_ptr; count = last.next.count })))
advance (has_next node thread tail next) q =
    quiet q
      (if tail.count == q.tail.count then same_count node thread tail next else top node thread)
advance (same_count node thread tail next) q =
    quiet q (if tail.ptr == q.tail.ptr then consistent node thread tail next else top node thread)
advance (consistent node thread tail next) q =
    if next.ptr == 0 then link node thread tail next q else swing node thread tail next q
advance (linked thread at count) q = q.heap at >>= λ last.
    quiet
      (record q {
        heap =
            store at (some (record last { next = record { ptr = last.next.ptr; count = count } }))
              q.heap;
      })
      (ended thread)
advance (swung node thread count) q =
    quiet (record q { tail = record { ptr = q.tail.ptr; count = count } }) (top node thread)
advance (ended thread) q = quiet q (ended thread)

-- The queue, and where each of the calls stands.
pub record System : Type 0 where
  pub queue : Queue
  pub pc : ℕ → Pc

abbrev pub set_pc : ℕ → Pc → (ℕ → Pc) → ℕ → Pc
set_pc i p pcs j = if j == i then p else pcs j

abbrev pub at_rest : Queue → System
at_rest q = record { queue = q; pc = λ i. idle }

-- A call begins with its node, which `calloc` returns.
abbrev pub called : (i node thread : ℕ) → System → System
called i node thread s = record {
  queue = record (s.queue) {
    heap = store node (some (record { value = thread; next = pointer 0 0 })) s.queue.heap;
  };
  pc = set_pc i (top node thread) s.pc;
}

abbrev pub moved : ℕ → Moved → System → System
moved i m s = record { queue = m.queue; pc = set_pc i m.pc s.pc }

-- What calls can come to that start and take their steps in any order, with the threads that they
-- have linked, in order.
pub data Reach (q : Queue) : System → List ℕ → Type 0 where
  begin : Reach q (at_rest q) []
  call :
      {s : System} {log : List ℕ} (i node thread : ℕ)
      → Reach q s log
      → s.pc i ≡ idle
      → s.queue.heap node ≡ none
      → (node == 0) ≡ false
      → Reach q (called i node thread s) log
  step :
      {s : System} {log : List ℕ} (i : ℕ) (m : Moved)
      → Reach q s log
      → advance (s.pc i) s.queue ≡ some m
      → Reach q (moved i m s) (log ++ m.log)
