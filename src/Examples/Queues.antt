-- ===== src/Examples/Queues.antt =====
-- The theorems on the queue of completed threads and on rings of links.
use st_nvs.Base.{◌==◌, if◌then◌else◌, some, none, [], ◌∷◌, refl, arith, Ensures}
use st_nvs.LockFree.{Queue, pointer, store, _st_lock_free_enqueue, _st_lock_free_dequeue}
use st_nvs.LockFree.Chain.{IsQueue, cell}
use st_nvs.LockFree.Enqueue.{_st_lock_free_enqueue-append}
use st_nvs.LockFree.Dequeue.{Dequeued, _st_lock_free_dequeue-Dequeued}
use st_nvs.Fifo.{Fifo}
use st_nvs.Fifo.Order.{Holds}
use st_nvs.Clist.{Links, set, insert_before, remove}
use st_nvs.Clist.Ring.{Ring}
use st_nvs.Clist.Insert.{insert_before-Ring}
use st_nvs.Clist.Remove.{remove-Ring}

-- The dummy node 8 and one thread in node 9, which the tail does not point to yet.
abbrev lagging : Queue
lagging = record {
  heap =
      store 8 (some (record { value = 0; next = pointer 9 1 }))
        (store 9 (some (record { value = 5; next = pointer 0 0 })) (λ a. none));
  head = pointer 8 0;
  tail = pointer 8 0;
}

lagging-IsQueue : IsQueue lagging (5 ∷ [])
lagging-IsQueue = record {
  before = [];
  behind = cell 9 5 ∷ [];
  last = 9;
  to_tail = refl;
  from_tail = (refl, refl, refl);
  ends = refl;
  apart = λ a. ground arith;
  not_null = refl;
  holds = refl;
}

_st_lock_free_enqueue-append_example :
    Ensures (λ q. IsQueue q (5 ∷ 6 ∷ [])) (_st_lock_free_enqueue 2 12 6 lagging)
unfolding lagging-IsQueue
_st_lock_free_enqueue-append_example =
    _st_lock_free_enqueue-append 2 12 6 lagging (5 ∷ []) lagging-IsQueue refl refl (omega arith)

_st_lock_free_dequeue-Dequeued_example :
    Ensures (Dequeued lagging (5 ∷ [])) (_st_lock_free_dequeue 2 lagging)
_st_lock_free_dequeue-Dequeued_example =
    _st_lock_free_dequeue-Dequeued 0 lagging (5 ∷ []) lagging-IsQueue

-- The head 1 with the members 2 and 3.
abbrev ring : Links
ring = record {
  next = set 1 2 (set 2 3 (set 3 1 (λ a. a)));
  prev = set 1 3 (set 2 1 (set 3 2 (λ a. a)));
}

ring-Ring : Ring ring 1 (2 ∷ 3 ∷ [])
ring-Ring = record { chain = (refl, refl, (refl, refl, (refl, refl))); apart = λ u. ground arith }

insert_before-Ring_example : Ring (insert_before 4 3 ring) 1 (2 ∷ 4 ∷ 3 ∷ [])
insert_before-Ring_example = insert_before-Ring ring 4 1 3 (2 ∷ []) [] ring-Ring refl

remove-Ring_example : Ring (remove 2 ring) 1 (3 ∷ [])
remove-Ring_example = remove-Ring ring 2 1 [] (3 ∷ []) ring-Ring

-- The cell 4 on top of the cell 3, and the sequence number at 2 ^ 32 - 1.
abbrev stack : Fifo
stack = record { top = 4; seq = 4294967295; next = λ c. if c == 4 then 3 else 0 }

stack-Holds : Holds stack (4 ∷ 3 ∷ [])
stack-Holds = record { links = (refl, (refl, refl)); apart = λ c. ground arith }
