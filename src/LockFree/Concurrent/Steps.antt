-- ===== src/LockFree/Concurrent/Steps.antt =====
-- Each step of a concurrent call of `_st_lock_free_enqueue` keeps the queue.
use st_nvs.Base.{
  ℕ, ◌+◌, ◌%◌, ◌^◌, ◌<◌, ◌≡◌, ◌++◌, true, false, Option, some, List, [], ◌∷◌, ◌==◌, ==→eq, ==_refl,
  arith, count, refl, ap, sym, subst, ◌∙◌, Ensures, if◌then◌else◌, ◌>>=◌, if_both,
}
use st_nvs.LockFree.{Pointer, Node, Heap, store}
use st_nvs.LockFree.Chain.{next_of, value_of}
use st_nvs.LockFree.Concurrent.{
  Pc, idle, top, has_count, has_tail, has_link, has_next, same_count, consistent, linked, swung,
  ended, Moved, advance, System, moved, quiet, link, swing,
}
use st_nvs.LockFree.Concurrent.Own.{node_at, Own, Inv}
use st_nvs.LockFree.Concurrent.Links.{Seg-next, Seg-stop, Seg-node, recounted, same-count}
use st_nvs.LockFree.Concurrent.Linked.{link-Inv}
use st_nvs.LockFree.Concurrent.Kept.{on, quiet-Inv, count-Inv}

module _ (xs log : List ℕ) (s : System) (inv : Inv xs log s) (i : ℕ) where
  open inv use {cells, last, path, ends, apart, not_null, holds, tail, own, alone}

  abbrev chain : List ℕ
  chain = on xs log s inv i

  abbrev Good : Option Moved → Type 0
  Good o = Ensures (λ m. Inv xs (log ++ m.log) (moved i m s)) o

  abbrev relinked : ℕ → ℕ → Node → Heap
  relinked a n k =
      store a (some (record k { next = record { ptr = n; count = k.next.count } })) s.queue.heap

  -- A step that only the call notices.
  stay :
      (p q : Pc)
      → s.pc i ≡ p
      → (node_at q ≡ node_at p)
      → Own s.queue.heap chain log q
      → Good (quiet s.queue q)
  stay p q e same o =
      quiet-Inv xs log s inv i s.queue.tail q tail (λ r. same ∙ sym (ap node_at e)) o

  -- The node at an address of the chain is there to be read.
  load-Good :
      (a : ℕ) (f : Node → Option Moved)
      → 0 < count a chain
      → ((k : Node) → s.queue.heap a ≡ some k → Good (f k))
      → Good (s.queue.heap a >>= f)
  load-Good a f there h =
      let (k, e) = Seg-node s.queue.heap s.queue.head.ptr last a cells path ends there in
      subst (λ o. Good (o >>= f)) (sym e) (h k e)

  not_null_at : (a : ℕ) → 0 < count a chain → (a == 0) ≡ true → ⊥
  not_null_at a there e =
      absurd (omega (arith, there, not_null, ap (λ b. count b chain) (==→eq a 0 e)))

  link-Good :
      (n t : ℕ) (tl next : Pointer)
      → s.pc i ≡ consistent n t tl next
      → Own s.queue.heap chain log (consistent n t tl next)
      → next.ptr ≡ 0
      → Good (link n t tl next s.queue)
  link-Good n t tl next e o null =
      load-Good tl.ptr
        (λ k.
          if k.next.ptr == next.ptr
          then some (record {
            queue = record (s.queue) { heap = relinked tl.ptr n k };
            pc = linked t tl.ptr ((next.count + 1) % 2 ^ 32);
            log = t ∷ [];
          })
          else quiet s.queue (top n t))
        o.1
        (λ k at.
          if_both Good (k.next.ptr == next.ptr)
            (some (record {
              queue = record (s.queue) { heap = relinked tl.ptr n k };
              pc = linked t tl.ptr ((next.count + 1) % 2 ^ 32);
              log = t ∷ [];
            }))
            (quiet s.queue (top n t))
            (λ h.
              let ends_here : next_of (s.queue.heap tl.ptr) ≡ some 0 =
                ap next_of at ∙ ap some (==→eq k.next.ptr next.ptr h ∙ null) in
              let is_last : tl.ptr ≡ last =
                Seg-stop s.queue.heap s.queue.head.ptr last tl.ptr cells path not_null o.1
                  ends_here in
              link-Inv xs log s inv i (relinked tl.ptr n k) n t tl.ptr ((next.count + 1) % 2 ^ 32)
                is_last o.0 (ap node_at e)
                (λ b ne. rw (subst (λ a. (b == a) ≡ false) (sym is_last) ne) refl)
                (subst (λ a. value_of (relinked tl.ptr n k a) ≡ value_of (s.queue.heap a)) is_last
                  (rw (==_refl tl.ptr, at) refl))
                (subst (λ a. next_of (relinked tl.ptr n k a) ≡ some n) is_last
                  (rw (==_refl tl.ptr) refl)))
            (λ h. stay (consistent n t tl next) (top n t) e refl o.0))

  swing-Good :
      (n t : ℕ) (tl next : Pointer)
      → s.pc i ≡ consistent n t tl next
      → Own s.queue.heap chain log (consistent n t tl next)
      → (next.ptr == 0) ≡ false
      → Good (swing n t tl next s.queue)
  swing-Good n t tl next e o real =
      if_both Good (s.queue.tail.ptr == tl.ptr)
        (quiet (record (s.queue) { tail = record { ptr = next.ptr; count = s.queue.tail.count } })
          (swung n t ((tl.count + 1 + 1) % 2 ^ 32)))
        (quiet s.queue (top n t))
        (λ h.
          quiet-Inv xs log s inv i (record { ptr = next.ptr; count = s.queue.tail.count })
            (swung n t ((tl.count + 1 + 1) % 2 ^ 32))
            (Seg-next s.queue.heap s.queue.head.ptr last tl.ptr next.ptr cells path ends o.1
              (o.2 real) real)
            (λ r. sym (ap node_at e)) o.0)
        (λ h. stay (consistent n t tl next) (top n t) e refl o.0)

  pub advance-Good : (p : Pc) → s.pc i ≡ p → Own s.queue.heap chain log p → Good (advance p s.queue)
  unfolding advance
  advance-Good idle e o = stay idle idle e refl o
  advance-Good (top n t) e o = stay (top n t) (has_count n t s.queue.tail.count) e refl o
  advance-Good (has_count n t c) e o =
      stay (has_count n t c) (has_tail n t (record { ptr = s.queue.tail.ptr; count = c })) e refl
        (o, tail)
  advance-Good (has_tail n t tl) e o =
      let found : Node → Option Moved = λ k. quiet s.queue (has_link n t tl k.next.ptr) in
      if_both Good (tl.ptr == 0) (quiet s.queue (has_link n t tl 0)) (s.queue.heap tl.ptr >>= found)
        (λ h. absurd (not_null_at tl.ptr o.1 h))
        (λ h. load-Good tl.ptr found o.1 (λ k at.
          stay (has_tail n t tl) (has_link n t tl k.next.ptr) e refl
            (o.0, o.1, λ r. ap next_of at)))
  advance-Good (has_link n t tl p) e o =
      let next : ℕ → Pointer = λ c. record { ptr = p; count = c } in
      let found : Node → Option Moved = λ k. quiet s.queue (has_next n t tl (next k.next.count)) in
      if_both Good (tl.ptr == 0) (quiet s.queue (has_next n t tl (next 0)))
        (s.queue.heap tl.ptr >>= found) (λ h. absurd (not_null_at tl.ptr o.1 h))
        (λ h.
          load-Good tl.ptr found o.1
            (λ k at. stay (has_link n t tl p) (has_next n t tl (next k.next.count)) e refl o))
  advance-Good (has_next n t tl next) e o =
      if_both (λ q. Good (quiet s.queue q)) (tl.count == s.queue.tail.count)
        (same_count n t tl next) (top n t)
        (λ h. stay (has_next n t tl next) (same_count n t tl next) e refl o)
        (λ h. stay (has_next n t tl next) (top n t) e refl o.0)
  advance-Good (same_count n t tl next) e o =
      if_both (λ q. Good (quiet s.queue q)) (tl.ptr == s.queue.tail.ptr) (consistent n t tl next)
        (top n t) (λ h. stay (same_count n t tl next) (consistent n t tl next) e refl o)
        (λ h. stay (same_count n t tl next) (top n t) e refl o.0)
  advance-Good (consistent n t tl next) e o =
      if_both Good (next.ptr == 0) (link n t tl next s.queue) (swing n t tl next s.queue)
        (λ h. link-Good n t tl next e o (==→eq next.ptr 0 h)) (λ h. swing-Good n t tl next e o h)
  advance-Good (linked t at c) e o =
      load-Good at
        (λ k. quiet (record (s.queue) { heap = recounted s.queue.heap at c k }) (ended t)) o.1
        (λ k found.
          count-Inv xs log s inv i (recounted s.queue.heap at c k) (ended t)
            (same-count s.queue.heap at c k found) refl o.0)
  advance-Good (swung n t c) e o =
      quiet-Inv xs log s inv i (record { ptr = s.queue.tail.ptr; count = c }) (top n t) tail
        (λ r. sym (ap node_at e)) o
  advance-Good (ended t) e o = stay (ended t) (ended t) e refl o
