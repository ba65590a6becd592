-- ===== src/Fifo.antt =====
-- The stack of thread cells of lock_free_queue.cpp, with one call at a time. A cell is a number and
-- 0 is `NULL`. The sequence number `seq` wraps at 2 ^ 32. `none` as a result is fuel that runs out.
pub mod Order
use st_nvs.Base.{
  ℕ, zero, suc, ◌+◌, ◌%◌, ◌^◌, Bool, true, false, not, Option, none, some, ◌==◌, if◌then◌else◌,
}

-- `st_fifo_t`, with the field `next` of all cells.
pub record Fifo : Type 0 where
  pub top : ℕ
  pub seq : ℕ
  pub next : ℕ → ℕ

-- `InterlockedCompareExchange`: the new value, and the one that stood there.
abbrev pub compare_exchange : (dest exchange comparand : ℕ) → ℕ × ℕ
compare_exchange dest exchange comparand = (if dest == comparand then exchange else dest, dest)

unfoldable pub st_stack_alloc : (next : ℕ → ℕ) → (seq : ℕ) → Fifo
st_stack_alloc next seq = record { top = 0; seq = seq; next = next }

-- One round of `st_stack_push`, with whether it was the last.
unfoldable pub push_round : (cl : ℕ) → Fifo → Fifo × Bool
push_round cl fp =
    let oldseq = fp.seq in
    let linked = record fp { next = λ c. if c == cl then fp.top else fp.next c } in
    let r = compare_exchange linked.seq ((oldseq + 1) % 2 ^ 32) oldseq in
    let counted = record linked { seq = r.0 } in
    if r.1 == oldseq
    then (record counted { top = (compare_exchange counted.top cl (counted.next cl)).0 }, true)
    else (counted, false)

unfoldable pub st_stack_push : ℕ → (cl : ℕ) → Fifo → Option Fifo
unfolding push_round
st_stack_push zero cl fp = none
st_stack_push (suc fuel) cl fp = elim (push_round cl fp).1 [
  | true ↦ some (push_round cl fp).0
  | false ↦ st_stack_push fuel cl (push_round cl fp).0
]

-- One round of `st_stack_pop`, which tests whether the sequence number was not 0.
unfoldable pub pop_round : Fifo → Fifo × Bool
pop_round fp =
    let head = fp.top in
    let oldseq = fp.seq in
    let following = fp.next head in
    let r = compare_exchange fp.seq ((oldseq + 1) % 2 ^ 32) oldseq in
    let counted = record fp { seq = r.0 } in
    if not (r.1 == 0)
    then (record counted { top = (compare_exchange counted.top following head).0 }, true)
    else (counted, false)

-- `st_stack_pop`, with the cell that it returns.
unfoldable pub st_stack_pop : ℕ → Fifo → Option (Fifo × ℕ)
unfolding pop_round
st_stack_pop zero fp = none
st_stack_pop (suc fuel) fp = elim (fp.top == 0) [
  | true ↦ some (fp, 0)
  | false ↦ elim (pop_round fp).1 [
    | true ↦ some ((pop_round fp).0, fp.top)
    | false ↦ st_stack_pop fuel (pop_round fp).0
  ]
]
