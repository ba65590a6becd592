-- ===== src/Stk/Layout.antt =====
-- Sizes and addresses on a new thread's stack.
use st_nvs.Base.{ℕ, ◌+◌, ◌-◌, ◌*◌, ◌/◌, ◌%◌, ◌<◌, ◌≤◌, ◌≡◌, if◌then◌else◌, ◌==◌, arith}
use native.Mathlib.Nat.{mul-mod_left}
use st_nvs.Stk.{Stack, adjust_size, default_size, Placement, lay_out}
use st_nvs.Stk.Cache.{IsStack}

round_up :
    (page w : ℕ)
    → 0 < page
    → ((w + page - 1) / page * page % page ≡ 0)
      × (w ≤ (w + page - 1) / page * page)
      × ((w + page - 1) / page * page < w + page)
round_up page w h = (mul-mod_left _ _, grind arith, grind arith)

-- The size asked for is a whole number of pages, at least what was wanted, by less than a page.
pub adjust_size_bounds :
    (page size : ℕ)
    → 0 < page
    → let wanted = if size == 0 then default_size else size in
      (adjust_size page size % page ≡ 0)
      × (wanted ≤ adjust_size page size)
      × (adjust_size page size < wanted + page)
unfolding adjust_size
adjust_size_bounds page size h = round_up page (if size == 0 then default_size else size) h

-- What is laid out on a stack.
pub record LaidOut (word thread_size pad : ℕ) (ts : Stack) (l : Placement) : Type 0 where
  pub data_fits : l.ptds + 16 * word ≡ ts.stk_top
  pub thread_fits : l.thread + thread_size ≡ l.ptds
  pub below_thread : l.sp + pad ≤ l.thread
  pub in_stack : ts.stk_bottom ≤ l.sp
  pub aligned : (l.sp + pad) % 64 ≡ 0

-- On a stack with room for the thread object, its data, the pad and the alignment, the private data
-- ends at the top, the thread object lies below it, and the stack pointer is below both, in the stack and, pad apart, aligned.
pub lay_out-LaidOut :
    (page word thread_size pad : ℕ) (ts : Stack)
    → IsStack page ts
    → 16 * word + thread_size + pad + 64 ≤ ts.stk_size
    → LaidOut word thread_size pad ts (lay_out word thread_size pad ts)
unfolding lay_out
lay_out-LaidOut page word thread_size pad ts is room = record {
  data_fits = omega arith;
  thread_fits = omega arith;
  below_thread = omega arith;
  in_stack = omega arith;
  aligned = omega arith;
}
