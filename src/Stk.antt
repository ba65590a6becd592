-- ===== src/Stk.antt =====
-- stk.cpp, the cache of thread stacks, and the part of `st_thread_create` (sched_win.cpp) that sizes
-- a stack and lays the thread out on it. Addresses and sizes are numbers; a stack object is named by
-- the base of its memory, which no two of them share.
pub mod Cache
pub mod Layout
use st_nvs.Base.{
  ℕ, ◌+◌, ◌-◌, ◌*◌, ◌/◌, ◌%◌, Bool, true, false, Option, none, some, List, [], ◌∷◌, ltb, leb, ◌==◌,
  if◌then◌else◌, ◌>>=◌,
}

-- `st_stack_t`
pub record Stack : Type 0 where
  pub vaddr : ℕ
  pub vaddr_size : ℕ
  pub stk_size : ℕ
  pub stk_bottom : ℕ
  pub stk_top : ℕ

-- `_st_free_stacks` and `_st_num_free_stacks`
pub record StackCache : Type 0 where
  pub free_stacks : List Stack
  pub num_free_stacks : ℕ

-- The first free stack that is big enough, and the list without it.
unfoldable pub first_fit : ℕ → List Stack → Option (Stack × List Stack)
first_fit size [] = none
first_fit size (ts ∷ rest) =
    if leb size ts.stk_size
    then some (ts, rest)
    else (first_fit size rest >>= λ r. some (r.0, ts ∷ r.1))

-- A stack in a new segment at `vaddr`, with a red zone of a page at each end.
unfoldable pub new_stack : (page size vaddr : ℕ) → Stack
new_stack page size vaddr = record {
  vaddr = vaddr;
  vaddr_size = size + 2 * page;
  stk_size = size;
  stk_bottom = vaddr + page;
  stk_top = vaddr + page + size;
}

-- `_st_stack_new`. `object` says whether `calloc` finds room for the stack object, and `segment` is
-- what `_st_new_stk_segment` returns for a number of bytes; `none` as the result is `NULL`.
unfoldable pub _st_stack_new :
    (page : ℕ) (object : Bool) (segment : ℕ → Option ℕ) (size : ℕ)
    → StackCache
    → Option (Stack × StackCache)
unfolding first_fit new_stack
_st_stack_new page object segment size c = elim (first_fit size c.free_stacks) [
  | some (ts, rest) ↦
      some (ts, record { free_stacks = rest; num_free_stacks = c.num_free_stacks - 1 })
  | none ↦
      if object
      then (segment (size + 2 * page) >>= λ vaddr. some (new_stack page size vaddr, c))
      else none
]

-- `ST_APPEND_LINK` at the list's last link, and not at its head: the stack goes before the last one.
unfoldable pub before_last : Stack → List Stack → List Stack
before_last ts [] = ts ∷ []
before_last ts (s ∷ []) = ts ∷ s ∷ []
before_last ts (s ∷ r ∷ rest) = s ∷ before_last ts (r ∷ rest)

-- `_st_stack_free`; `none` is `NULL`.
unfoldable pub _st_stack_free : Option Stack → StackCache → StackCache
unfolding before_last
_st_stack_free none c = c
_st_stack_free (some ts) c = record {
  free_stacks = before_last ts c.free_stacks;
  num_free_stacks = c.num_free_stacks + 1;
}

-- `ST_DEFAULT_STACK_SIZE`
abbrev pub default_size : ℕ
default_size = 64 * 1024

-- The size that `st_thread_create` asks for: the default for 0, and whole pages. The source computes
-- it in an `int`; the sizes here are those whose sum with a page stays below 2 ^ 31.
unfoldable pub adjust_size : (page size : ℕ) → ℕ
adjust_size page size =
    let wanted = if size == 0 then default_size else size in (wanted + page - 1) / page * page

-- Where `st_thread_create` puts things on a stack that grows down.
pub record Placement : Type 0 where
  pub ptds : ℕ
  pub thread : ℕ
  pub sp : ℕ

-- `ST_KEYS_MAX` pointers of `word` bytes, the thread object, and the stack pointer, 64-byte aligned.
unfoldable pub lay_out : (word thread_size pad : ℕ) → Stack → Placement
lay_out word thread_size pad ts =
    let ptds = ts.stk_top - 16 * word in
    let thread = ptds - thread_size in
    record { ptds = ptds; thread = thread; sp = thread - thread % 64 - pad }
