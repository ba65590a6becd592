-- ===== src/Stk/Cache.antt =====
-- What the cache of stacks hands out, and what it keeps.
use st_nvs.Base.{
  ℕ, ◌+◌, ◌-◌, ◌*◌, ◌≤◌, ◌≡◌, ◌⊎◌, true, Option, none, some, List, [], ◌∷◌, leb, ◌>>=◌, arith, refl,
  Bool-cases, inl, inr, sym, length, count, map, Ensures,
}
use st_nvs.Stk.{Stack, StackCache, first_fit, new_stack, _st_stack_new, before_last, _st_stack_free}

-- A stack's usable part lies in its segment, a page away from either end.
pub record IsStack (page : ℕ) (ts : Stack) : Type 0 where
  pub bottom : ts.stk_bottom ≡ ts.vaddr + page
  pub top : ts.stk_top ≡ ts.stk_bottom + ts.stk_size
  pub segment : ts.stk_top + page ≡ ts.vaddr + ts.vaddr_size

abbrev pub AllStacks : ℕ → List Stack → Type 0
AllStacks page [] = Unit {0}
AllStacks page (ts ∷ rest) = IsStack page ts × AllStacks page rest

pub record IsCache (page : ℕ) (c : StackCache) : Type 0 where
  pub stacks : AllStacks page c.free_stacks
  pub counted : c.num_free_stacks ≡ length c.free_stacks

-- How often a stack, named by its base, is in the cache.
abbrev pub bases : List Stack → List ℕ
bases = map (λ ts. ts.vaddr)

-- A stack that is handed out: it is sound and big enough, and the cache has lost it, or is as it was
-- if the segment is new; `held` says whether it came from the cache.
pub record Handed (page size : ℕ) (c : StackCache) (r : Stack × StackCache) : Type 0 where
  pub stack : IsStack page (r.0)
  pub big_enough : size ≤ (r.0).stk_size
  pub cache : IsCache page (r.1)
  pub source :
      ((b : ℕ)
        → count b (bases c.free_stacks)
          ≡ count b (bases (r.1).free_stacks) + count b ((r.0).vaddr ∷ []))
      ⊎ ((r.1 ≡ c) × (first_fit size c.free_stacks ≡ none))

record Fits (page size : ℕ) (l : List Stack) (r : Stack × List Stack) : Type 0 where
  stack : IsStack page (r.0)
  big_enough : size ≤ (r.0).stk_size
  rest : AllStacks page (r.1)
  shorter : length l ≡ length (r.1) + 1
  taken : (b : ℕ) → count b (bases l) ≡ count b (bases (r.1)) + count b ((r.0).vaddr ∷ [])

-- What `first_fit` finds, if it finds something.
abbrev FitsIf : ℕ → ℕ → List Stack → Option (Stack × List Stack) → Type 0
FitsIf page size l none = Unit {0}
FitsIf page size l (some r) = Fits page size l r

cons-FitsIf :
    (page size : ℕ) (ts : Stack) (l : List Stack) (o : Option (Stack × List Stack))
    → IsStack page ts
    → FitsIf page size l o
    → FitsIf page size (ts ∷ l) (o >>= λ r. some (r.0, ts ∷ r.1))
cons-FitsIf page size ts l none is f = tt
cons-FitsIf page size ts l (some r) is f = record {
  stack = f.stack;
  big_enough = f.big_enough;
  rest = (is, f.rest);
  shorter = omega (arith, f.shorter);
  taken = λ b. ground (arith, f.taken b);
}

first_fit-FitsIf :
    (page size : ℕ) (l : List Stack) → AllStacks page l → FitsIf page size l (first_fit size l)
unfolding first_fit
first_fit-FitsIf page size [] all = tt
first_fit-FitsIf page size (ts ∷ l) all = elim (Bool-cases (leb size ts.stk_size)) [
  | inl fits ↦ rw fits (record {
    stack = all.0;
    big_enough = ground arith;
    rest = all.1;
    shorter = omega arith;
    taken = λ b. ground arith;
  })
  | inr small ↦
      rw small
        (cons-FitsIf page size ts l (first_fit size l) all.0 (first_fit-FitsIf page size l all.1))
]

new_stack-IsStack : (page size vaddr : ℕ) → IsStack page (new_stack page size vaddr)
unfolding new_stack
new_stack-IsStack page size vaddr = record { bottom = refl; top = refl; segment = omega arith }

Handed-free :
    (page size : ℕ) (c : StackCache) (r : Stack × List Stack)
    → IsCache page c
    → Fits page size c.free_stacks r
    → Handed page size c
        (r.0, record { free_stacks = r.1; num_free_stacks = c.num_free_stacks - 1 })
Handed-free page size c r is f = record {
  stack = f.stack;
  big_enough = f.big_enough;
  cache = record { stacks = f.rest; counted = omega (arith, f.shorter, is.counted) };
  source = inl f.taken;
}

fit_cases :
    (page size : ℕ) (l : List Stack) (o : Option (Stack × List Stack))
    → o ≡ first_fit size l
    → FitsIf page size l o
    → (first_fit size l ≡ none)
      ⊎ ((r : Stack × List Stack) × (first_fit size l ≡ some r) × Fits page size l r)
fit_cases page size l none e f = inl (sym e)
fit_cases page size l (some r) e f = inr (r, sym e, f)

-- If memory can be had, a stack is handed out, from the cache if one there is big enough, and the
-- cache stays sound, without it; its count is the number of its stacks.
pub _st_stack_new-Handed :
    (page size vaddr : ℕ) (segment : ℕ → Option ℕ) (c : StackCache)
    → IsCache page c
    → segment (size + 2 * page) ≡ some vaddr
    → Ensures (Handed page size c) (_st_stack_new page true segment size c)
unfolding _st_stack_new
_st_stack_new-Handed page size vaddr segment c is room =
    elim (fit_cases page size c.free_stacks (first_fit size c.free_stacks) refl
      (first_fit-FitsIf page size c.free_stacks is.stacks)) [
        | inl miss ↦
            rw (miss, _st_stack_new, room)
              (record {
                stack = new_stack-IsStack page size vaddr;
                big_enough = unfold new_stack in omega arith;
                cache = is;
                source = inr (refl, miss);
              })
        | inr (r, hit, f) ↦ rw (hit, _st_stack_new) (Handed-free page size c r is f)
      ]

length-before_last : (ts : Stack) (l : List Stack) → length (before_last ts l) ≡ length l + 1
unfolding before_last
length-before_last ts [] = omega arith
length-before_last ts (s ∷ []) = omega arith
length-before_last ts (s ∷ r ∷ l) = omega (arith, length-before_last ts (r ∷ l))

before_last-AllStacks :
    (page : ℕ) (ts : Stack) (l : List Stack)
    → IsStack page ts
    → AllStacks page l
    → AllStacks page (before_last ts l)
unfolding before_last
before_last-AllStacks page ts [] is all = (is, tt)
before_last-AllStacks page ts (s ∷ []) is all = (is, all)
before_last-AllStacks page ts (s ∷ r ∷ l) is all =
    (all.0, before_last-AllStacks page ts (r ∷ l) is all.1)

count-before_last :
    (b : ℕ) (ts : Stack) (l : List Stack)
    → count b (bases (before_last ts l)) ≡ count b (bases l) + count b (ts.vaddr ∷ [])
unfolding before_last
count-before_last b ts [] = ground arith
count-before_last b ts (s ∷ []) = ground arith
count-before_last b ts (s ∷ r ∷ l) = ground (arith, count-before_last b ts (r ∷ l))

-- A freed stack is kept: the cache stays sound, and holds it once more, and the others as often as
-- before. Freeing `NULL` does nothing.
pub _st_stack_free_lem :
    (page : ℕ) (ts : Stack) (c : StackCache)
    → IsStack page ts
    → IsCache page c
    → IsCache page (_st_stack_free (some ts) c)
      × ((b : ℕ)
          → count b (bases (_st_stack_free (some ts) c).free_stacks)
            ≡ count b (bases c.free_stacks) + count b (ts.vaddr ∷ []))
      × (_st_stack_free none c ≡ c)
unfolding _st_stack_free
_st_stack_free_lem page ts c is cache = (
  record {
    stacks = before_last-AllStacks page ts c.free_stacks is cache.stacks;
    counted = omega (arith, length-before_last ts c.free_stacks, cache.counted);
  },
  λ b. count-before_last b ts c.free_stacks,
  refl,
)
