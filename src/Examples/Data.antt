-- ===== src/Examples/Data.antt =====
-- The theorems on keys and stacks.
use st_nvs.Base.{◌≡◌, [], ◌∷◌, refl, arith}
use st_nvs.Key.{Keys, Slots, put, _st_thread_cleanup}
use st_nvs.Stk.{Stack, StackCache, lay_out}
use st_nvs.Stk.Cache.{IsStack, IsCache}
use st_nvs.Stk.Layout.{LaidOut, lay_out-LaidOut}

-- Two keys, the first with the destructor 700, and a thread with data under both.
abbrev keys : Keys
keys = record { key_max = 2; destructors = put 0 700 (λ k. 0) }

abbrev slots : Slots
slots = put 0 11 (put 1 12 (λ k. 0))

cleanup_calls : (_st_thread_cleanup keys slots).1 ≡ (700, 11) ∷ []
unfolding _st_thread_cleanup
cleanup_calls = refl

abbrev small : Stack
small = record {
  vaddr = 4096;
  vaddr_size = 16384;
  stk_size = 8192;
  stk_bottom = 8192;
  stk_top = 16384;
}

abbrev cache : StackCache
cache = record { free_stacks = small ∷ []; num_free_stacks = 1 }

small-IsStack : IsStack 4096 small
small-IsStack = omega arith

cache-IsCache : IsCache 4096 cache
cache-IsCache = record { stacks = (small-IsStack, tt); counted = refl }

lay_out-LaidOut_example : LaidOut 4 256 128 small (lay_out 4 256 128 small)
lay_out-LaidOut_example = lay_out-LaidOut 4096 4 256 128 small small-IsStack (omega arith)
