-- ===== src/Key/Cleanup.antt =====
-- What a thread's exit does with its data.
use st_nvs.Base.{
  ℕ, zero, suc, ◌+◌, ◌<◌, ◌≡◌, ◌&&◌, List, [], ◌∷◌, ltb, leb, if◌then◌else◌, arith, refl,
  Bool-cases, inl, inr, ap, ◌∙◌,
}
use st_nvs.Key.{Keys, Slots, Call, put, cleans, cleanup_loop, _st_thread_cleanup, is_set}

-- The keys of a range that have data and a destructor, in order.
unfoldable pub destroyed : (rounds key : ℕ) → Keys → Slots → List Call
destroyed zero key ks slots = []
destroyed (suc n) key ks slots =
    let rest = destroyed n (key + 1) ks slots in
    if is_set (slots key) && is_set (ks.destructors key)
    then (ks.destructors key, slots key) ∷ rest
    else rest

record Cleaned (n key : ℕ) (ks : Keys) (slots : Slots) (r : Slots × List Call) : Type 0 where
  slots_after :
      (k : ℕ) → r.0 k ≡ (if leb key k && (ltb k (key + n) && cleans k ks slots) then 0 else slots k)
  calls : r.1 ≡ destroyed n key ks slots

destroyed_frame :
    (n key : ℕ) (j x : ℕ) (ks : Keys) (slots : Slots)
    → j < key
    → destroyed n key ks (put j x slots) ≡ destroyed n key ks slots
unfolding destroyed
destroyed_frame zero key j x ks slots h = refl
destroyed_frame (suc n) key j x ks slots h =
    ground (arith, destroyed_frame n (key + 1) j x ks slots (omega arith))

cleanup_loop-Cleaned :
    (n key : ℕ) (ks : Keys) (slots : Slots) → Cleaned n key ks slots (cleanup_loop n key ks slots)
unfolding cleanup_loop destroyed
cleanup_loop-Cleaned zero key ks slots = record { slots_after = λ k. ground arith; calls = refl }
cleanup_loop-Cleaned (suc n) key ks slots = elim (Bool-cases (cleans key ks slots)) [
  | inl hit ↦
      let c = cleanup_loop-Cleaned n (key + 1) ks (put key 0 slots) in
      rw hit (record {
        slots_after = λ k. ground (arith, c.slots_after k);
        calls = rw hit (
            ap (λ l. (ks.destructors key, slots key) ∷ l)
              (c.calls ∙ destroyed_frame n (key + 1) key 0 ks slots (omega arith)));
      })
  | inr miss ↦
      let c = cleanup_loop-Cleaned n (key + 1) ks slots in
      rw miss
        (record { slots_after = λ k. ground (arith, c.slots_after k); calls = rw miss c.calls })
]

-- The cleanup calls the destructor of every key that has one and data, in the order of the keys and
-- once each with the data; those keys are `NULL` after it, and no other slot changes.
pub _st_thread_cleanup_lem :
    (ks : Keys) (slots : Slots)
    → ((_st_thread_cleanup ks slots).1 ≡ destroyed ks.key_max 0 ks slots)
      × ((k : ℕ)
          → (_st_thread_cleanup ks slots).0 k
            ≡ (if ltb k ks.key_max && cleans k ks slots then 0 else slots k))
unfolding _st_thread_cleanup
_st_thread_cleanup_lem ks slots =
    let c = cleanup_loop-Cleaned ks.key_max 0 ks slots in
    (c.calls, λ k. ground (arith, c.slots_after k))
