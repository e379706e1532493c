-- ===== src/LockTracking/Fields/Stale.antt =====
-- The pointer that the loops hold across a reallocation.
use prongc.Prelude.{
  ℕ, ◌+◌, ◌*◌, ◌≤◌, ◌<◌, ◌^◌, ◌≡◌, ◌≢◌, true, none, some, List, ◌∷◌, length, arith, leb, Option,
}
use prongc.LockTracking.Fields.{
  size_max, pred64, LpField, ProtectionFieldArray, update_lp_field_array_pointers, deref, grow,
  add_lock_protection_copy, for_each, copy_range, split_active, add_protection_range_fields_active,
}

-- If the first field is open, the array is full up to one slot and the block moves when it grows,
-- the loop over the open fields reads through a pointer into the old block.
pub active_stale :
    (realloc : ℕ → ℕ → Option ℕ) (start depth p : ℕ) (a : ProtectionFieldArray) (f : LpField)
    (fs : List LpField)
    → a.lp_fields ≡ f ∷ fs
    → f.protection_range_end ≡ size_max
    → 1 ≤ a.capacity
    → a.capacity < 2 ^ 64
    → a.capacity ≤ length a.lp_fields + 1
    → realloc a.base (a.capacity * 2) ≡ some p
    → p ≢ a.base
    → add_protection_range_fields_active realloc start depth a ≡ none
unfolding add_protection_range_fields_active for_each split_active copy_range
    add_lock_protection_copy grow deref update_lp_field_array_pointers
active_stale realloc start depth p a f fs first still_open pos small full moved away =
    let test : leb (pred64 a.capacity) (length a.lp_fields) ≡ true = ground arith in
    ground (arith, test)
