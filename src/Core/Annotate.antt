-- ===== src/Core/Annotate.antt =====
-- src/core.c, `annotate_lock_protection_ranges`: the protection fields of a footprint.
pub mod Conditional
pub mod Straight
pub mod Held
pub mod Locks
use prongc.Prelude.{
  ℕ, zero, suc, ◌+◌, ◌%◌, ◌^◌, Option, none, some, List, [], ◌∷◌, length, drop, ◌>>=◌, ◌==◌,
  if◌then◌else◌,
}
use prongc.VarAccess.{
  VarAccess, VarAccessType, type_code, lock_acquire, lock_release, if_stmt, then_block, else_stmt,
  end_if,
}
use prongc.LockTracking.Pairs.{LockPrimitivePair, get_pair_by_lock_func}
use prongc.LockTracking.Fields.{
  ProtectionFieldArray, pred64, add_lock_protection_field, set_protection_range_end,
  add_protection_range_fields_active, add_protection_range_fields_inactive,
}

-- The variables of the loop.
pub record Ranges : Type 0 where
  pub branch_depth : ℕ
  pub fields : ProtectionFieldArray

-- `while (data[start_of_branch].type != VarAccess_ThenBlock) ++start_of_branch`, over the accesses
-- from `start_of_branch` on. Without such a marker the loop leaves the array.
unfoldable pub find_then : ℕ → List VarAccess → Option ℕ
find_then start_of_branch [] = none
find_then start_of_branch (va ∷ vas) =
    let rest = find_then (start_of_branch + 1) vas in
    if type_code va.type == type_code then_block then some start_of_branch else rest

module _ (realloc : ℕ → ℕ → Option ℕ) (lock_pair_array : List LockPrimitivePair) where
  -- One round: the access `va` at index `i`, in front of `vas`.
  unfoldable pub annotate_one :
      ℕ → VarAccess → List VarAccess → VarAccessType → Ranges → Option Ranges
  annotate_one i va vas lock_acquire r =
      get_pair_by_lock_func lock_pair_array va.esc_func_spelling >>= λ lock_prim_pair.
      add_lock_protection_field realloc lock_prim_pair i va.usr i r.fields >>= λ a.
      some (record r { fields = a })
  annotate_one i va vas lock_release r =
      set_protection_range_end va.usr i r.fields >>= λ a. some (record r { fields = a })
  annotate_one i va vas if_stmt r =
      let depth : ℕ = (r.branch_depth + 1) % 2 ^ 64 in
      find_then (i + 1) vas >>= λ start_of_branch.
      add_protection_range_fields_active realloc start_of_branch depth r.fields >>= λ a.
      some (record { branch_depth = depth; fields = a })
  annotate_one i va vas else_stmt r =
      add_protection_range_fields_inactive realloc i (pred64 r.branch_depth) r.fields >>= λ a.
      some (record r { fields = a })
  annotate_one i va vas end_if r = some (record r { branch_depth = pred64 r.branch_depth })
  annotate_one i va vas _ r = some r

  unfoldable pub annotate_from : ℕ → List VarAccess → Ranges → Option Ranges
  annotate_from i [] r = some r
  annotate_from i (va ∷ vas) r =
      annotate_one i va vas va.type r >>= λ s. annotate_from (i + 1) vas s

  unfoldable pub annotate_lock_protection_ranges :
      List VarAccess → ProtectionFieldArray → Option ProtectionFieldArray
  unfolding annotate_from
  annotate_lock_protection_ranges footprint a =
      annotate_from 0 footprint (record { branch_depth = 0; fields = a }) >>= λ r. some r.fields
