-- ===== src/LockTracking/Ranges.antt =====
-- src/lock_tracking.c, inc/lock_tracking.h: the fields that protect an access, and the comparison of
-- two accesses.
use prongc.Prelude.{
  ℕ, zero, suc, Bool, false, not, ◌&&◌, ◌||◌, Option, none, some, List, [], ◌∷◌, ◌++◌, length, ltb,
  leb, ◌==◌, if◌then◌else◌, ◌>>=◌,
}
use prongc.LockTracking.Fields.{size_max, LpField, ProtectionFieldArray, is_null, deref}

-- `SharedProtectionQuality`
pub data SharedProtectionQuality : Type 0 where
  protected unprotected uncertain : SharedProtectionQuality

unfoldable pub equal_lp_fields : LpField → LpField → Bool
equal_lp_fields a b = a.lock_obj_hash == b.lock_obj_hash

-- the loop of `lp_field_array_contains` and of `lp_fields_contain`
unfoldable pub lp_fields_contain : List LpField → LpField → Bool
unfolding equal_lp_fields
lp_fields_contain [] f = false
lp_fields_contain (g ∷ gs) f = equal_lp_fields g f || lp_fields_contain gs f

unfoldable pub lp_cond_prot : LpField → Bool
lp_cond_prot f =
    not (is_null f.next_prot_range)
    && ((f.protection_range_end == size_max) && not (f.branch_depth == 0))

unfoldable pub in_range : ℕ → LpField → Bool
in_range va_idx f =
    (ltb f.protection_range_start va_idx && ltb va_idx f.protection_range_end) || lp_cond_prot f

-- The jumps to the label `next`: the fields of one linked list that protect the access. The fuel is the
-- number of fields, which is enough for a list that visits no field twice; `none` is an access to memory
-- that is no field, or a list that does not end.
unfoldable pub collect_list : ℕ → ProtectionFieldArray → ℕ → LpField → Option (List LpField)
collect_list zero a va_idx f = none
collect_list (suc fuel) a va_idx f =
    (elim f.next_prot_range [
      | none ↦ some []
      | some q ↦ deref a q >>= λ g. collect_list fuel a va_idx g
    ])
    >>= λ later. some (if in_range va_idx f then f ∷ later else later)

unfoldable pub collect_all : ProtectionFieldArray → ℕ → List LpField → Option (List LpField)
collect_all a va_idx [] = some []
collect_all a va_idx (f ∷ fs) =
    let rest = collect_all a va_idx fs in
    if f.is_ll_start
    then (collect_list (length a.lp_fields) a va_idx f >>= λ found.
        rest >>= λ others. some (found ++ others))
    else rest

-- `get_lp_fields_in_range`. The caller's array has one slot for each field of `a`: more are a fault.
unfoldable pub get_lp_fields_in_range : ProtectionFieldArray → ℕ → Option (List LpField)
get_lp_fields_in_range a va_idx = collect_all a va_idx a.lp_fields >>= λ found.
    if leb (length found) (length a.lp_fields) then some found else none

-- the inner loop of `matching_protection_field_arrays`
pub data Found : Type 0 where
  contains lacks conditional : Found

unfoldable pub look_for : LpField → List LpField → Found
look_for f [] = lacks
look_for f (g ∷ gs) =
    if not (g.branch_depth == 0) || not (g.branch_depth == 0)
    then conditional
    else if f.lock_obj_hash == g.lock_obj_hash
    then contains
    else look_for f gs

unfoldable pub match_all : List LpField → List LpField → SharedProtectionQuality
match_all [] bs = protected
match_all (a ∷ as') bs = elim (look_for a bs) [
  | contains ↦ match_all as' bs
  | lacks ↦ unprotected
  | conditional ↦ uncertain
]

unfoldable pub match_lists : List LpField → List LpField → SharedProtectionQuality
match_lists as' bs = if length as' == length bs then match_all as' bs else unprotected

-- `matching_protection_field_arrays`. An array of length 0, which C leaves undefined and compilers take
-- for one without elements, is one without elements here.
unfoldable pub matching_protection_field_arrays :
    ProtectionFieldArray → ProtectionFieldArray → ℕ → ℕ → Option SharedProtectionQuality
matching_protection_field_arrays a b va_idx_i va_idx_j =
    get_lp_fields_in_range a va_idx_i >>= λ active_a.
    get_lp_fields_in_range b va_idx_j >>= λ active_b. some (match_lists active_a active_b)
