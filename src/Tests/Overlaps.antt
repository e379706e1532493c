-- ===== src/Tests/Overlaps.antt =====
-- Two functions that write one variable, with and without a lock, and a field whose block moves.
use prongc.Prelude.{
  ℕ, ◌+◌, ◌≡◌, refl, true, false, Option, none, some, List, [], ◌∷◌, All, Str, codes, str_eq, arith,
}
use prongc.VarAccess.{
  VarAccess, VarAccessType, strcmp_eq, read, write, lock_acquire, lock_release,
  va_is_placeholder_type, if_stmt, then_block, else_stmt, end_if,
}
use prongc.LockTracking.Pairs.{
  get_pair_by_lock_func, find_by_lock, lock_tracking_gen_hash, default_lock_pairs,
}
use prongc.LockTracking.Fields.{
  add_lock_protection_field, append_field, init_lp_field, set_protection_range_end, for_each, deref,
  end_list, end_one, assign, split_active, copy_range, add_lock_protection_copy, grow,
  add_protection_range_fields_inactive, reopen_inactive, get_lp_field_linked_list_end,
  lp_field_is_null, size_max, LpField, ProtectionFieldArray, init_protection_field_array,
  add_protection_range_fields_active,
}
use prongc.LockTracking.Fields.Stale.{active_stale}
use prongc.LockTracking.Ranges.{lp_cond_prot}
use prongc.Core.Annotate.{annotate_lock_protection_ranges, annotate_from, annotate_one, find_then}
use prongc.Core.Annotate.Conditional.{annotate-not_conditional}
use prongc.Core.Overlap.{Heading, variable_overlap, Scan, scan_all, find_va_overlap}
use prongc.Core.Overlap.Outer.{ScanDone, scan_all-Done}
use prongc.Core.Overlap.Again.{overlap-again}

abbrev access : Str → Option Str → VarAccessType → VarAccess
access usr callee type = record {
  usr = some usr;
  name = none;
  parent_func_name = some (codes "f");
  esc_func_spelling = callee;
  esc_func_usr = none;
  esc_param_idx = 0;
  line = 1;
  column = 1;
  type = type;
  is_ptr_type = false;
}

abbrev vas_a : List VarAccess
vas_a = access (codes "g") none write ∷ access (codes "h") none read ∷ []

abbrev vas_b : List VarAccess
vas_b = access (codes "i") none write ∷ access (codes "g") none read ∷ []

abbrev always : ℕ → ℕ → Option (Option Heading)
always i j = some (some variable_overlap)

scan_all-Done_example :
    (s : Scan) × (scan_all always 0 vas_a vas_b ≡ some s) × ScanDone always 0 vas_a vas_b s
unfolding va_is_placeholder_type
scan_all-Done_example =
    scan_all-Done always (λ i j e. cc) 0 vas_a vas_b (refl, (refl, tt)) (refl, (refl, tt))

overlap-again_example :
    (s : Scan) × (find_va_overlap vas_a vas_b ≡ some s)
    × (find_va_overlap s.vas_b s.vas_a
        ≡ some (record { vas_a = s.vas_b; vas_b = s.vas_a; found = [] }))
unfolding va_is_placeholder_type
overlap-again_example = overlap-again vas_a vas_b (refl, (refl, tt)) (refl, (refl, tt))

-- the block stays where it is
abbrev in_place : ℕ → ℕ → Option ℕ
in_place old cap = some old

abbrev moves : ℕ → ℕ → Option ℕ
moves old cap = some (old + 4096)

abbrev branching : List VarAccess
branching =
    access (codes "l") (some (codes "mutex_lock")) lock_acquire
    ∷ access (codes "if") none if_stmt
    ∷ access (codes "then") none then_block
    ∷ access (codes "l") (some (codes "mutex_unlock")) lock_release
    ∷ access (codes "else") none else_stmt
    ∷ access (codes "g") none write
    ∷ access (codes "end") none end_if
    ∷ []

abbrev branching_fields : ProtectionFieldArray
branching_fields = record {
  base = 64;
  capacity = 10;
  lp_fields =
      record {
        lock_va = 0;
        next_prot_range = some (record { base = 64; idx = 1 });
        branch_depth = 1;
        protection_range_start = 0;
        protection_range_end = 2;
        lock_obj_hash = 84696435;
        lock_func_hash = 3899188024;
        unlock_func_hash = 1208850557;
        is_ll_start = true;
      }
      ∷ record {
        lock_va = 0;
        next_prot_range = some (record { base = 64; idx = 2 });
        branch_depth = 0;
        protection_range_start = 2;
        protection_range_end = 3;
        lock_obj_hash = 84696435;
        lock_func_hash = 3899188024;
        unlock_func_hash = 1208850557;
        is_ll_start = false;
      }
      ∷ record {
        lock_va = 0;
        next_prot_range = none;
        branch_depth = 0;
        protection_range_start = 4;
        protection_range_end = size_max;
        lock_obj_hash = 84696435;
        lock_func_hash = 3899188024;
        unlock_func_hash = 1208850557;
        is_ll_start = false;
      }
      ∷ [];
}

branching-annotated :
    annotate_lock_protection_ranges in_place default_lock_pairs branching
      (init_protection_field_array 64)
    ≡ some branching_fields
unfolding annotate_lock_protection_ranges annotate_from annotate_one find_then strcmp_eq str_eq
    get_pair_by_lock_func find_by_lock lock_tracking_gen_hash default_lock_pairs
    init_protection_field_array add_lock_protection_field append_field init_lp_field
    set_protection_range_end for_each deref end_list end_one assign
    add_protection_range_fields_active split_active copy_range add_lock_protection_copy grow
    add_protection_range_fields_inactive reopen_inactive get_lp_field_linked_list_end
    lp_field_is_null
branching-annotated = refl

annotate-not_conditional_example : All (λ f. lp_cond_prot f ≡ false) branching_fields.lp_fields
annotate-not_conditional_example =
    annotate-not_conditional in_place default_lock_pairs branching 64 branching_fields (omega arith)
      branching-annotated

abbrev open_field : LpField
open_field = record {
  lock_va = 0;
  next_prot_range = none;
  branch_depth = 0;
  protection_range_start = 0;
  protection_range_end = size_max;
  lock_obj_hash = 1;
  lock_func_hash = 2;
  unlock_func_hash = 3;
  is_ll_start = true;
}

abbrev nearly_full : ProtectionFieldArray
nearly_full = record { base = 64; capacity = 2; lp_fields = open_field ∷ [] }

active_stale_example : add_protection_range_fields_active moves 5 1 nearly_full ≡ none
active_stale_example =
    active_stale moves 5 1 (64 + 4096) nearly_full open_field [] refl refl (omega arith)
      (omega arith) (omega arith) refl (λ e. absurd (ground arith))
