-- ===== src/Core/Overlap.antt =====
-- src/core.c, `find_va_overlap` and `find_unprotected_va`: the pairs of accesses that are reported.
pub mod Accounts
pub mod Again
pub mod Inner
pub mod Outer
pub mod Sound
pub mod Guarded
pub mod Unguarded
use prongc.Prelude.{
  ℕ, zero, suc, ◌+◌, Bool, true, false, not, ◌||◌, ◌&&◌, Option, none, some, List, [], ◌∷◌, ◌++◌,
  length, ◌>>=◌, ◌==◌, if◌then◌else◌,
}
use prongc.VarAccess.{VarAccess, equal_var_accesses, va_is_placeholder_type, nullify}
use prongc.LockTracking.Pairs.{LockPrimitivePair}
use prongc.LockTracking.Fields.{ProtectionFieldArray, init_protection_field_array}
use prongc.LockTracking.Ranges.{
  SharedProtectionQuality, protected, unprotected, uncertain, matching_protection_field_arrays,
}
use prongc.Core.Annotate.{annotate_lock_protection_ranges}

-- A pair that is printed: the indices of the two accesses, and the heading.
pub data Heading : Type 0 where
  variable_overlap unprotected_data conditionally_protected : Heading

pub record Report : Type 0 where
  pub idx_a : ℕ
  pub idx_b : ℕ
  pub heading : Heading

-- the test of both functions: two accesses, none of them a placeholder, to the same variable
unfoldable pub overlaps : VarAccess → VarAccess → Option Bool
overlaps va_i va_j =
    if not (va_is_placeholder_type va_i.type) && not (va_is_placeholder_type va_j.type)
    then equal_var_accesses va_i va_j
    else some false

-- What the inner loop leaves: the access of the first function, those of the second that it went
-- over, and the reports.
pub record Row : Type 0 where
  pub va_i : VarAccess
  pub vas_b : List VarAccess
  pub found : List Report

pub record Scan : Type 0 where
  pub vas_a : List VarAccess
  pub vas_b : List VarAccess
  pub found : List Report

abbrev pub row_cons : VarAccess → Row → Row
row_cons vb r = record r { vas_b = vb ∷ r.vas_b }

abbrev pub report_cons : Report → Row → Row
report_cons x r = record r { found = x ∷ r.found }

-- `judge i j` is the heading under which an overlap is printed, and `none` where it is passed over.
-- The label `loop_end` stands at the end of the inner loop, so that the jump to it goes on with the
-- next access of the second function.
module _ (judge : ℕ → ℕ → Option (Option Heading)) where
  unfoldable pub scan_row : ℕ → ℕ → VarAccess → List VarAccess → Option Row
  scan_row i j va [] = some (record { va_i = va; vas_b = []; found = [] })
  scan_row i j va (vb ∷ vbs) =
      let keep = scan_row i (j + 1) va vbs >>= λ r. some (row_cons vb r) in
      let hit = λ (h : Heading). scan_row i (j + 1) (nullify va) vbs >>= λ r.
      some (report_cons (record { idx_a = i; idx_b = j; heading = h }) (row_cons (nullify vb) r)) in
      overlaps va vb >>= λ same.
      if same then (judge i j >>= λ v. elim v [ none ↦ keep | some h ↦ hit h ]) else keep

  unfoldable pub scan_all : ℕ → List VarAccess → List VarAccess → Option Scan
  scan_all i [] vbs = some (record { vas_a = []; vas_b = vbs; found = [] })
  scan_all i (va ∷ vas) vbs = scan_row i 0 va vbs >>= λ r. scan_all (i + 1) vas r.vas_b >>= λ s.
      some (record { vas_a = r.va_i ∷ s.vas_a; vas_b = s.vas_b; found = r.found ++ s.found })

-- `find_va_overlap`, on the two footprints: what it compares, reports and sets to null. For a report it
-- also calls `trace_va_overlap`, which prints chains of calls and changes no footprint; it is in Trace.
unfoldable pub find_va_overlap : List VarAccess → List VarAccess → Option Scan
find_va_overlap = scan_all (λ i j. some (some variable_overlap)) 0

-- the heading of `find_unprotected_va`
unfoldable pub bad_protection :
    ProtectionFieldArray → ProtectionFieldArray → SharedProtectionQuality → Option Heading
bad_protection a b uncertain = some conditionally_protected
bad_protection a b unprotected = some unprotected_data
bad_protection a b protected =
    if length a.lp_fields == 0 || length b.lp_fields == 0 then some unprotected_data else none

unfoldable pub protection_judge :
    ProtectionFieldArray → ProtectionFieldArray → ℕ → ℕ → Option (Option Heading)
protection_judge a b i j =
    matching_protection_field_arrays a b i j >>= λ q. some (bad_protection a b q)

module _ (realloc : ℕ → ℕ → Option ℕ) (lock_pair_array : List LockPrimitivePair) (p_a p_b : ℕ) where
  -- `find_unprotected_va`, with the addresses that `malloc` returned for the two arrays, and without the
  -- calls of `trace_va_overlap`
  unfoldable pub find_unprotected_va : List VarAccess → List VarAccess → Option Scan
  find_unprotected_va vas_a vas_b =
      annotate_lock_protection_ranges realloc lock_pair_array vas_a
        (init_protection_field_array p_a)
      >>= λ a.
          annotate_lock_protection_ranges realloc lock_pair_array vas_b
            (init_protection_field_array p_b)
          >>= λ b. scan_all (protection_judge a b) 0 vas_a vas_b
