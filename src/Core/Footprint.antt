-- ===== src/Core/Footprint.antt =====
-- src/core.c, `build_var_access_footprint`: the accesses of a function and of all that it calls.
pub mod Inline
use prongc.Prelude.{
  ℕ, ◌+◌, Bool, not, ◌||◌, ◌&&◌, Option, none, some, List, [], ◌∷◌, ◌++◌, ◌==◌, if◌then◌else◌,
  ◌>>=◌,
}
use prongc.VarAccess.{VarAccess, VarAccessType, null, call, type_code}
use prongc.FuncInfo.{Func, FuncInfo, func_info, Callees, no_array, array, FuncInfoArr, nil, cons}

-- The growing footprint, as each call leaves it.
abbrev pub Collect : Type 0
Collect = List VarAccess → Option (List VarAccess)

abbrev pub is_type : VarAccessType → VarAccess → Bool
is_type t va = type_code va.type == type_code t

-- The loop where `callees` is NULL: a call is passed over.
unfoldable pub collect_flat : List VarAccess → Collect
collect_flat [] access_footprint = some access_footprint
collect_flat (va ∷ vas) access_footprint = collect_flat vas (
    if not (is_type null va) && not (is_type call va)
    then access_footprint ++ va ∷ []
    else access_footprint)

-- The loop where it is not, with the calls on the functions from `next_callee` on. A call with no
-- function left reads outside of the array, a fault.
unfoldable pub collect_calls : List VarAccess → List Collect → Collect
collect_calls [] callees access_footprint = some access_footprint
collect_calls (va ∷ vas) [] access_footprint =
    let rest = λ (acc : List VarAccess). collect_calls vas [] acc in
    if is_type call va
    then none
    else rest (if not (is_type null va) then access_footprint ++ va ∷ [] else access_footprint)
collect_calls (va ∷ vas) (f ∷ fs) access_footprint =
    let next = λ (acc : List VarAccess). collect_calls vas fs acc in
    let same = λ (acc : List VarAccess). collect_calls vas (f ∷ fs) acc in
    if is_type call va
    then f access_footprint >>= next
    else same (if not (is_type null va) then access_footprint ++ va ∷ [] else access_footprint)

unfoldable pub collect : Option (List VarAccess) → Option (List Collect) → Collect
unfolding collect_flat collect_calls
collect none callees access_footprint = some access_footprint
collect (some vas) none access_footprint = collect_flat vas access_footprint
collect (some vas) (some fs) access_footprint = collect_calls vas fs access_footprint

unfoldable mutual
  unfolding collect

  pub build_var_access_footprint :
      {C : Type 0} → FuncInfo C → List VarAccess → Option (List VarAccess)
  build_var_access_footprint (func_info f callees) access_footprint =
      let rest = collect f.var_accesses (footprints callees) access_footprint in
      if f.in_system_header || not f.has_definition then some access_footprint else rest

  pub footprints : {C : Type 0} → Callees C → Option (List Collect)
  footprints no_array = none
  footprints (array fs) = some (footprint_each fs)

  pub footprint_each : {C : Type 0} → FuncInfoArr C → List Collect
  footprint_each nil = []
  footprint_each (cons f fs) = (λ acc. build_var_access_footprint f acc) ∷ footprint_each fs
