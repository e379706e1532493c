-- ===== src/Walk/Composed.antt =====
-- The passes of the main program over one function, one behind the other: `process_func_info`,
-- `unwind_func_info`, `build_var_access_footprint`.
use prongc.Prelude.{ℕ, ◌≡◌, Bool, true, Option, none, some, List, ◌++◌, All, Str}
use prongc.VarAccess.{VarAccess}
use prongc.FuncInfo.{FuncInfo, func_info, no_array}
use prongc.Clang.{Clang}
use prongc.Core.Footprint.{build_var_access_footprint}
use prongc.Core.Footprint.Inline.{Kept, footprint-Returns}
use prongc.Core.Unwind.{unwind_func_info}
use prongc.Walk.{done, State}
use prongc.Walk.Visit.{process_func_info}
use prongc.Walk.Regular.{matched-regular}
use prongc.Walk.Matched.{process-regular}
use prongc.Walk.Unwound.{unwind-regular}

-- Where memory does not run out: if `process_func_info` returns for a function that has no accesses
-- and no callees yet, and `unwind_func_info` returns for the tree of functions that it builds, then
-- `build_var_access_footprint` returns for the tree that is left. It never runs out of callees, and it
-- puts a list of accesses behind the footprint, none of them nullified or a call marker.
pub walk-footprint :
    {C : Type 0} (clang : Clang C) (track : Bool) (file_names : List Str)
    (argument_usr : C → ℕ → Str) (room : Str → Bool) (has_room : (s : Str) → room s ≡ true)
    (fuel : ℕ) (st t : State C) (parsed_func_call : Option (List Str)) (g : FuncInfo C)
    → st.current_func.var_accesses ≡ none
    → st.callees ≡ no_array
    → process_func_info clang track file_names fuel st ≡ done t
    → unwind_func_info argument_usr room (func_info t.current_func t.callees) parsed_func_call
      ≡ some g
    → (r : List VarAccess) × ((acc : List VarAccess)
        → build_var_access_footprint g acc ≡ some (acc ++ r))
      × All Kept r
walk-footprint clang track file_names argument_usr room has_room fuel st t parsed g a c p u =
    footprint-Returns g (
      matched-regular g (
        unwind-regular argument_usr room has_room (func_info t.current_func t.callees) g parsed
          (process-regular clang track file_names fuel st t a c p) u))
