-- ===== src/Tests/Walk.antt =====
-- The walk over a small program.
use prongc.Prelude.{
  ℕ, ◌≡◌, ◌⊎◌, refl, true, Option, none, some, List, [], ◌∷◌, ◌++◌, All, Str, codes, str_eq, arith,
}
use prongc.LockTracking.Pairs.{lock_primitive_type}
use prongc.VarAccess.{VarAccess, init_var_access}
use prongc.FuncInfo.{FuncInfo, func_info}
use prongc.Core.Footprint.{build_var_access_footprint}
use prongc.Core.Footprint.Inline.{Kept}
use prongc.Core.Unwind.{unwind_func_info}
use prongc.CursorStack.{
  cursors_are_equal, prong_is_system_header, get_cursor_offset_of_kind, get_binop_assignment_offset,
  operator_is_assignment, get_ifstmt_info, get_cursor_first_child, get_binop_assignment,
  in_cursor_stack, get_cursor_of_kind, get_param_idx,
}
use prongc.Walk.{Run, done, fault, out_of_fuel, State}
use prongc.Walk.Visit.{process_func_info}
use prongc.Walk.Ends.{process-returns}
use prongc.Walk.Matched.{process-regular}
use prongc.Walk.Unwinds.{fits, params_of, unwind-returns}
use prongc.Walk.Composed.{walk-footprint}
use prongc.Tests.Tree.{small, files, start, argument_usr, us, known}

abbrev state_of : State ℕ → Run (State ℕ) → State ℕ
state_of st (done t) = t
state_of st fault = st
state_of st out_of_fuel = st

after : State ℕ
unfolding process_func_info
after = state_of start (process_func_info small true files 2 start)

walked : process_func_info small true files 2 start ≡ done after
unfolding process_func_info after cursors_are_equal prong_is_system_header str_eq
    get_cursor_offset_of_kind
walked = refl

abbrev func_of : FuncInfo ℕ → Option (FuncInfo ℕ) → FuncInfo ℕ
func_of f none = f
func_of f (some g) = g

call_text : Option (List Str)
call_text = some (codes "worker" ∷ codes "shared" ∷ [])

unwound : FuncInfo ℕ
unfolding unwind_func_info after call_text
unwound = func_of (func_info after.current_func after.callees) (
    unwind_func_info argument_usr (λ s. true) (func_info after.current_func after.callees)
      call_text)

unwinds :
    unwind_func_info argument_usr (λ s. true) (func_info after.current_func after.callees) call_text
    ≡ some unwound
unfolding unwind_func_info unwound after call_text process_func_info cursors_are_equal
    prong_is_system_header str_eq get_cursor_offset_of_kind get_binop_assignment_offset
    operator_is_assignment get_ifstmt_info init_var_access get_cursor_first_child
    get_binop_assignment in_cursor_stack get_cursor_of_kind get_param_idx lock_primitive_type
unwinds = refl

process-returns_example :
    (process_func_info small true files 7 start ≡ fault)
    ⊎ ((t : State ℕ) × (process_func_info small true files 7 start ≡ done t))
process-returns_example = process-returns small true files us known 7 start (omega arith)

walk-footprint_example :
    (r : List VarAccess) × ((acc : List VarAccess)
      → build_var_access_footprint unwound acc ≡ some (acc ++ r))
    × All Kept r
walk-footprint_example =
    walk-footprint small true files argument_usr (λ s. true) (λ s. refl) 2 start after call_text
      unwound refl refl walked unwinds

after_fits : fits call_text (params_of (func_info after.current_func after.callees)) ≡ true
unfolding after process_func_info call_text cursors_are_equal prong_is_system_header str_eq
    get_cursor_offset_of_kind get_binop_assignment_offset operator_is_assignment get_ifstmt_info
after_fits = refl

unwind-returns_example :
    (g : FuncInfo ℕ) × (unwind_func_info argument_usr
        (λ s. true)
        (func_info after.current_func after.callees)
        call_text
      ≡ some g)
unwind-returns_example =
    unwind-returns argument_usr (λ s. true) (λ s. refl) (func_info after.current_func after.callees)
      call_text (process-regular small true files 2 start after refl refl walked) after_fits
