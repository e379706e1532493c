-- ===== src/Tests/Program.antt =====
-- The whole program on a small one.
use prongc.Prelude.{
  ℕ, ◌≡◌, ◌≢◌, ◌⊎◌, refl, true, false, none, some, List, [], ◌∷◌, Str, codes, str_eq,
}
use prongc.DynAos.{ok}
use prongc.Args.Split.{paths, split_semicolon_list, split_comma_list}
use prongc.Args.Call.{trim_end, skip_space, take_arg}
use prongc.VarAccess.{init_var_access}
use prongc.CursorStack.{
  cursors_are_equal, prong_is_system_header, get_cursor_offset_of_kind, get_binop_assignment_offset,
  operator_is_assignment, get_cursor_first_child, get_binop_assignment, in_cursor_stack,
  get_cursor_of_kind, get_param_idx, get_ifstmt_info,
}
use prongc.LockTracking.Pairs.{null_pair, LockPrimitivePair, lock_primitive_type}
use prongc.LockTracking.Pairs.Table.{is_ok}
use prongc.Walk.{Run, done, fault, out_of_fuel}
use prongc.Main.Program.{Outside, Exit, note, main}
use prongc.Main.Program.Accepts.{Checked, main-ok}
use prongc.Args.Options.{Options, init_options, process_args}
use prongc.Tests.Tree.{small, start, argument_usr}

abbrev slots_of : ℕ → List LockPrimitivePair
slots_of ℕ.zero = []
slots_of (ℕ.suc n) = null_pair ∷ slots_of n

abbrev outside : Outside
outside = record {
  glob = λ s. paths (s ∷ []);
  atoi = λ s. 2;
  priv_memory = true;
  tu_memory = true;
  slots = slots_of;
  fields_a = 64;
  fields_b = 4096;
  realloc = λ old cap. some old;
  diagnostics = λ i. note ∷ [];
  same = λ va vb. false;
}

abbrev argv : List Str
argv = codes "--functions=worker(shared)" ∷ codes "--files=small.c" ∷ []

abbrev exit_of : Exit → Run Exit → Exit
exit_of x (done y) = y
exit_of x fault = x
exit_of x out_of_fuel = x

abbrev no_exit : Exit
no_exit = record { ret = ok; messages = []; outcome = none }

result : Exit
unfolding main
result = exit_of no_exit (main small argument_usr (λ s. true) outside start 7 argv)

runs : main small argument_usr (λ s. true) outside start 7 argv ≡ done result
unfolding main result split_semicolon_list split_comma_list trim_end str_eq skip_space take_arg
    cursors_are_equal prong_is_system_header get_cursor_offset_of_kind get_binop_assignment_offset
    operator_is_assignment init_var_access get_cursor_first_child get_binop_assignment
    in_cursor_stack get_cursor_of_kind get_param_idx get_ifstmt_info lock_primitive_type
runs = refl

options : Options
unfolding process_args
options = (process_args outside.glob outside.atoi argv init_options).1

accepted : is_ok result.ret ≡ true
unfolding runs result main
accepted = refl

main-ok_example :
    ((options.func_names ≢ []) × (options.file_names ≢ []))
    × (((options.help ≡ true) × (result.outcome ≡ none))
        ⊎ ((options.help ≡ false)
            × Checked small argument_usr (λ s. true) outside start 7 options result.outcome))
unfolding options
main-ok_example = main-ok small argument_usr (λ s. true) outside start 7 argv result runs accepted
