-- ===== src/Tests/Traces.antt =====
-- The chains for an access of a small tree of functions.
use prongc.Prelude.{ℕ, Bool, true, false, ◌≡◌, refl, none, some, [], ◌∷◌, ◌++◌, codes, ◌==◌}
use prongc.VarAccess.{VarAccess, init_var_access, write, if_stmt, no_idx}
use prongc.FuncInfo.{FuncInfo, func_info, no_array, array, nil, cons}
use prongc.Args.Split.{mark_postfix_func_name}
use prongc.Core.Trace.{trace_va_overlap, find_exclusive_va_names}
use prongc.Core.Trace.Chains.{named, present, Chains, trace-present, exclusive-unnamed}
use prongc.Tests.Tree.{worker}

abbrev same_line : VarAccess → VarAccess → Bool
same_line a b = a.line == b.line

abbrev to_shared : VarAccess
to_shared =
    init_var_access (some (codes "c:shared")) (some (codes "shared")) none none (some (codes "f"))
      no_idx 1 1 write false

abbrev branch : VarAccess
branch = record {
  usr = none;
  name = none;
  parent_func_name = some (codes "f");
  esc_func_spelling = none;
  esc_func_usr = none;
  esc_param_idx = no_idx;
  line = 0;
  column = 0;
  type = if_stmt;
  is_ptr_type = false;
}

abbrev inner : FuncInfo ℕ
inner = func_info (record worker { var_accesses = some (to_shared ∷ []) }) no_array

abbrev outer : FuncInfo ℕ
outer = func_info worker (array (cons inner nil))

outer-named : named outer ≡ true
unfolding named
outer-named = refl

trace-present_example :
    Chains same_line to_shared []
      (present same_line to_shared outer)
      (trace_va_overlap same_line to_shared [] outer)
trace-present_example = trace-present same_line to_shared [] outer outer-named

no_postfix : mark_postfix_func_name (codes "shared") ≡ none
unfolding mark_postfix_func_name
no_postfix = refl

exclusive-unnamed_example :
    find_exclusive_va_names same_line outer
      (codes "c:shared" ∷ [])
      (codes "shared" ∷ [])
      ((to_shared ∷ []) ++ branch ∷ [])
    ≡ none
exclusive-unnamed_example =
    exclusive-unnamed same_line outer (codes "c:shared" ∷ []) (codes "shared") [] (to_shared ∷ [])
      branch [] no_postfix refl
