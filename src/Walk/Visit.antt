-- ===== src/Walk/Visit.antt =====
-- src/core.c, `prong_visitor_walk_func` and `process_func_info`.
use prongc.Prelude.{
  ℕ, zero, suc, Bool, false, not, ◌&&◌, ◌||◌, none, some, List, [], ◌∷◌, ◌++◌, length, Str, ◌==◌,
  if◌then◌else◌,
}
use prongc.VarAccess.{
  VarAccess, init_var_access, no_idx, call, if_stmt as if_marker, then_block, else_stmt,
}
use prongc.FuncInfo.{init_func_info, Func, func_info, no_array}
use prongc.DynAos.Query.{member}
use prongc.Clang.{
  Clang, var_decl, parm_decl, if_stmt, decl_ref_expr, call_expr, no_linkage, linkage_code, is_kind,
}
use prongc.CursorStack.{
  cursors_are_equal, get_ifstmt_info, find_callexpr_definition, prong_is_system_header,
}
use prongc.Walk.{
  ChildVisit, recurse, visit_children, Run, done, out_of_fuel, and_then, or_fault, State,
  push_access, ensure_accesses, marker, push_callee, pop_to,
}
use prongc.Walk.Reference.{visit_reference}

module _ {C : Type 0} (clang : Clang C) (arg_track_locking : Bool) (file_names : List Str) where
  -- The stack, as the cursors visited before leave it.
  unfoldable pub update_stack : C → State C → State C
  unfolding pop_to
  update_stack parent_cursor st =
      if clang.is_null st.last_visited
      then record st { ancestry_stack = parent_cursor ∷ st.ancestry_stack }
      else if not (clang.is_null parent_cursor)
          && cursors_are_equal clang parent_cursor st.last_visited
      then record st { ancestry_stack = parent_cursor ∷ st.ancestry_stack }
      else (let popped : List C × Func C =
            pop_to clang arg_track_locking parent_cursor st.ancestry_stack st.current_func in
          record st { ancestry_stack = popped.0; current_func = popped.1 })

  -- A declaration without linkage is a local variable or a parameter.
  unfoldable pub collect_decl : C → Func C → Func C
  collect_decl current_cursor f =
      if not (linkage_code (clang.linkage current_cursor) == linkage_code no_linkage)
      then f
      else if is_kind clang var_decl current_cursor
      then record f { locals = f.locals ++ clang.usr current_cursor ∷ [] }
      else if is_kind clang parm_decl current_cursor
      then record f { params = f.params ++ clang.usr current_cursor ∷ [] }
      else f

  -- the markers for the two branches of the parent, and for an if statement itself
  unfoldable pub mark_branch : C → C → Func C → Func C
  unfolding marker
  mark_branch current_cursor parent_cursor f =
      let ifstmt_info = get_ifstmt_info clang parent_cursor in
      if arg_track_locking && is_kind clang if_stmt parent_cursor
      then (if cursors_are_equal clang current_cursor ifstmt_info.then_block
          then push_access (marker then_block f) f
          else if not (clang.is_null ifstmt_info.else_block)
              && cursors_are_equal clang current_cursor ifstmt_info.else_block
          then push_access (marker else_stmt f) f
          else ensure_accesses f)
      else f

  unfoldable pub mark_if : C → Func C → Func C
  unfolding marker
  mark_if current_cursor f =
      if arg_track_locking && is_kind clang if_stmt current_cursor
      then push_access (marker if_marker f) f
      else f

  -- the definition that a called function stands for, and itself if there is none
  unfoldable pub working_cursor : C → C
  working_cursor callee_decl =
      let found = find_callexpr_definition clang (length file_names) callee_decl in
      if clang.is_definition callee_decl
      then callee_decl
      else if clang.is_null found
      then callee_decl
      else found

  -- what `push_func_info` is given for a callee
  unfoldable pub callee_func : C → Func C
  callee_func cursor =
      init_func_info cursor (some (clang.usr cursor)) (some (clang.display_name cursor))
        (some (clang.spelling cursor)) (prong_is_system_header clang cursor file_names)
        (clang.is_definition cursor)

  unfoldable pub call_access : C → Func C → VarAccess
  call_access cursor f =
      init_var_access none none (some (clang.spelling cursor)) (some (clang.usr cursor)) f.spelling
        no_idx 0 0 call false

  abbrev pub push_current : C → State C → State C
  push_current current_cursor st = record st { ancestry_stack = current_cursor ∷ st.ancestry_stack }

  -- The branch for a CallExpr; `process` is `process_func_info`. Its callee is the last of the array:
  -- it is pushed here with what `process` made of it.
  unfoldable pub visit_call : (State C → Run (State C)) → C → State C → Run (State C)
  unfolding working_cursor callee_func call_access
  visit_call process current_cursor st =
      let callee_decl = clang.referenced current_cursor in
      let working = working_cursor callee_decl in
      let callee : Func C = callee_func working in
      let f : Func C = push_access (call_access working st.current_func) st.current_func in
      let touched : List Str = st.touched_func_usrs ++ clang.usr working ∷ [] in
      if clang.is_null callee_decl
      then done (push_current current_cursor st)
      else if member (clang.usr working) st.touched_func_usrs
      then done (push_current current_cursor st)
      else if callee.in_system_header || not callee.has_definition
      then done (
          push_current current_cursor (record st {
            touched_func_usrs = touched;
            current_func = f;
            callees = push_callee st.callees (func_info callee no_array);
          }))
      else and_then
          (process
            (record st { touched_func_usrs = touched; current_func = callee; callees = no_array }))
          (λ t. done (
            push_current current_cursor (record t {
              current_func = f;
              callees = push_callee st.callees (func_info t.current_func t.callees);
            })))

  -- what the visitor does before it looks at the kind of the cursor
  unfoldable pub enter_cursor : C → C → State C → State C
  unfolding update_stack collect_decl mark_branch mark_if
  enter_cursor current_cursor parent_cursor st =
      let s : State C = update_stack parent_cursor st in
      record s {
        last_visited = current_cursor;
        current_func =
            mark_if current_cursor (
              mark_branch current_cursor parent_cursor
                (collect_decl current_cursor s.current_func));
      }

  -- what it does then
  unfoldable pub visit_entered :
      (State C → Run (State C)) → C → State C → Run (ChildVisit × State C)
  unfolding visit_reference visit_call
  visit_entered process current_cursor s =
      if is_kind clang decl_ref_expr current_cursor
      then and_then
          (or_fault (visit_reference clang current_cursor s.ancestry_stack s.current_func))
          (λ f. done (recurse, record s { current_func = f }))
      else if is_kind clang call_expr current_cursor
      then and_then (visit_call process current_cursor s) (λ t. done (recurse, t))
      else done (recurse, s)

  -- `prong_visitor_walk_func`; it always asks libclang to go on with the children.
  unfoldable pub visit_cursor :
      (State C → Run (State C)) → C → C → State C → Run (ChildVisit × State C)
  unfolding enter_cursor visit_entered
  visit_cursor process current_cursor parent_cursor st =
      visit_entered process current_cursor (enter_cursor current_cursor parent_cursor st)

  -- `process_func_info` for the function in `current_func`. The recursion goes down one level for
  -- each callee that was not touched before; `fuel` bounds the levels.
  unfoldable pub process_func_info : ℕ → State C → Run (State C)
  unfolding visit_children visit_cursor
  process_func_info zero st = out_of_fuel
  process_func_info (suc fuel) st =
      visit_children (visit_cursor (process_func_info fuel)) st.current_func.cursor
        (clang.below st.current_func.cursor) st
