-- ===== src/Walk/Reference.antt =====
-- src/core.c, what `prong_visitor_walk_func` does with a reference to a variable.
use prongc.Prelude.{
  ℕ, ◌-◌, Bool, true, false, not, ◌&&◌, ◌||◌, Option, none, some, List, [], ◌∷◌, ◌++◌, length, drop,
  Str, codes, ltb, ◌==◌, if◌then◌else◌, ◌>>=◌,
}
use prongc.VarAccess.{
  VarAccessType, read, write, ptr_read, ptr_write, escape, init_var_access, no_idx,
}
use prongc.FuncInfo.{Func}
use prongc.Clang.{
  Clang, var_decl, parm_decl, member_ref_expr, call_expr, array_subscript_expr, unary_operator,
  binary_operator, TypeKind, pointer, other_type, UnaryOperator, addr_of, deref, pre_inc, post_inc,
  pre_dec, post_dec, is_kind,
}
use prongc.CursorStack.{
  ancestor_not_found, cursors_are_equal, in_cursor_stack, get_cursor_first_child,
  get_cursor_of_kind, get_binop_assignment, get_cursor_offset_of_kind, get_binop_assignment_offset,
  get_param_idx,
}
use prongc.Walk.{push_access, ensure_accesses}

-- What is pushed for a reference: nothing, an access, or an access that is part of an argument.
pub data Verdict : Type 0 where
  passed_over : Verdict
  plain : VarAccessType → Verdict
  to_callee : VarAccessType → Verdict

-- the switch over the kind of the variable's type
abbrev pub is_ptr_kind : TypeKind → Bool
is_ptr_kind other_type = false
is_ptr_kind _ = true

abbrev pub is_deref : UnaryOperator → Bool
is_deref deref = true
is_deref _ = false

abbrev pub is_addr_of : UnaryOperator → Bool
is_addr_of addr_of = true
is_addr_of _ = false

abbrev pub is_step : UnaryOperator → Bool
is_step pre_inc = true
is_step post_inc = true
is_step pre_dec = true
is_step post_dec = true
is_step _ = false

-- `strcpy` and `strcat` into a buffer of `size` bytes, a fault where the string does not fit
abbrev pub put_buffer : ℕ → Str → Option Str
put_buffer size s = if ltb (length s) size then some s else none

abbrev pub without_last : {A : Type 0} → List A → List A
without_last [] = []
without_last (x ∷ []) = []
without_last (x ∷ y ∷ xs) = x ∷ without_last (y ∷ xs)

module _ {C : Type 0} (clang : Clang C) where
  -- the tests for the left side of an operator
  unfoldable pub on_side : C → List C → C → Bool
  on_side current_cursor stack lhs =
      cursors_are_equal clang current_cursor lhs || in_cursor_stack clang stack lhs

  -- `decl_name_str` and `decl_usr_str`, and the loop that adds a member for each MemberRefExpr
  unfoldable pub member_names : List C → C → Str → Str → Option (Str × Str)
  member_names [] previous_memberref name usr = some (name, usr)
  member_names (member_cursor ∷ cs) previous_memberref name usr =
      let same = member_names cs previous_memberref name usr in
      let member_referenced = clang.referenced member_cursor in
      let arrow = elim (clang.type_kind previous_memberref) as (λ _. Str) [
        | pointer ↦ codes "->"
        | _ ↦ codes "."
      ] in
      let next = λ (n u : Str). member_names cs member_referenced n u in
      if is_kind clang member_ref_expr member_cursor
      then (put_buffer 256 (name ++ arrow ++ clang.spelling member_referenced) >>= λ n.
          put_buffer 384 (usr ++ codes "::" ++ clang.spelling member_referenced) >>= λ u. next n u)
      else same

  -- The loop goes from the closest member expression up, without the bottom of the stack.
  unfoldable pub reference_names : C → List C → Option (Str × Str)
  unfolding member_names
  reference_names referenced_cursor stack =
      let offset : ℕ = get_cursor_offset_of_kind clang stack member_ref_expr in
      put_buffer 256 (clang.display_name referenced_cursor) >>= λ name.
      put_buffer 384 (clang.usr referenced_cursor) >>= λ usr.
      if not (offset == ancestor_not_found)
      then member_names (without_last (drop (offset - 1) stack)) referenced_cursor name usr
      else some (name, usr)

  -- The branches for a dereference, and for an array that is subscripted.
  unfoldable pub deref_verdict : C → List C → VarAccessType
  unfolding on_side
  deref_verdict current_cursor stack =
      let binop_lhs = get_cursor_first_child clang (get_binop_assignment clang stack) in
      let non_assign_binop_lhs =
        get_cursor_first_child clang (get_cursor_of_kind clang stack binary_operator) in
      if not (get_binop_assignment_offset clang stack == ancestor_not_found)
      then (if on_side current_cursor stack binop_lhs
          then (if cursors_are_equal clang current_cursor binop_lhs
                || in_cursor_stack clang stack non_assign_binop_lhs
              then ptr_write
              else read)
          else ptr_read)
      else ptr_read

  unfoldable pub subscript_verdict : C → List C → Verdict
  unfolding on_side
  subscript_verdict current_cursor stack =
      let arrsubexp_lhs =
        get_cursor_first_child clang (get_cursor_of_kind clang stack array_subscript_expr) in
      let binop_lhs = get_cursor_first_child clang (get_binop_assignment clang stack) in
      if on_side current_cursor stack arrsubexp_lhs
      then (if not (get_binop_assignment_offset clang stack == ancestor_not_found)
          then plain (if on_side current_cursor stack binop_lhs then ptr_write else ptr_read)
          else passed_over)
      else plain read

  -- The branch for a unary operator, and for an assignment.
  unfoldable unop_verdict : UnaryOperator → C → List C → VarAccessType
  unfolding deref_verdict
  unop_verdict unop_kind current_cursor stack =
      if is_deref unop_kind
      then deref_verdict current_cursor stack
      else if is_step unop_kind
      then write
      else read

  unfoldable binop_verdict : C → List C → VarAccessType
  unfolding on_side
  binop_verdict current_cursor stack =
      let binop_lhs = get_cursor_first_child clang (get_binop_assignment clang stack) in
      if on_side current_cursor stack binop_lhs then write else read

  -- The whole decision, by the offsets of the closest ancestors.
  unfoldable pub reference_verdict : C → List C → Bool → Verdict
  unfolding subscript_verdict unop_verdict binop_verdict
  reference_verdict current_cursor stack is_ptr_type =
      let binop : ℕ = get_binop_assignment_offset clang stack in
      let unop : ℕ = get_cursor_offset_of_kind clang stack unary_operator in
      let arrsubexp : ℕ = get_cursor_offset_of_kind clang stack array_subscript_expr in
      let callexpr : ℕ = get_cursor_offset_of_kind clang stack call_expr in
      let unop_kind : UnaryOperator =
        clang.unary_operator_kind (get_cursor_of_kind clang stack unary_operator) in
      if ltb callexpr binop && ltb callexpr arrsubexp
      then to_callee (
          if ltb unop callexpr && ltb unop arrsubexp
          then (if is_addr_of unop_kind then escape else read)
          else if is_ptr_type
          then escape
          else read)
      else if ltb arrsubexp binop && ltb arrsubexp unop
      then subscript_verdict current_cursor stack
      else if ltb unop binop && ltb unop arrsubexp
      then plain (unop_verdict unop_kind current_cursor stack)
      else if ltb binop unop && ltb binop arrsubexp
      then plain (binop_verdict current_cursor stack)
      else plain read

  -- the calls of `push_var_access`, with the arguments that the branches share
  unfoldable pub push_verdict : C → List C → Str → Str → Bool → Verdict → Func C → Func C
  push_verdict cursor stack name usr ptr passed_over f = f
  push_verdict cursor stack name usr ptr (plain type) f =
      push_access
        (init_var_access (some usr) (some name) none none f.spelling no_idx (clang.line cursor)
          (clang.column cursor) type ptr)
        f
  push_verdict cursor stack name usr ptr (to_callee type) f =
      let callexpr = get_cursor_of_kind clang stack call_expr in
      let callexpr_decl = clang.referenced callexpr in
      push_access
        (init_var_access (some usr) (some name) (some (clang.spelling callexpr_decl))
          (some (clang.usr callexpr_decl)) f.spelling (get_param_idx clang callexpr stack)
          (clang.line cursor) (clang.column cursor) type ptr)
        f

  -- the branch for a DeclRefExpr
  unfoldable pub visit_reference : C → List C → Func C → Option (Func C)
  unfolding reference_names reference_verdict push_verdict
  visit_reference current_cursor stack f =
      let referenced_cursor = clang.referenced current_cursor in
      let is_ptr_type : Bool = is_ptr_kind (clang.type_kind referenced_cursor) in
      if not (is_kind clang var_decl referenced_cursor)
        && not (is_kind clang parm_decl referenced_cursor)
      then some (ensure_accesses f)
      else reference_names referenced_cursor stack >>= λ names. some (
          push_verdict current_cursor stack names.0 names.1 is_ptr_type
            (reference_verdict current_cursor stack is_ptr_type) (ensure_accesses f))
