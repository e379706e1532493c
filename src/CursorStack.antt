-- ===== src/CursorStack.antt =====
-- src/cursor_arr.c: the searches on the stack of cursors. The stack is a list, its top, the last
-- element of the C array, first; the loops from `size-1` down go through it from its head.
pub mod Nearest
pub mod Definition
use prongc.Prelude.{
  ℕ, suc, ◌+◌, ◌-◌, ◌%◌, ◌^◌, Bool, true, false, not, ◌&&◌, ◌||◌, Option, none, some, List, [], ◌∷◌,
  ◌++◌, length, get_elem?, drop, Str, codes, str_eq, ltb, leb, ◌==◌, if◌then◌else◌, ◌>>=◌,
}
use prongc.VarAccess.{no_idx}
use prongc.DynAos.Query.{member}
use prongc.Args.Options.{starts_with}
use prongc.Clang.{
  tu_children, Clang, CursorKind, function_decl, binary_operator, Forest, roots, is_kind,
}

-- ANCESTOR_NOT_FOUND
abbrev pub ancestor_not_found : ℕ
ancestor_not_found = 2 ^ 32 - 1

unfoldable pub pop_cursor : {C : Type 0} → List C → List C
pop_cursor [] = []
pop_cursor (c ∷ stack) = stack

module _ {C : Type 0} (clang : Clang C) where
  unfoldable pub cursors_are_equal : C → C → Bool
  cursors_are_equal a b =
      if clang.equal a b
      then true
      else if clang.is_null a || clang.is_null b
      then false
      else if not (clang.same_start a b)
      then false
      else clang.same_end a b

  unfoldable pub in_cursor_stack : List C → C → Bool
  unfolding cursors_are_equal
  in_cursor_stack [] cursor = false
  in_cursor_stack (c ∷ stack) cursor = cursors_are_equal c cursor || in_cursor_stack stack cursor

  unfoldable pub get_cursor_first_child : C → C
  get_cursor_first_child cursor = elim (roots (clang.below cursor)) [
    | [] ↦ clang.null_cursor
    | c ∷ cs ↦ c
  ]

  unfoldable pub operator_is_assignment : C → Bool
  operator_is_assignment cursor =
      if not (is_kind clang binary_operator cursor)
      then false
      else leb clang.op_assign (clang.binary_operator_kind cursor)
        && leb (clang.binary_operator_kind cursor) clang.op_or_assign

  -- the loop of the two searches for a cursor
  unfoldable pub nearest : (C → Bool) → List C → C
  nearest test [] = clang.null_cursor
  nearest test (c ∷ stack) = if test c then c else nearest test stack

  abbrev pub is_binop_assignment : C → Bool
  is_binop_assignment c = is_kind clang binary_operator c && operator_is_assignment c

  unfoldable pub get_cursor_of_kind : List C → CursorKind → C
  unfolding nearest
  get_cursor_of_kind stack target_kind = nearest (is_kind clang target_kind) stack

  unfoldable pub get_binop_assignment : List C → C
  unfolding nearest
  get_binop_assignment stack = nearest is_binop_assignment stack

  -- `offset` counts the cursors above the rest of the stack, from 1 at its top.
  unfoldable pub offset_from : (C → Bool) → ℕ → List C → ℕ
  offset_from test offset [] = ancestor_not_found
  offset_from test offset (c ∷ stack) =
      let rest = offset_from test (offset + 1) stack in if test c then offset else rest

  unfoldable pub get_cursor_offset_of_kind : List C → CursorKind → ℕ
  unfolding offset_from
  get_cursor_offset_of_kind stack target_kind = offset_from (is_kind clang target_kind) 1 stack

  unfoldable pub get_binop_assignment_offset : List C → ℕ
  unfolding offset_from
  get_binop_assignment_offset stack = offset_from is_binop_assignment 1 stack

  -- `stack->data[stack->size-offset-1]`, a fault outside of the stack; on an empty stack `size-1` wraps
  -- around, and no offset is refused.
  unfoldable pub get_cursor_by_offset : List C → ℕ → Option C
  get_cursor_by_offset stack offset =
      if ltb ((length stack + (2 ^ 64 - 1)) % 2 ^ 64) offset
      then some clang.null_cursor
      else get_elem? stack offset

  -- `get_cursor_array_tail`, a fault on an empty stack
  unfoldable pub get_cursor_array_tail : List C → Option C
  get_cursor_array_tail [] = none
  get_cursor_array_tail (c ∷ stack) = some c

  -- the loop of `get_param_idx` over the arguments from `i` on, `n` of them
  unfoldable pub param_from : List C → C → ℕ → ℕ → ℕ
  unfolding in_cursor_stack
  param_from stack call_expr i ℕ.zero = no_idx
  param_from stack call_expr i (suc n) =
      let rest = param_from stack call_expr (i + 1) n in
      if in_cursor_stack stack (clang.argument call_expr i) then i else rest

  unfoldable pub get_param_idx : C → List C → ℕ
  unfolding param_from
  get_param_idx call_expr stack = param_from stack call_expr 0 (clang.num_arguments call_expr)

  -- `get_ifstmt_info`: the children by their number; from the third on each overwrites `else_block`.
  pub record IfStmtInfo : Type 0 where
    pub condition_block : C
    pub then_block : C
    pub else_block : C

  abbrev pub last_of : C → List C → C
  last_of c [] = c
  last_of c (d ∷ ds) = last_of d ds

  abbrev pub ifstmt_children : List C → IfStmtInfo
  ifstmt_children [] = record {
    condition_block = clang.null_cursor;
    then_block = clang.null_cursor;
    else_block = clang.null_cursor;
  }
  ifstmt_children (c ∷ []) = record {
    condition_block = c;
    then_block = clang.null_cursor;
    else_block = clang.null_cursor;
  }
  ifstmt_children (c ∷ t ∷ es) = record {
    condition_block = c;
    then_block = t;
    else_block = last_of clang.null_cursor es;
  }

  unfoldable pub get_ifstmt_info : C → IfStmtInfo
  get_ifstmt_info ifstmt_cursor = ifstmt_children (roots (clang.below ifstmt_cursor))

  -- the test of `find_call_definition_visitor`
  abbrev pub defines : Str → C → Bool
  defines callexpr_usr c =
      is_kind clang function_decl c && (clang.is_definition c && str_eq callexpr_usr (clang.usr c))

  -- `find_call_definition_visitor` over the top of one translation unit
  unfoldable pub find_in_tu : Str → List C → C → C
  find_in_tu callexpr_usr [] found = found
  find_in_tu callexpr_usr (c ∷ cs) found =
      let rest = find_in_tu callexpr_usr cs found in if defines callexpr_usr c then c else rest

  -- The loop of `find_callexpr_definition` over the translation units from `i` on, `n` of them. What
  -- a later unit defines overwrites what an earlier one did.
  unfoldable pub find_in_tus : Str → ℕ → ℕ → C → C
  unfolding find_in_tu
  find_in_tus callexpr_usr i ℕ.zero found = found
  find_in_tus callexpr_usr i (suc n) found =
      find_in_tus callexpr_usr (i + 1) n (find_in_tu callexpr_usr (tu_children clang i) found)

  unfoldable pub find_callexpr_definition : ℕ → C → C
  unfolding find_in_tus
  find_callexpr_definition file_count callexpr_cursor =
      find_in_tus (clang.usr callexpr_cursor) 0 file_count clang.null_cursor

  -- `strstr(path, part) != NULL`
  unfoldable pub contains_part : Str → Str → Bool
  unfolding starts_with
  contains_part part [] = starts_with part []
  contains_part part (c ∷ path) = starts_with part (c ∷ path) || contains_part part path

  unfoldable pub prong_is_system_header : C → List Str → Bool
  unfolding contains_part
  prong_is_system_header cursor file_names =
      let path = clang.file_name cursor in
      if clang.in_system_header cursor
      then true
      else if member path file_names
      then false
      else contains_part (codes "/linux/") path
        || (contains_part (codes "include/linux") path
            || (contains_part (codes "arch/") path
                || (contains_part (codes "kernel/") path
                    || (contains_part (codes "mm/") path || contains_part (codes "fs/") path))))
