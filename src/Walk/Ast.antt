-- ===== src/Walk/Ast.antt =====
-- src/core.c, `prong_visitor_walk_ast` and `process_tu_array`: the functions that were asked for, and
-- the global variables.
pub mod Asked
use prongc.Prelude.{
  ℕ, zero, suc, ◌+◌, Bool, true, false, not, ◌&&◌, ◌||◌, Option, none, some, List, [], ◌∷◌, ◌++◌,
  length, Str, str_eq, ltb, ◌==◌, if◌then◌else◌, ◌>>=◌,
}
use prongc.Args.Call.{parse_func_call}
use prongc.FuncInfo.{init_func_info, Func}
use prongc.Clang.{
  Clang, function_decl, var_decl, compound_stmt, linkage_code, internal, external, is_kind,
}
use prongc.Walk.{Run, done, and_then, or_fault, ChildVisit, continue_visit, recurse, visit_children}

-- the fields of `struct prong_priv` that this visitor changes
pub record Gathered (C : Type 0) : Type 0 where
  pub funcs : List (Func C)
  pub global_usrs : List Str

module _ {C : Type 0} (clang : Clang C) (func_names : List Str) where
  -- what `push_func_info` is given
  unfoldable pub found_func : C → Func C
  found_func cursor =
      init_func_info cursor (some (clang.usr cursor)) (some (clang.display_name cursor))
        (some (clang.spelling cursor)) false true

  -- the body of the loop over `func_names`; `strcmp` on a string that was never written is a fault
  unfoldable pub match_func : C → Str → List (Func C) → Option (List (Func C))
  unfolding parse_func_call found_func
  match_func parent_cursor func_name funcs = elim (parse_func_call (some func_name)).1 [
    | [] ↦ none
    | parsed_name ∷ args ↦
        let num_args : ℕ = clang.num_arguments parent_cursor in
        some (
          if str_eq parsed_name (clang.spelling parent_cursor)
          then (if ltb (length args) num_args
              then funcs
              else if ltb num_args (length args)
              then funcs
              else funcs ++ found_func parent_cursor ∷ [])
          else funcs)
  ]

  unfoldable pub match_funcs : C → List Str → List (Func C) → Option (List (Func C))
  unfolding match_func
  match_funcs parent_cursor [] funcs = some funcs
  match_funcs parent_cursor (func_name ∷ names) funcs =
      match_func parent_cursor func_name funcs >>= match_funcs parent_cursor names

  abbrev is_global : C → Bool
  is_global c =
      linkage_code (clang.linkage c) == linkage_code external
      || linkage_code (clang.linkage c) == linkage_code internal

  -- `prong_visitor_walk_ast`
  unfoldable pub walk_ast : C → C → Gathered C → Run (ChildVisit × Gathered C)
  unfolding match_funcs
  walk_ast current_cursor parent_cursor priv =
      if clang.in_system_header current_cursor
      then done (continue_visit, priv)
      else if is_kind clang compound_stmt current_cursor
          && is_kind clang function_decl parent_cursor
      then and_then (or_fault (match_funcs parent_cursor func_names priv.funcs))
          (λ funcs. done (continue_visit, record priv { funcs = funcs }))
      else if is_kind clang var_decl current_cursor
      then done (
        continue_visit,
        (if is_global current_cursor
            then record priv { global_usrs = priv.global_usrs ++ clang.usr current_cursor ∷ [] }
            else priv),
      )
      else done (recurse, priv)

  -- the loop of `process_tu_array` over the translation units from `i` on, `n` of them
  unfoldable pub process_tus : ℕ → ℕ → Gathered C → Run (Gathered C)
  unfolding visit_children walk_ast
  process_tus i zero priv = done priv
  process_tus i (suc n) priv =
      and_then (visit_children walk_ast (clang.tu_cursor i) (clang.below (clang.tu_cursor i)) priv)
        (process_tus (i + 1) n)

  unfoldable pub process_tu_array : ℕ → Gathered C → Run (Gathered C)
  unfolding process_tus
  process_tu_array file_count priv = process_tus 0 file_count priv
