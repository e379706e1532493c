-- ===== src/Tests/Stack.antt =====
-- The searches and the stack, on the cursors of a small program.
use prongc.Prelude.{ℕ, ◌≡◌, ◌⊎◌, ◌<◌, true, List, [], ◌∷◌, Str, codes}
use prongc.Clang.{call_expr, is_kind, tu_children}
use prongc.CursorStack.{
  is_binop_assignment, get_cursor_of_kind, get_cursor_offset_of_kind, get_binop_assignment,
  get_binop_assignment_offset, find_callexpr_definition, defines,
}
use prongc.CursorStack.Nearest.{Stops, searches_agree}
use prongc.CursorStack.Definition.{NoneDefines, find-defines}
use prongc.Walk.{done, fault}
use prongc.Walk.Ast.{Gathered, process_tu_array}
use prongc.Walk.Ast.Asked.{Collected, process_tu_array-Collected}
use prongc.Walk.Reference.{reference_verdict}
use prongc.Walk.Writes.{justified, reference_verdict-justified}
use prongc.Tests.Tree.{small}

-- the ancestors of the reference in `*p = 1`
abbrev ancestors : List ℕ
ancestors = 10 ∷ 9 ∷ 6 ∷ 2 ∷ 1 ∷ []

searches_agree_example :
    Stops small
      (is_kind small call_expr)
      ancestors
      (get_cursor_of_kind small ancestors call_expr)
      (get_cursor_offset_of_kind small ancestors call_expr)
      1
    × Stops small
        (is_binop_assignment small)
        ancestors
        (get_binop_assignment small ancestors)
        (get_binop_assignment_offset small ancestors)
        1
searches_agree_example = searches_agree small call_expr ancestors

find-defines_example :
    (((j : ℕ) → j < 1 → NoneDefines small (small.usr 20) (tu_children small j))
      × (find_callexpr_definition small 1 20 ≡ small.null_cursor))
    ⊎ (defines small (small.usr 20) (find_callexpr_definition small 1 20) ≡ true)
find-defines_example = find-defines small 1 20

reference_verdict-justified_example :
    justified small 11 ancestors (reference_verdict small 11 ancestors true) ≡ true
reference_verdict-justified_example = reference_verdict-justified small 11 ancestors true

abbrev texts : List Str
texts = codes "worker(shared)" ∷ []

abbrev nothing : Gathered ℕ
nothing = record { funcs = []; global_usrs = [] }

process_tu_array-Collected_example :
    (process_tu_array small texts 1 nothing ≡ fault)
    ⊎ ((t : Gathered ℕ) × (process_tu_array small texts 1 nothing ≡ done t)
        × Collected small texts t)
process_tu_array-Collected_example = process_tu_array-Collected small texts 1
