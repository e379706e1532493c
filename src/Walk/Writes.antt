-- ===== src/Walk/Writes.antt =====
-- What the decision about a reference says of the expression around it.
use prongc.Prelude.{◌≡◌, Bool, true, not, ◌&&◌, ◌||◌, List, arith, ◌==◌}
use prongc.VarAccess.{VarAccessType, write, ptr_write, type_code}
use prongc.Clang.{Clang, unary_operator, array_subscript_expr}
use prongc.CursorStack.{
  ancestor_not_found, get_cursor_first_child, get_cursor_of_kind, get_binop_assignment,
  get_binop_assignment_offset,
}
use prongc.Walk.Reference.{
  Verdict, passed_over, plain, to_callee, is_step, on_side, deref_verdict, subscript_verdict,
  reference_verdict,
}

abbrev pub is_write : VarAccessType → Bool
is_write t = type_code t == type_code write || type_code t == type_code ptr_write

module _ {C : Type 0} (clang : Clang C) (current_cursor : C) (stack : List C) where
  -- on the left side of the closest assignment
  abbrev pub assigned : Bool
  assigned =
      on_side clang current_cursor stack
        (get_cursor_first_child clang (get_binop_assignment clang stack))

  -- below an increment or a decrement that is the closest unary operator
  abbrev pub stepped : Bool
  stepped = is_step (clang.unary_operator_kind (get_cursor_of_kind clang stack unary_operator))

  -- What the decision rests on. What is passed over is an array on the left of its subscript, outside
  -- of every assignment.
  abbrev pub justified : Verdict → Bool
  justified passed_over =
      (get_binop_assignment_offset clang stack == ancestor_not_found)
      && on_side clang current_cursor stack
          (get_cursor_first_child clang (get_cursor_of_kind clang stack array_subscript_expr))
  justified (plain t) = not (is_write t) || (assigned || stepped)
  justified (to_callee t) = not (is_write t)

  deref-justified : justified (plain (deref_verdict clang current_cursor stack)) ≡ true
  unfolding deref_verdict
  deref-justified = ground arith

  subscript-justified : justified (subscript_verdict clang current_cursor stack) ≡ true
  unfolding subscript_verdict
  subscript-justified = ground arith

  -- A reference to a variable is recorded as a write, plain or through a pointer, only if it stands on
  -- the left side of the closest assignment around it, or the closest unary operator around it is an
  -- increment or a decrement. What is passed on to a callee is never a write. And a reference is passed
  -- over only if it stands on the left of the closest subscript, outside of every assignment.
  pub reference_verdict-justified :
      (is_ptr_type : Bool)
      → justified (reference_verdict clang current_cursor stack is_ptr_type) ≡ true
  unfolding reference_verdict
  reference_verdict-justified ptr = ground (arith, deref-justified, subscript-justified)
