-- ===== src/Walk.antt =====
-- src/core.c, the walk over the syntax tree: its state and the steps that change it.
pub mod Ast
pub mod Reference
pub mod Visit
pub mod Post
pub mod Cases
pub mod Ends
pub mod Regular
pub mod Balance
pub mod Matched
pub mod Same
pub mod Kept
pub mod Unwound
pub mod Named
pub mod Total
pub mod Unwinds
pub mod Composed
pub mod Leave
pub mod Writes
use prongc.Prelude.{
  ℕ, Bool, true, false, ◌&&◌, Option, none, some, List, [], ◌∷◌, ◌++◌, Str, if◌then◌else◌,
}
use prongc.VarAccess.{VarAccess, VarAccessType, init_var_access, no_idx, end_if}
use prongc.FuncInfo.{Func, FuncInfo, Callees, no_array, array, FuncInfoArr, nil, cons}
use prongc.Clang.{Clang, Forest, leaf, node, if_stmt, is_kind}
use prongc.CursorStack.{cursors_are_equal}

-- What a call that may not end, or may do what C leaves undefined, comes to.
pub data Run (A : Type 0) : Type 0 where
  done : A → Run A
  fault : Run A
  out_of_fuel : Run A

abbrev pub and_then : {A B : Type 0} → Run A → (A → Run B) → Run B
and_then (done a) k = k a
and_then fault k = fault
and_then out_of_fuel k = out_of_fuel

abbrev pub or_fault : {A : Type 0} → Option A → Run A
or_fault none = fault
or_fault (some a) = done a

-- What a visitor asks `clang_visitChildren` to do next.
pub data ChildVisit : Type 0 where
  continue_visit recurse : ChildVisit

-- `clang_visitChildren`, as libclang documents it: each cursor in order, on request those below it, and
-- then those beside it. No visitor that is run by it here asks to break.
module _ {C S : Type 0} (visitor : C → C → S → Run (ChildVisit × S)) where
  unfoldable pub visit_children : C → Forest C → S → Run S
  visit_children parent_cursor leaf s = done s
  visit_children parent_cursor (node c below rest) s =
      let deeper = λ (t : S). visit_children c below t in
      let further = λ (t : S). visit_children parent_cursor rest t in
      and_then (visitor c parent_cursor s)
        (λ r. and_then (elim r.0 [ continue_visit ↦ done r.1 | recurse ↦ deeper r.1 ]) further)

-- The fields of `struct prong_priv` that the walk over functions changes. `current_func` and `callees`
-- are the two parts of what the field `current_func` points to; the top of the stack is first.
pub record State (C : Type 0) : Type 0 where
  pub ancestry_stack : List C
  pub last_visited : C
  pub touched_func_usrs : List Str
  pub current_func : Func C
  pub callees : Callees C

-- `init_var_access_array` where there is no array yet
abbrev pub accesses : Option (List VarAccess) → List VarAccess
accesses none = []
accesses (some vas) = vas

abbrev pub push_access : {C : Type 0} → VarAccess → Func C → Func C
push_access va f = record f { var_accesses = some (accesses f.var_accesses ++ va ∷ []) }

abbrev pub ensure_accesses : {C : Type 0} → Func C → Func C
ensure_accesses f = record f { var_accesses = some (accesses f.var_accesses) }

-- an access that stands for no variable
unfoldable pub marker : {C : Type 0} → VarAccessType → Func C → VarAccess
marker type f = init_var_access none none none none f.spelling no_idx 0 0 type false

abbrev pub push_array : {C : Type 0} → FuncInfoArr C → FuncInfo C → FuncInfoArr C
push_array nil g = cons g nil
push_array (cons f fs) g = cons f (push_array fs g)

-- `push_func_info`, on an array that is made where there is none
abbrev pub push_callee : {C : Type 0} → Callees C → FuncInfo C → Callees C
push_callee no_array g = array (cons g nil)
push_callee (array fs) g = array (push_array fs g)

module _ {C : Type 0} (clang : Clang C) (arg_track_locking : Bool) where
  -- The loop that pops the stack until its top is the parent. Each if statement that is left puts an
  -- end marker into the accesses of the current function.
  unfoldable pub pop_to : C → List C → Func C → List C × Func C
  unfolding marker
  pop_to parent_cursor [] f = ([], f)
  pop_to parent_cursor (tail ∷ stack) f =
      let rest = pop_to parent_cursor stack (
        if is_kind clang if_stmt tail && arg_track_locking
        then push_access (marker end_if f) f
        else f) in
      if cursors_are_equal clang tail parent_cursor then (tail ∷ stack, f) else rest
