-- ===== src/Walk/Cases.antt =====
-- What holds after the visit of a cursor, branch by branch.
use prongc.Prelude.{◌≡◌, inl, inr, Bool, Bool-cases, some, List, Str}
use prongc.FuncInfo.{Func}
use prongc.Clang.{Clang, is_kind, decl_ref_expr, call_expr}
use prongc.Walk.{Run, done, or_fault, State, ChildVisit, recurse}
use prongc.Walk.Post.{Post, and_then-Post, or_fault-Post}
use prongc.Walk.Visit.{visit_call, visit_entered}
use prongc.Walk.Reference.{visit_reference}

module _ {C : Type 0} (clang : Clang C) (arg_track_locking : Bool) (file_names : List Str) where
  pub visit_entered-Post :
      (Q : State C → Type 0) (O : Type 0) (process : State C → Run (State C)) (c : C) (s : State C)
      → ((f : Func C)
          → visit_reference clang c s.ancestry_stack s.current_func ≡ some f
          → Q (record s { current_func = f }))
      → Post Q O (visit_call clang arg_track_locking file_names process c s)
      → Q s
      → Post (λ r. Q r.1) O (visit_entered clang arg_track_locking file_names process c s)
  unfolding visit_entered
  visit_entered-Post Q O process c s by_reference by_call by_none =
      elim (Bool-cases (is_kind clang decl_ref_expr c)) [
        | inl e ↦ rw (e) (
            and_then-Post {A = Func C} {B = ChildVisit × State C}
              (λ f. Q (record s { current_func = f })) (λ r. Q r.1) O
              (or_fault (visit_reference clang c s.ancestry_stack s.current_func))
              (λ f. done (recurse, record s { current_func = f }))
              (or_fault-Post (λ f. Q (record s { current_func = f })) O
                (visit_reference clang c s.ancestry_stack s.current_func) by_reference)
              (λ f q. q))
        | inr e ↦ elim (Bool-cases (is_kind clang call_expr c)) [
          | inl e' ↦
              rw (e, e')
                (and_then-Post {A = State C} {B = ChildVisit × State C} Q (λ r. Q r.1) O
                  (visit_call clang arg_track_locking file_names process c s)
                  (λ t. done (recurse, t)) by_call (λ t q. q))
          | inr e' ↦ rw (e, e') by_none
        ]
      ]
