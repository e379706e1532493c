-- ===== src/Walk/Matched.antt =====
-- What the walk builds from a function: its tree of callees.
use prongc.Prelude.{
  ℕ, zero, suc, ◌≡◌, refl, subst, inl, inr, Bool, true, not, ◌||◌, Bool-cases, none, List, Str,
}
use prongc.DynAos.Query.{member}
use prongc.VarAccess.{init_var_access}
use prongc.FuncInfo.{Func, FuncInfo, func_info, Callees, no_array}
use prongc.Clang.{Clang}
use prongc.Walk.{Run, done, State, push_access, push_callee}
use prongc.Walk.Post.{Post, Post-mono, and_then-Post, visit_children-Post}
use prongc.Walk.Cases.{visit_entered-Post}
use prongc.Walk.Regular.{regular, regular_callees, Balanced, push_call-Balanced, Balanced-regular}
use prongc.Walk.Balance.{visit_reference-Balanced, enter_cursor-Balanced}
use prongc.Walk.Visit.{
  enter_cursor, working_cursor, callee_func, call_access, visit_call, visit_cursor,
  process_func_info,
}

module _ {C : Type 0} (clang : Clang C) (track : Bool) (file_names : List Str) where
  abbrev Kept : State C → Type 0
  Kept st = Balanced st.current_func st.callees

  with_callee :
      (w : C) (f : Func C) (cs : Callees C) (g : FuncInfo C)
      → Balanced f cs
      → regular g ≡ true
      → Balanced (push_access (call_access clang track file_names w f) f) (push_callee cs g)
  unfolding call_access init_var_access
  with_callee w f cs g b r = push_call-Balanced _ f cs g refl refl b r

  new_callee : (w : C) → Balanced (callee_func clang track file_names w) no_array
  unfolding callee_func regular_callees
  new_callee w = record { counted = refl; markers = refl; below = refl }

  visit_call-Balanced :
      (process : State C → Run (State C))
      → ((t : State C) → Kept t → Post Kept Unit (process t))
      → (c : C) (st : State C) → Kept st
      → Post Kept Unit (visit_call clang track file_names process c st)
  unfolding visit_call
  visit_call-Balanced process keeps c st b =
      let working : C = working_cursor clang track file_names (clang.referenced c) in
      let callee : Func C = callee_func clang track file_names working in
      elim (Bool-cases (clang.is_null (clang.referenced c))) [
        | inl e ↦ rw (e) b
        | inr e ↦ elim (Bool-cases (member (clang.usr working) st.touched_func_usrs)) [
          | inl e' ↦ rw (e, e') b
          | inr new ↦ elim (Bool-cases (callee.in_system_header || not callee.has_definition)) [
            | inl e' ↦
                rw (e, new, e')
                  (with_callee working st.current_func st.callees (func_info callee no_array) b
                    (Balanced-regular callee no_array (new_callee working)))
            | inr e' ↦
                rw (e, new, e')
                  (and_then-Post Kept Kept Unit _ _ (keeps _ (new_callee working)) (λ t q.
                    with_callee working st.current_func st.callees
                      (func_info t.current_func t.callees) b
                      (Balanced-regular t.current_func t.callees q)))
          ]
        ]
      ]

  visit_cursor-Balanced :
      (process : State C → Run (State C))
      → ((t : State C) → Kept t → Post Kept Unit (process t))
      → (c p : C) (st : State C) → Kept st
      → Post (λ r. Kept r.1) Unit (visit_cursor clang track file_names process c p st)
  unfolding visit_cursor
  visit_cursor-Balanced process keeps c p st b =
      let s : State C = enter_cursor clang track file_names c p st in
      let b' : Kept s = enter_cursor-Balanced clang track file_names c p st b in
      visit_entered-Post clang track file_names Kept Unit process c s
        (λ f e. visit_reference-Balanced clang c s.ancestry_stack s.current_func f s.callees b' e)
        (visit_call-Balanced process keeps c s b') b'

  process-Balanced :
      (fuel : ℕ) (st : State C)
      → Kept st
      → Post Kept Unit (process_func_info clang track file_names fuel st)
  unfolding process_func_info
  process-Balanced zero st b = tt
  process-Balanced (suc fuel) st b =
      visit_children-Post
        (visit_cursor clang track file_names (process_func_info clang track file_names fuel)) Kept
        Unit
        (visit_cursor-Balanced (process_func_info clang track file_names fuel)
          (process-Balanced fuel))
        st.current_func.cursor (clang.below st.current_func.cursor) st b

  fresh-Balanced :
      (st : State C) → st.current_func.var_accesses ≡ none → st.callees ≡ no_array → Kept st
  unfolding regular_callees
  fresh-Balanced st e e' = record {
    counted = rw (e, e') refl;
    markers = rw (e) refl;
    below = rw (e') refl;
  }

  -- the whole call, for a function that was not walked yet
  pub process-Post :
      (fuel : ℕ) (st : State C)
      → st.current_func.var_accesses ≡ none
      → st.callees ≡ no_array
      → Post
          (λ t. regular (func_info t.current_func t.callees) ≡ true)
          Unit
          (process_func_info clang track file_names fuel st)
  process-Post fuel st e e' =
      Post-mono Kept (λ t. regular (func_info t.current_func t.callees) ≡ true) Unit
        (process_func_info clang track file_names fuel st)
        (λ t b. Balanced-regular t.current_func t.callees b)
        (process-Balanced fuel st (fresh-Balanced st e e'))

  -- If `process_func_info` returns for a function that has no accesses and no callees yet, then in the
  -- tree of functions that it builds every function has as many callees as call markers among its
  -- accesses at least, a call marker has a USR and no argument, and what has no USR is a placeholder
  -- without an argument.
  pub process-regular :
      (fuel : ℕ) (st t : State C)
      → st.current_func.var_accesses ≡ none
      → st.callees ≡ no_array
      → process_func_info clang track file_names fuel st ≡ done t
      → regular (func_info t.current_func t.callees) ≡ true
  process-regular fuel st t e e' r =
      subst (Post (λ t. regular (func_info t.current_func t.callees) ≡ true) Unit) r
        (process-Post fuel st e e')
