-- ===== src/Walk/Balance.antt =====
-- The walk keeps call markers and callees in step.
use prongc.Prelude.{
  ◌≡◌, refl, sym, inl, inr, Bool, true, not, ◌&&◌, Bool-cases, some, List, [], ◌∷◌, Str, arith,
  ◌==◌, of_Holds, then-Holds,
}
use prongc.VarAccess.{call, VarAccessType, type_code, va_is_placeholder_type, init_var_access}
use prongc.FuncInfo.{Func, Callees}
use prongc.Clang.{Clang, is_kind, if_stmt, var_decl, parm_decl, linkage_code, no_linkage}
use prongc.CursorStack.{cursors_are_equal, get_ifstmt_info}
use prongc.Walk.{State, ensure_accesses, marker, pop_to}
use prongc.Walk.Regular.{Balanced, push_access-Balanced}
use prongc.Walk.Reference.{
  Verdict, passed_over, plain, to_callee, deref_verdict, subscript_verdict, reference_verdict,
  push_verdict, reference_names, is_ptr_kind, visit_reference,
}
use prongc.Walk.Visit.{update_stack, collect_decl, mark_branch, mark_if, enter_cursor}

-- no call marker
abbrev plain_type : VarAccessType → Bool
plain_type type = not (type_code type == type_code call)

abbrev no_call : Verdict → Bool
no_call passed_over = true
no_call (plain type) = plain_type type
no_call (to_callee type) = plain_type type

same_accesses-Balanced :
    {C : Type 0} (f g : Func C) (cs : Callees C)
    → f.var_accesses ≡ g.var_accesses
    → Balanced f cs
    → Balanced g cs
same_accesses-Balanced f g cs e b = record {
  counted = rw (sym e) b.counted;
  markers = rw (sym e) b.markers;
  below = b.below;
}

ensure_accesses-Balanced :
    {C : Type 0} (f : Func C) (cs : Callees C) → Balanced f cs → Balanced (ensure_accesses f) cs
ensure_accesses-Balanced f cs b = record {
  counted = b.counted;
  markers = b.markers;
  below = b.below;
}

module _ {C : Type 0} (clang : Clang C) where
  no_call-deref_verdict : (c : C) (stack : List C) → plain_type (deref_verdict clang c stack) ≡ true
  unfolding deref_verdict
  no_call-deref_verdict c stack = ground arith

  no_call-subscript_verdict :
      (c : C) (stack : List C) → no_call (subscript_verdict clang c stack) ≡ true
  unfolding subscript_verdict
  no_call-subscript_verdict c stack = ground arith

  no_call-reference_verdict :
      (c : C) (stack : List C) (ptr : Bool) → no_call (reference_verdict clang c stack ptr) ≡ true
  unfolding reference_verdict
  no_call-reference_verdict c stack ptr =
      ground (arith, no_call-deref_verdict c stack, no_call-subscript_verdict c stack)

  abbrev Kept : Callees C → Func C → Type 0
  Kept cs f = Balanced f cs

  push_verdict-Balanced :
      (c : C) (stack : List C) (name usr : Str) (ptr : Bool) (v : Verdict) (f : Func C)
      (cs : Callees C)
      → no_call v ≡ true
      → Balanced f cs
      → Balanced (push_verdict clang c stack name usr ptr v f) cs
  unfolding push_verdict init_var_access va_is_placeholder_type
  push_verdict-Balanced c stack name usr ptr passed_over f cs h b = b
  push_verdict-Balanced c stack name usr ptr (plain type) f cs h b =
      push_access-Balanced _ f cs (ground (arith, h)) (ground (arith, h)) b
  push_verdict-Balanced c stack name usr ptr (to_callee type) f cs h b =
      push_access-Balanced _ f cs (ground (arith, h)) (ground (arith, h)) b

  pub visit_reference-Balanced :
      (c : C) (stack : List C) (f g : Func C) (cs : Callees C)
      → Balanced f cs
      → visit_reference clang c stack f ≡ some g
      → Balanced g cs
  unfolding visit_reference
  visit_reference-Balanced c stack f g cs b e =
      let decl = clang.referenced c in
      let ptr : Bool = is_ptr_kind (clang.type_kind decl) in
      let b' : Balanced (ensure_accesses f) cs = ensure_accesses-Balanced f cs b in
      of_Holds (Kept cs) (visit_reference clang c stack f) g
        (elim (Bool-cases
          (not (is_kind clang var_decl decl) && not (is_kind clang parm_decl decl))) [
            | inl o ↦ rw (o) b'
            | inr o ↦ rw (o) (
                then-Holds (Kept cs) (reference_names clang decl stack)
                  (λ names. some (
                    push_verdict clang c stack names.0 names.1 ptr
                      (reference_verdict clang c stack ptr) (ensure_accesses f)))
                  (λ names.
                    push_verdict-Balanced c stack names.0 names.1 ptr
                      (reference_verdict clang c stack ptr) (ensure_accesses f) cs
                      (no_call-reference_verdict c stack ptr) b'))
          ])
        e

  pop_to-Balanced :
      (track : Bool) (p : C) (stack : List C) (f : Func C) (cs : Callees C)
      → Balanced f cs
      → Balanced (pop_to clang track p stack f).1 cs
  unfolding pop_to marker init_var_access va_is_placeholder_type
  pop_to-Balanced track p [] f cs b = b
  pop_to-Balanced track p (tail ∷ stack) f cs b =
      elim (Bool-cases (cursors_are_equal clang tail p)) [
        | inl e ↦ rw (e) b
        | inr e ↦ elim (Bool-cases (is_kind clang if_stmt tail && track)) [
          | inl i ↦
              rw (e, i)
                (pop_to-Balanced track p stack _ cs (push_access-Balanced _ f cs refl refl b))
          | inr i ↦ rw (e, i) (pop_to-Balanced track p stack f cs b)
        ]
      ]

module _ {C : Type 0} (clang : Clang C) (track : Bool) (file_names : List Str) where
  abbrev pub KeptState : State C → Type 0
  KeptState st = Balanced st.current_func st.callees

  update_stack-Balanced :
      (p : C) (st : State C) → KeptState st → KeptState (update_stack clang track file_names p st)
  unfolding update_stack
  update_stack-Balanced p st b = elim (Bool-cases (clang.is_null st.last_visited)) [
    | inl e ↦ rw (e) b
    | inr e ↦
        elim (Bool-cases (not (clang.is_null p) && cursors_are_equal clang p st.last_visited)) [
          | inl e' ↦ rw (e, e') b
          | inr e' ↦
              rw (e, e')
                (pop_to-Balanced clang track p st.ancestry_stack st.current_func st.callees b)
        ]
  ]

  collect_decl-Balanced :
      (c : C) (f : Func C) (cs : Callees C)
      → Balanced f cs
      → Balanced (collect_decl clang track file_names c f) cs
  unfolding collect_decl
  collect_decl-Balanced c f cs b =
      elim (Bool-cases (linkage_code (clang.linkage c) == linkage_code no_linkage)) [
        | inr e ↦ rw (e) b
        | inl e ↦ elim (Bool-cases (is_kind clang var_decl c)) [
          | inl v ↦ rw (e, v) (same_accesses-Balanced _ _ cs refl b)
          | inr v ↦ elim (Bool-cases (is_kind clang parm_decl c)) [
            | inl w ↦ rw (e, v, w) (same_accesses-Balanced _ _ cs refl b)
            | inr w ↦ rw (e, v, w) b
          ]
        ]
      ]

  mark_branch-Balanced :
      (c p : C) (f : Func C) (cs : Callees C)
      → Balanced f cs
      → Balanced (mark_branch clang track file_names c p f) cs
  unfolding mark_branch marker init_var_access va_is_placeholder_type
  mark_branch-Balanced c p f cs b = elim (Bool-cases (track && is_kind clang if_stmt p)) [
    | inr e ↦ rw (e) b
    | inl e ↦
        let info = get_ifstmt_info clang p in
        elim (Bool-cases (cursors_are_equal clang c info.then_block)) [
          | inl t ↦ rw (e, t) (push_access-Balanced _ f cs refl refl b)
          | inr t ↦
              elim (Bool-cases (
                not (clang.is_null info.else_block) && cursors_are_equal clang c info.else_block)) [
                  | inl u ↦ rw (e, t, u) (push_access-Balanced _ f cs refl refl b)
                  | inr u ↦ rw (e, t, u) (ensure_accesses-Balanced f cs b)
                ]
        ]
  ]

  mark_if-Balanced :
      (c : C) (f : Func C) (cs : Callees C)
      → Balanced f cs
      → Balanced (mark_if clang track file_names c f) cs
  unfolding mark_if marker init_var_access va_is_placeholder_type
  mark_if-Balanced c f cs b = elim (Bool-cases (track && is_kind clang if_stmt c)) [
    | inr e ↦ rw (e) b
    | inl e ↦ rw (e) (push_access-Balanced _ f cs refl refl b)
  ]

  pub enter_cursor-Balanced :
      (c p : C) (st : State C)
      → KeptState st
      → KeptState (enter_cursor clang track file_names c p st)
  unfolding enter_cursor
  enter_cursor-Balanced c p st b =
      let s : State C = update_stack clang track file_names p st in
      let f : Func C = collect_decl clang track file_names c s.current_func in
      mark_if-Balanced c (mark_branch clang track file_names c p f) s.callees (
        mark_branch-Balanced c p f s.callees
          (collect_decl-Balanced c s.current_func s.callees (update_stack-Balanced p st b)))
