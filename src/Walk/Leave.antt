-- ===== src/Walk/Leave.antt =====
-- What the walk leaves behind when it goes from one subtree to the next.
use prongc.Prelude.{
  ◌≡◌, refl, sym, ap, ◌∙◌, inl, inr, Bool, true, false, not, ◌&&◌, Bool-cases, List, [], ◌∷◌, ◌++◌,
  append-nil, append_assoc, Str, if◌then◌else◌,
}
use prongc.VarAccess.{VarAccess, end_if}
use prongc.FuncInfo.{Func}
use prongc.Clang.{Clang, if_stmt, is_kind}
use prongc.CursorStack.{cursors_are_equal}
use prongc.Walk.{State, accesses, push_access, marker, pop_to}
use prongc.Walk.Visit.{update_stack}

left_if-accesses :
    {C : Type 0} (b : Bool) (end : VarAccess) (f : Func C) (rest : List VarAccess)
    → accesses (if b then push_access end f else f).var_accesses ++ rest
      ≡ accesses f.var_accesses ++ ((if b then end ∷ [] else []) ++ rest)
left_if-accesses true end f rest = append_assoc (accesses f.var_accesses) (end ∷ []) rest
left_if-accesses false end f rest = refl

left_if-marker :
    {C : Type 0} (b : Bool) (end : VarAccess) (f : Func C)
    → marker end_if (if b then push_access end f else f) ≡ marker end_if f
unfolding marker
left_if-marker true end f = refl
left_if-marker false end f = refl

module _ {C : Type 0} (clang : Clang C) where
  -- no cursor of the list is equal to `p`
  abbrev pub NoneEqual : C → List C → Type 0
  NoneEqual p [] = Unit
  NoneEqual p (c ∷ cs) = (cursors_are_equal clang c p ≡ false) × NoneEqual p cs

  -- the stack is empty, or `p` is its top
  abbrev pub Top : C → List C → Type 0
  Top p [] = Unit
  Top p (c ∷ cs) = cursors_are_equal clang c p ≡ true

  module _ (arg_track_locking : Bool) where
    -- one end marker for each if statement of the list
    abbrev pub ends : List C → VarAccess → List VarAccess
    ends [] end = []
    ends (c ∷ cs) end =
        (if is_kind clang if_stmt c && arg_track_locking then end ∷ [] else []) ++ ends cs end

    -- what the loop makes of a stack of `front` above `back`
    pub record Popped (p : C) (stack : List C) (f : Func C) (result : List C × Func C)
        : Type 0 where
      pub front : List C
      pub back : List C
      pub split : stack ≡ front ++ back
      pub apart : NoneEqual p front
      pub stops : Top p back
      pub stack_left : result.0 ≡ back
      pub ends_put :
          accesses result.1.var_accesses ≡ accesses f.var_accesses ++ ends front (marker end_if f)

    pub pop_to-Popped :
        (p : C) (stack : List C) (f : Func C)
        → Popped p stack f (pop_to clang arg_track_locking p stack f)
    unfolding pop_to
    pop_to-Popped p [] f = record {
      front = [];
      back = [];
      split = refl;
      apart = tt;
      stops = tt;
      stack_left = refl;
      ends_put = sym (append-nil (accesses f.var_accesses));
    }
    pop_to-Popped p (tail ∷ stack) f = elim (Bool-cases (cursors_are_equal clang tail p)) [
      | inl e ↦ record {
        front = [];
        back = tail ∷ stack;
        split = refl;
        apart = tt;
        stops = e;
        stack_left = rw (e) refl;
        ends_put = rw (e) (sym (append-nil (accesses f.var_accesses)));
      }
      | inr e ↦
          let left : Bool = is_kind clang if_stmt tail && arg_track_locking in
          let g : Func C = if left then push_access (marker end_if f) f else f in
          let r = pop_to-Popped p stack g in
          record {
            front = tail ∷ r.front;
            back = r.back;
            split = ap (◌∷◌ tail) r.split;
            apart = (e, r.apart);
            stops = r.stops;
            stack_left = rw (e) r.stack_left;
            ends_put = rw (e) (
                r.ends_put
                ∙ rw (left_if-marker left (marker end_if f) f)
                    (left_if-accesses left (marker end_if f) f (ends r.front (marker end_if f))));
          }
    ]

    -- When the stack is brought up to date, its top is the parent of the cursor that is visited, or the
    -- stack is empty: that needs of libclang no more than that the parent is equal to itself.
    pub update_stack-Top :
        (file_names : List Str) (p : C) (st : State C)
        → cursors_are_equal clang p p ≡ true
        → Top p (update_stack clang arg_track_locking file_names p st).ancestry_stack
    unfolding update_stack
    update_stack-Top file_names p st h = elim (Bool-cases (clang.is_null st.last_visited)) [
      | inl e ↦ rw (e) h
      | inr e ↦
          elim (Bool-cases (not (clang.is_null p) && cursors_are_equal clang p st.last_visited)) [
            | inl e' ↦ rw (e, e') h
            | inr e' ↦
                let r = pop_to-Popped p st.ancestry_stack st.current_func in
                rw (e, e', r.stack_left) r.stops
          ]
    ]
