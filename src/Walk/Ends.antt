-- ===== src/Walk/Ends.antt =====
-- The recursion into callees ends.
use prongc.Prelude.{
  ℕ, zero, suc, ◌+◌, ◌≤◌, ◌<◌, ◌≡◌, inl, inr, Bool, true, false, not, ◌||◌, Bool-cases, List, [],
  ◌∷◌, ◌++◌, ◌⊎◌, length, Str, str_eq, str_eq_refl, eq_of_str_eq, arith, if◌then◌else◌,
}
use prongc.DynAos.Query.{member}
use prongc.FuncInfo.{Func}
use prongc.Clang.{Clang}
use prongc.Walk.{Run, done, fault, State}
use prongc.Walk.Post.{Post, Post-mono, returns-Post, and_then-Post, visit_children-Post}
use prongc.Walk.Cases.{visit_entered-Post}
use prongc.Walk.Visit.{
  working_cursor, callee_func, update_stack, enter_cursor, visit_call, visit_cursor,
  process_func_info,
}

-- the USRs of `us` that were not touched
abbrev pub untouched : List Str → List Str → ℕ
untouched [] touched = 0
untouched (u ∷ us) touched = (if member u touched then 0 else 1) + untouched us touched

member-append : (x u : Str) (ts : List Str) → member x (ts ++ u ∷ []) ≡ (member x ts || str_eq u x)
member-append x u [] = ground arith
member-append x u (t ∷ ts) = ground (arith, member-append x u ts)

untouched-le :
    (us : List Str) (u : Str) (ts : List Str) → untouched us (ts ++ u ∷ []) ≤ untouched us ts
untouched-le [] u ts = omega arith
untouched-le (x ∷ us) u ts = ground (arith, untouched-le us u ts, member-append x u ts)

untouched-length : (us ts : List Str) → untouched us ts ≤ length us
untouched-length [] ts = omega arith
untouched-length (u ∷ us) ts = ground (arith, untouched-length us ts)

untouched-lt :
    (us : List Str) (u : Str) (ts : List Str)
    → member u us ≡ true
    → member u ts ≡ false
    → untouched us (ts ++ u ∷ []) < untouched us ts
untouched-lt [] u ts h n = cc
untouched-lt (x ∷ us) u ts h n = elim (Bool-cases (str_eq x u)) [
  | inl e ↦
      ground (arith, untouched-le us u ts, member-append x u ts, eq_of_str_eq x u e, str_eq_refl u)
  | inr e ↦ ground (arith, untouched-lt us u ts, member-append x u ts)
]

module _ {C : Type 0} (clang : Clang C) (arg_track_locking : Bool) (file_names us : List Str) where
  -- the functions left
  abbrev pub left : State C → ℕ
  left st = untouched us st.touched_func_usrs

  touched-enter_cursor :
      (c p : C) (st : State C)
      → (enter_cursor clang arg_track_locking file_names c p st).touched_func_usrs
        ≡ st.touched_func_usrs
  unfolding enter_cursor update_stack
  touched-enter_cursor c p st = ground arith

  module _ (known : (c : C) → member (clang.usr c) us ≡ true) where
    visit_call-Ends :
        (process : State C → Run (State C)) (b : ℕ)
        → ((t : State C) → left t < b → Post (λ r. left r < b) ⊥ (process t))
        → (c : C) (st : State C) → left st ≤ b
        → Post (λ r. left r ≤ b) ⊥ (visit_call clang arg_track_locking file_names process c st)
    unfolding visit_call
    visit_call-Ends process b ends c st h =
        let working : C = working_cursor clang arg_track_locking file_names (clang.referenced c) in
        let callee : Func C = callee_func clang arg_track_locking file_names working in
        let u : Str = clang.usr working in
        let fewer : untouched us (st.touched_func_usrs ++ u ∷ []) ≤ b =
          omega (arith, h, untouched-le us u st.touched_func_usrs) in
        elim (Bool-cases (clang.is_null (clang.referenced c))) [
          | inl e ↦ rw (e) h
          | inr e ↦ elim (Bool-cases (member u st.touched_func_usrs)) [
            | inl e' ↦ rw (e, e') h
            | inr new ↦ elim (Bool-cases (callee.in_system_header || not callee.has_definition)) [
              | inl e' ↦ rw (e, new, e') fewer
              | inr e' ↦
                  rw (e, new, e')
                    (and_then-Post (λ r. left r < b) (λ r. left r ≤ b) ⊥ _ _
                      (ends _ (
                        omega
                          (arith, h, untouched-lt us u st.touched_func_usrs (known working) new)))
                      (λ t q. omega (arith, q)))
            ]
          ]
        ]

    visit_cursor-Ends :
        (process : State C → Run (State C)) (b : ℕ)
        → ((t : State C) → left t < b → Post (λ r. left r < b) ⊥ (process t))
        → (c p : C) (st : State C) → left st ≤ b
        → Post
            (λ r. left r.1 ≤ b)
            ⊥
            (visit_cursor clang arg_track_locking file_names process c p st)
    unfolding visit_cursor
    visit_cursor-Ends process b ends c p st h =
        let s : State C = enter_cursor clang arg_track_locking file_names c p st in
        let h' : left s ≤ b = rw (touched-enter_cursor c p st) h in
        visit_entered-Post clang arg_track_locking file_names (λ r. left r ≤ b) ⊥ process c s
          (λ f q. h') (visit_call-Ends process b ends c s h') h'

    process-Ends :
        (fuel : ℕ) (st : State C)
        → left st < fuel
        → Post
            (λ r. left r ≤ left st)
            ⊥
            (process_func_info clang arg_track_locking file_names fuel st)
    unfolding process_func_info
    process-Ends zero st h = absurd (omega arith)
    process-Ends (suc fuel) st h =
        visit_children-Post
          (visit_cursor clang arg_track_locking file_names
            (process_func_info clang arg_track_locking file_names fuel))
          (λ r. left r ≤ left st) ⊥
          (visit_cursor-Ends (process_func_info clang arg_track_locking file_names fuel) (left st)
            (λ t q.
              Post-mono (λ r. left r ≤ left t) (λ r. left r < left st) ⊥ _
                (λ r x. omega (arith, x, q)) (process-Ends fuel t (omega (arith, q, h)))))
          st.current_func.cursor (clang.below st.current_func.cursor) st (omega arith)

    -- If the program has a finite list of USRs, then one level of recursion more than the list is long
    -- is enough for `process_func_info`: it never runs out of fuel, so that it returns, or meets
    -- something that C leaves undefined.
    pub process-returns :
        (fuel : ℕ) (st : State C)
        → length us < fuel
        → (process_func_info clang arg_track_locking file_names fuel st ≡ fault)
          ⊎ ((t : State C) × (process_func_info clang arg_track_locking file_names fuel st
                ≡ done t))
    process-returns fuel st h =
        returns-Post (λ r. left r ≤ left st) _
          (process-Ends fuel st (omega (arith, h, untouched-length us st.touched_func_usrs)))
