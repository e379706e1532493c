-- ===== src/CursorStack/Nearest.antt =====
-- The searches for a cursor and for its offset find the same one.
use prongc.Prelude.{
  ℕ, ◌+◌, ◌≡◌, ◌⊎◌, inl, inr, refl, ap, Bool, true, false, Bool-cases, List, [], ◌∷◌, ◌++◌, length,
  All, arith,
}
use prongc.Clang.{Clang, CursorKind, is_kind}
use prongc.CursorStack.{
  ancestor_not_found, nearest, offset_from, is_binop_assignment, get_cursor_of_kind,
  get_cursor_offset_of_kind, get_binop_assignment, get_binop_assignment_offset,
}

module _ {C : Type 0} (clang : Clang C) where
  -- Where the two searches with one test stop: nowhere, or at the first cursor from the top that passes.
  abbrev pub Stops : (C → Bool) → List C → C → ℕ → ℕ → Type 0
  Stops test stack found offset base =
      (All (λ c. test c ≡ false) stack
        × (found ≡ clang.null_cursor)
        × (offset ≡ ancestor_not_found))
      ⊎ ((front : List C) × (back : List C) × (stack ≡ front ++ found ∷ back)
          × All (λ c. test c ≡ false) front
          × (test found ≡ true)
          × (offset ≡ base + length front))

  both_stop :
      (test : C → Bool) (base : ℕ) (stack : List C)
      → Stops test stack (nearest clang test stack) (offset_from clang test base stack) base
  unfolding nearest offset_from
  both_stop test base [] = inl (tt, refl, refl)
  both_stop test base (c ∷ stack) = elim (Bool-cases (test c)) [
    | inl e ↦ inr ([], stack, rw (e) refl, tt, rw (e) e, rw (e) (omega arith))
    | inr e ↦ elim (both_stop test (base + 1) stack) [
      | inl (none_passes, n, o) ↦ inl ((e, none_passes), rw (e) n, rw (e) o)
      | inr (front, back, s, f, t, o) ↦
          inr (c ∷ front, back, rw (e) (ap (◌∷◌ c) s), (e, f), rw (e) t, rw (e) (omega (arith, o)))
    ]
  ]

  -- The search for the closest cursor of a kind and the search for its offset stop at the same place,
  -- and so do the two for assignments: either no cursor of the stack passes the test, and they return
  -- the null cursor and ANCESTOR_NOT_FOUND, or they return the first that passes from the top, and
  -- one more than the number of cursors above it.
  pub searches_agree :
      (target_kind : CursorKind) (stack : List C)
      → Stops
          (is_kind clang target_kind)
          stack
          (get_cursor_of_kind clang stack target_kind)
          (get_cursor_offset_of_kind clang stack target_kind)
          1
        × Stops
            (is_binop_assignment clang)
            stack
            (get_binop_assignment clang stack)
            (get_binop_assignment_offset clang stack)
            1
  unfolding get_cursor_of_kind get_cursor_offset_of_kind get_binop_assignment
      get_binop_assignment_offset
  searches_agree target_kind stack =
      (both_stop (is_kind clang target_kind) 1 stack, both_stop (is_binop_assignment clang) 1 stack)
