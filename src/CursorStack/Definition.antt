-- ===== src/CursorStack/Definition.antt =====
-- What the search for the definition of a function finds.
use prongc.Prelude.{
  ℕ, zero, suc, ◌+◌, ◌≤◌, ◌<◌, ◌≡◌, ◌⊎◌, inl, inr, refl, ◌∙◌, true, false, Bool-cases, List, [],
  ◌∷◌, All, Str, arith, ◌==◌,
}
use prongc.Clang.{tu_children, Clang}
use prongc.CursorStack.{defines, find_in_tu, find_in_tus, find_callexpr_definition}

module _ {C : Type 0} (clang : Clang C) where
  abbrev pub NoneDefines : Str → List C → Type 0
  NoneDefines callexpr_usr = All (λ c. defines clang callexpr_usr c ≡ false)

  find_in_tu-cases :
      (u : Str) (cs : List C) (found : C)
      → (NoneDefines u cs × (find_in_tu clang u cs found ≡ found))
        ⊎ (defines clang u (find_in_tu clang u cs found) ≡ true)
  unfolding find_in_tu
  find_in_tu-cases u [] found = inl (tt, refl)
  find_in_tu-cases u (c ∷ cs) found = elim (Bool-cases (defines clang u c)) [
    | inl e ↦ inr (rw (e) e)
    | inr e ↦ elim (find_in_tu-cases u cs found) [
      | inl (n, q) ↦ inl ((e, n), rw (e) q)
      | inr d ↦ inr (rw (e) d)
    ]
  ]

  find_in_tus-cases :
      (u : Str) (i n : ℕ) (found : C)
      → (((j : ℕ) → i ≤ j → j < i + n → NoneDefines u (tu_children clang j))
          × (find_in_tus clang u i n found ≡ found))
        ⊎ (defines clang u (find_in_tus clang u i n found) ≡ true)
  unfolding find_in_tus
  find_in_tus-cases u i zero found = inl (λ j a b. absurd (omega arith), refl)
  find_in_tus-cases u i (suc n) found =
      let here = find_in_tu clang u (tu_children clang i) found in
      elim (find_in_tus-cases u (i + 1) n here) [
        | inr d ↦ inr d
        | inl (later, q) ↦ elim (find_in_tu-cases u (tu_children clang i) found) [
          | inr d ↦ inr (rw (q) d)
          | inl (n', q') ↦ inl (
            λ j a b. elim (Bool-cases (j == i)) [
              | inl e ↦ at_index (the_index j i e) n'
              | inr e ↦ later j (above j i a e) (omega arith)
            ],
            q ∙ q',
          )
        ]
      ]
    where
      the_index : (j i : ℕ) → (j == i) ≡ true → i ≡ j
      the_index j i e = ground arith

      above : (j i : ℕ) → i ≤ j → (j == i) ≡ false → i + 1 ≤ j
      above j i a e = ground arith

      at_index :
          {i j : ℕ}
          → i ≡ j
          → NoneDefines u (tu_children clang i)
          → NoneDefines u (tu_children clang j)
      at_index e h = rw (← e) h

  -- `find_callexpr_definition` returns the null cursor, and then no translation unit defines a function
  -- with the USR at its top, or it returns a definition of a function with that USR.
  pub find-defines :
      (file_count : ℕ) (callexpr_cursor : C)
      → (((j : ℕ) → j < file_count → NoneDefines (clang.usr callexpr_cursor) (tu_children clang j))
          × (find_callexpr_definition clang file_count callexpr_cursor ≡ clang.null_cursor))
        ⊎ (defines clang
              (clang.usr callexpr_cursor)
              (find_callexpr_definition clang file_count callexpr_cursor)
            ≡ true)
  unfolding find_callexpr_definition
  find-defines file_count callexpr_cursor =
      elim (find_in_tus-cases (clang.usr callexpr_cursor) 0 file_count clang.null_cursor) [
        | inl (n, q) ↦ inl (λ j h. n j (omega arith) (omega arith), q)
        | inr d ↦ inr d
      ]
