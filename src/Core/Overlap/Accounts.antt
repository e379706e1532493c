-- ===== src/Core/Overlap/Accounts.antt =====
-- Accesses that a scan changed, and the reports that name them.
use prongc.Prelude.{
  ℕ, zero, suc, ◌+◌, ◌≡◌, ◌⊎◌, inl, inr, refl, subst, ◌∙◌, ap, Bool, true, false, ◌||◌, Option,
  none, some, List, [], ◌∷◌, ◌++◌, get_elem?, arith, ◌==◌, if◌then◌else◌, Holds, bind-Holds,
  then-Holds,
}
use prongc.VarAccess.{VarAccess, nullify}
use prongc.Core.Overlap.{
  Heading, Report, Row, Scan, overlaps, row_cons, report_cons, scan_row, scan_all,
}

-- A report names the access with this index in the first footprint, and in the second.
abbrev pub names_a : ℕ → List Report → Bool
names_a k [] = false
names_a k (x ∷ xs) = (x.idx_a == k) || names_a k xs

abbrev pub names_b : ℕ → List Report → Bool
names_b k [] = false
names_b k (x ∷ xs) = (x.idx_b == k) || names_b k xs

names_a-append :
    (k : ℕ) (xs ys : List Report) → names_a k (xs ++ ys) ≡ (names_a k xs || names_a k ys)
names_a-append k [] ys = refl
names_a-append k (x ∷ xs) ys = ground (arith, names_a-append k xs ys)

names_b-append :
    (k : ℕ) (xs ys : List Report) → names_b k (xs ++ ys) ≡ (names_b k xs || names_b k ys)
names_b-append k [] ys = refl
names_b-append k (x ∷ xs) ys = ground (arith, names_b-append k xs ys)

or_left : {a : Bool} (b : Bool) → a ≡ true → (a || b) ≡ true
or_left b e = rw (e) refl

or_right : (a : Bool) {b : Bool} → b ≡ true → (a || b) ≡ true
or_right a e = ground (arith, e)

module _ (judge : ℕ → ℕ → Option (Option Heading)) where
  abbrev RowAccounts : ℕ → ℕ → VarAccess → List VarAccess → Row → Type 0
  RowAccounts i j va vbs r =
      ((r.va_i ≡ va) ⊎ (names_a i r.found ≡ true))
      × ((k : ℕ) → (get_elem? r.vas_b k ≡ get_elem? vbs k) ⊎ (names_b (j + k) r.found ≡ true))

  moved :
      (j k : ℕ) (xs : List Report) → names_b (j + 1 + k) xs ≡ true → names_b (j + suc k) xs ≡ true
  moved j k xs h = subst (λ n. names_b n xs ≡ true) (omega arith) h

  keep-Accounts :
      (i j : ℕ) (va vb : VarAccess) (vbs : List VarAccess) (r : Row)
      → RowAccounts i (j + 1) va vbs r
      → RowAccounts i j va (vb ∷ vbs) (row_cons vb r)
  keep-Accounts i j va vb vbs r (a, b) = (a, rest)
    where
      rest :
          (k : ℕ)
          → (get_elem? (vb ∷ r.vas_b) k ≡ get_elem? (vb ∷ vbs) k) ⊎ (names_b (j + k) r.found ≡ true)
      rest zero = inl refl
      rest (suc k) = elim (b k) [ inl e ↦ inl e | inr e ↦ inr (moved j k r.found e) ]

  hit-Accounts :
      (i j : ℕ) (h : Heading) (va vb : VarAccess) (vbs : List VarAccess) (r : Row)
      → RowAccounts i (j + 1) (nullify va) vbs r
      → RowAccounts i j va
          (vb ∷ vbs)
          (report_cons (record { idx_a = i; idx_b = j; heading = h }) (row_cons (nullify vb) r))
  hit-Accounts i j h va vb vbs r (a, b) = (inr (ground arith), rest)
    where
      rest :
          (k : ℕ)
          → (get_elem? (nullify vb ∷ r.vas_b) k ≡ get_elem? (vb ∷ vbs) k)
            ⊎ (((j == j + k) || names_b (j + k) r.found) ≡ true)
      rest zero = inr (ground arith)
      rest (suc k) = elim (b k) [
        | inl e ↦ inl e
        | inr e ↦ inr (or_right (j == j + suc k) (moved j k r.found e))
      ]

  either :
      (P : Row → Type 0) (keep : Option Row) (hit : Heading → Option Row)
      → Holds P keep
      → ((h : Heading) → Holds P (hit h))
      → (v : Option Heading) → Holds P (elim v [ none ↦ keep | some h ↦ hit h ])
  either P keep hit k f none = k
  either P keep hit k f (some h) = f h

  if-Row :
      (P : Row → Type 0) (x y : Option Row) (b : Bool)
      → Holds P x
      → Holds P y
      → Holds P (if b then x else y)
  if-Row P x y true h k = h
  if-Row P x y false h k = k

  scan_row-Accounts :
      (i j : ℕ) (va : VarAccess) (vbs : List VarAccess)
      → Holds (RowAccounts i j va vbs) (scan_row judge i j va vbs)
  unfolding scan_row
  scan_row-Accounts i j va [] = (inl refl, (λ k. inl refl))
  scan_row-Accounts i j va (vb ∷ vbs) =
      let P : Row → Type 0 = RowAccounts i j va (vb ∷ vbs) in
      let kept =
        bind-Holds (RowAccounts i (j + 1) va vbs) P (scan_row judge i (j + 1) va vbs)
          (λ r. some (row_cons vb r)) (scan_row-Accounts i (j + 1) va vbs)
          (keep-Accounts i j va vb vbs) in
      then-Holds P (overlaps va vb) _ (λ same.
        if-Row P _ _ same
          (then-Holds P (judge i j) _ (
            either P _ _ kept (λ h.
              bind-Holds (RowAccounts i (j + 1) (nullify va) vbs) P
                (scan_row judge i (j + 1) (nullify va) vbs) _
                (scan_row-Accounts i (j + 1) (nullify va) vbs) (hit-Accounts i j h va vb vbs))))
          kept)

  -- Each access that a scan leaves is as it was, or a report names it.
  abbrev pub ScanAccounts : ℕ → List VarAccess → List VarAccess → Scan → Type 0
  ScanAccounts i vas vbs s =
      ((k : ℕ) → (get_elem? s.vas_a k ≡ get_elem? vas k) ⊎ (names_a (i + k) s.found ≡ true))
      × ((k : ℕ) → (get_elem? s.vas_b k ≡ get_elem? vbs k) ⊎ (names_b k s.found ≡ true))

  after_row :
      (i : ℕ) (va : VarAccess) (vas vbs : List VarAccess) (r : Row) (s : Scan)
      → RowAccounts i 0 va vbs r
      → ScanAccounts (i + 1) vas r.vas_b s
      → ScanAccounts i
          (va ∷ vas)
          vbs
          (record { vas_a = r.va_i ∷ s.vas_a; vas_b = s.vas_b; found = r.found ++ s.found })
  after_row i va vas vbs r s (ra, rb) (sa, sb) = (first, second)
    where
      in_row : (k : ℕ) → names_a k r.found ≡ true → names_a k (r.found ++ s.found) ≡ true
      in_row k e = names_a-append k r.found s.found ∙ or_left (names_a k s.found) e

      in_rest : (k : ℕ) → names_a k s.found ≡ true → names_a k (r.found ++ s.found) ≡ true
      in_rest k e = names_a-append k r.found s.found ∙ or_right (names_a k r.found) e

      first :
          (k : ℕ)
          → (get_elem? (r.va_i ∷ s.vas_a) k ≡ get_elem? (va ∷ vas) k)
            ⊎ (names_a (i + k) (r.found ++ s.found) ≡ true)
      first zero = elim ra [
        | inl e ↦ inl (ap some e)
        | inr e ↦ inr (in_row (i + 0) (subst (λ n. names_a n r.found ≡ true) (omega arith) e))
      ]
      first (suc k) = elim (sa k) [
        | inl e ↦ inl e
        | inr e ↦ inr (in_rest (i + suc k) (subst (λ n. names_a n s.found ≡ true) (omega arith) e))
      ]

      second :
          (k : ℕ)
          → (get_elem? s.vas_b k ≡ get_elem? vbs k) ⊎ (names_b k (r.found ++ s.found) ≡ true)
      second k = elim (sb k) [
        | inr e ↦ inr (names_b-append k r.found s.found ∙ or_right (names_b k r.found) e)
        | inl e ↦ elim (rb k) [
          | inl q ↦ inl (e ∙ q)
          | inr q ↦ inr (
              names_b-append k r.found s.found
              ∙ or_left (names_b k s.found) (subst (λ n. names_b n r.found ≡ true) (omega arith) q))
        ]
      ]

  pub scan_all-Accounts :
      (i : ℕ) (vas vbs : List VarAccess) → Holds (ScanAccounts i vas vbs) (scan_all judge i vas vbs)
  unfolding scan_all
  scan_all-Accounts i [] vbs = ((λ k. inl refl), (λ k. inl refl))
  scan_all-Accounts i (va ∷ vas) vbs =
      bind-Holds (RowAccounts i 0 va vbs) (ScanAccounts i (va ∷ vas) vbs)
        (scan_row judge i 0 va vbs) _ (scan_row-Accounts i 0 va vbs)
        (λ r a.
          bind-Holds (ScanAccounts (i + 1) vas r.vas_b) (ScanAccounts i (va ∷ vas) vbs)
            (scan_all judge (i + 1) vas r.vas_b) _ (scan_all-Accounts (i + 1) vas r.vas_b)
            (λ s b. after_row i va vas vbs r s a b))
