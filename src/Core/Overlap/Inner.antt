-- ===== src/Core/Overlap/Inner.antt =====
-- The inner loop: one access of the first function against all of the second.
use prongc.Prelude.{
  ℕ, suc, ◌+◌, ◌≡◌, ◌≢◌, ◌⊎◌, inl, inr, refl, sym, ap, ◌∙◌, true, false, Option, none, some,
  some-false_ne_true, Bool-cases, List, [], ◌∷◌, All, get_elem?, arith,
}
use prongc.VarAccess.{VarAccess, nullify}
use prongc.Core.Overlap.{Heading, Report, overlaps, Row, row_cons, report_cons, scan_row}
use prongc.Core.Overlap.Sound.{
  Named, overlaps-total, overlaps-null_left, overlaps-null_right, Spent, SpentAll, Named-nullify,
}

Verdict-cases :
    (o : Option (Option Heading))
    → o ≢ none
    → (o ≡ some none) ⊎ ((h : Heading) × (o ≡ some (some h)))
Verdict-cases none h = absurd (h refl)
Verdict-cases (some none) h = inl refl
Verdict-cases (some (some h)) _ = inr (h, refl)

module _ (judge : ℕ → ℕ → Option (Option Heading)) where
  -- `x` stands for the access `va` at `i` and an overlapping one in `vbs`, which starts at `j`; the
  -- judge gave it its heading.
  pub record Reported (i j : ℕ) (va : VarAccess) (vbs : List VarAccess) (x : Report) : Type 0 where
    pub at_a : x.idx_a ≡ i
    pub k : ℕ
    pub vb : VarAccess
    pub at_b : x.idx_b ≡ j + k
    pub there : get_elem? vbs k ≡ some vb
    pub overlap : overlaps va vb ≡ some true
    pub judged : judge i x.idx_b ≡ some (some x.heading)

  -- No access from `j` on overlaps `va`, but for those that the judge passes over.
  abbrev pub Clear : ℕ → ℕ → VarAccess → List VarAccess → Type 0
  Clear i j va [] = Unit
  Clear i j va (vb ∷ vbs) =
      ((overlaps va vb ≡ some false) ⊎ (judge i j ≡ some none)) × Clear i (j + 1) va vbs

  pub record RowDone (i j : ℕ) (va : VarAccess) (vbs : List VarAccess) (r : Row) : Type 0 where
    pub run : scan_row judge i j va vbs ≡ some r
    pub spent_a : Spent va r.va_i
    pub spent_b : SpentAll vbs r.vas_b
    pub clear : Clear i j r.va_i r.vas_b
    pub sound : All (Reported i j va vbs) r.found

  later :
      (i j : ℕ) (va vb : VarAccess) (vbs : List VarAccess) (xs : List Report)
      → All (Reported i (j + 1) va vbs) xs
      → All (Reported i j va (vb ∷ vbs)) xs
  later i j va vb vbs [] h = tt
  later i j va vb vbs (x ∷ xs) (h, hs) = (
    record {
      at_a = h.at_a;
      k = suc h.k;
      vb = h.vb;
      at_b = omega (arith, h.at_b);
      there = h.there;
      overlap = h.overlap;
      judged = h.judged;
    },
    later i j va vb vbs xs hs,
  )

  -- A null access is reported nowhere.
  not_null :
      (i j : ℕ) (va wa : VarAccess) (vbs : List VarAccess) (xs : List Report)
      → All (Reported i j (nullify va) vbs) xs
      → All (Reported i j wa vbs) xs
  not_null i j va wa vbs [] h = tt
  not_null i j va wa vbs (x ∷ xs) (h, hs) =
      absurd (some-false_ne_true (sym (overlaps-null_left va h.vb) ∙ h.overlap))

  Spent-null : (va wa : VarAccess) → Spent (nullify va) wa → wa ≡ nullify va
  Spent-null va wa (inl e) = e
  Spent-null va wa (inr e) = e

  keep-Done :
      (i j : ℕ) (va vb : VarAccess) (vbs : List VarAccess) (r : Row)
      → (overlaps va vb ≡ some false) ⊎ (judge i j ≡ some none)
      → RowDone i (j + 1) va vbs r
      → (scan_row judge i j va (vb ∷ vbs) ≡ some (row_cons vb r))
      → RowDone i j va (vb ∷ vbs) (row_cons vb r)
  keep-Done i j va vb vbs r apart d run = record {
    run = run;
    spent_a = d.spent_a;
    spent_b = (inl refl, d.spent_b);
    clear = (still apart d.spent_a, d.clear);
    sound = later i j va vb vbs r.found d.sound;
  }
    where
      still :
          (overlaps va vb ≡ some false) ⊎ (judge i j ≡ some none)
          → Spent va r.va_i
          → (overlaps r.va_i vb ≡ some false) ⊎ (judge i j ≡ some none)
      still (inr passed) s = inr passed
      still (inl e) (inl same) = inl (rw same e)
      still (inl e) (inr gone) = inl (rw gone (overlaps-null_left va vb))

  hit-Done :
      (i j : ℕ) (va vb : VarAccess) (vbs : List VarAccess) (r : Row) (h : Heading)
      → overlaps va vb ≡ some true
      → judge i j ≡ some (some h)
      → RowDone i (j + 1) (nullify va) vbs r
      → scan_row judge i j va (vb ∷ vbs)
        ≡ some
            (report_cons (record { idx_a = i; idx_b = j; heading = h }) (row_cons (nullify vb) r))
      → RowDone i j va
          (vb ∷ vbs)
          (report_cons (record { idx_a = i; idx_b = j; heading = h }) (row_cons (nullify vb) r))
  hit-Done i j va vb vbs r h same verdict d run =
      let gone : r.va_i ≡ nullify va = Spent-null va r.va_i d.spent_a in
      record {
        run = run;
        spent_a = inr gone;
        spent_b = (inr refl, d.spent_b);
        clear = (inl (overlaps-null_right r.va_i vb), d.clear);
        sound = (
          record {
            at_a = refl;
            k = 0;
            vb = vb;
            at_b = omega arith;
            there = refl;
            overlap = same;
            judged = verdict;
          },
          later i j va vb vbs r.found (not_null i (j + 1) va va vbs r.found d.sound),
        );
      }

  module _ (total : (i j : ℕ) → judge i j ≢ none) where
    pub scan_row-Done :
        (i j : ℕ) (va : VarAccess) (vbs : List VarAccess)
        → Named va
        → All Named vbs
        → (r : Row) × RowDone i j va vbs r
    unfolding scan_row
    scan_row-Done i j va [] ha hb = (
      record { va_i = va; vas_b = []; found = [] },
      record { run = refl; spent_a = inl refl; spent_b = tt; clear = tt; sound = tt },
    )
    scan_row-Done i j va (vb ∷ vbs) ha hb =
        let (r, d) = scan_row-Done i (j + 1) va vbs ha hb.1 in
        let (n, e) = scan_row-Done i (j + 1) (nullify va) vbs (Named-nullify va) hb.1 in
        let (same, tested) = overlaps-total va vb ha hb.0 in
        elim (Bool-cases same) [
          | inr apart ↦ (
            row_cons vb r,
            keep-Done i j va vb vbs r (inl (tested ∙ ap some apart)) d
                (rw (tested, scan_row) (rw apart (rw d.run))),
          )
          | inl hit ↦ elim (Verdict-cases (judge i j) (total i j)) [
            | inl passed ↦ (
              row_cons vb r,
              keep-Done i j va vb vbs r (inr passed) d
                  (rw (tested, scan_row) (rw (hit, passed) (rw d.run))),
            )
            | inr (h, verdict) ↦ (
              report_cons (record { idx_a = i; idx_b = j; heading = h }) (row_cons (nullify vb) n),
              hit-Done i j va vb vbs n h (tested ∙ ap some hit) verdict e
                  (rw (tested, scan_row) (rw (hit, verdict) (rw e.run))),
            )
          ]
        ]
