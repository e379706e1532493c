-- ===== src/Core/Overlap/Outer.antt =====
-- The outer loop, and what the two functions promise.
use prongc.Prelude.{
  ℕ, zero, suc, ◌+◌, ◌≡◌, ◌≢◌, ◌⊎◌, inl, inr, refl, sym, ap, ◌∙◌, true, false, Option, none, some,
  none_ne_some, some_inj, List, [], ◌∷◌, ◌++◌, All, All-append, get_elem?, arith, subst,
}
use prongc.VarAccess.{VarAccess, nullify}
use prongc.Core.Overlap.{Heading, Report, overlaps, Scan, scan_all}
use prongc.Core.Overlap.Sound.{Named, Spent, SpentAll, Spent-true, Spent-false, SpentAll-Named}
use prongc.Core.Overlap.Inner.{Reported, Clear, scan_row-Done}

pub SpentAll-trans : (us vs ws : List VarAccess) → SpentAll us vs → SpentAll vs ws → SpentAll us ws
SpentAll-trans [] [] ws p q = q
SpentAll-trans [] (v ∷ vs) ws p q = elim p [ ]
SpentAll-trans (u ∷ us) [] ws p q = elim p [ ]
SpentAll-trans (u ∷ us) (v ∷ vs) [] p q = elim q [ ]
SpentAll-trans (u ∷ us) (v ∷ vs) (w ∷ ws) p q = (twice p.0 q.0, SpentAll-trans us vs ws p.1 q.1)
  where
    twice : Spent u v → Spent v w → Spent u w
    twice (inl e) (inl f) = inl (f ∙ e)
    twice (inl e) (inr f) = inr (f ∙ ap nullify e)
    twice (inr e) (inl f) = inr (f ∙ e)
    twice (inr e) (inr f) = inr (f ∙ ap nullify e)

pub SpentAll-refl : (vs : List VarAccess) → SpentAll vs vs
SpentAll-refl [] = tt
SpentAll-refl (v ∷ vs) = (inl refl, SpentAll-refl vs)

SpentAll-get :
    (vs ws : List VarAccess) (k : ℕ) {w : VarAccess}
    → SpentAll vs ws
    → get_elem? ws k ≡ some w
    → (v : VarAccess) × (get_elem? vs k ≡ some v) × Spent v w
SpentAll-get [] [] k p e = absurd (none_ne_some e)
SpentAll-get [] (w ∷ ws) k p e = elim p [ ]
SpentAll-get (v ∷ vs) [] k p e = elim p [ ]
SpentAll-get (v ∷ vs) (w ∷ ws) zero p e = (v, refl, subst (Spent v) (some_inj e) p.0)
SpentAll-get (v ∷ vs) (w ∷ ws) (suc k) p e = SpentAll-get vs ws k p.1 e

module _ (judge : ℕ → ℕ → Option (Option Heading)) where
  Clear-Spent :
      (i j : ℕ) (va : VarAccess) (vs ws : List VarAccess)
      → SpentAll vs ws
      → Clear judge i j va vs
      → Clear judge i j va ws
  Clear-Spent i j va [] [] p c = tt
  Clear-Spent i j va [] (w ∷ ws) p c = elim p [ ]
  Clear-Spent i j va (v ∷ vs) [] p c = elim p [ ]
  Clear-Spent i j va (v ∷ vs) (w ∷ ws) p c = (one c.0, Clear-Spent i (j + 1) va vs ws p.1 c.1)
    where
      one :
          (overlaps va v ≡ some false) ⊎ (judge i j ≡ some none)
          → (overlaps va w ≡ some false) ⊎ (judge i j ≡ some none)
      one (inl e) = inl (Spent-false va va v w (inl refl) p.0 e)
      one (inr e) = inr e

  -- No access of the first list overlaps one of the second, but for the pairs that the judge passes
  -- over.
  abbrev pub ClearAll : ℕ → List VarAccess → List VarAccess → Type 0
  ClearAll i [] vbs = Unit
  ClearAll i (va ∷ vas) vbs = Clear judge i 0 va vbs × ClearAll (i + 1) vas vbs

  -- A report names two accesses, counted from `i` in the first list, that overlap; its heading is the
  -- judge's.
  pub record Justified (i : ℕ) (vas vbs : List VarAccess) (x : Report) : Type 0 where
    pub k : ℕ
    pub va : VarAccess
    pub vb : VarAccess
    pub at_a : x.idx_a ≡ i + k
    pub there_a : get_elem? vas k ≡ some va
    pub there_b : get_elem? vbs x.idx_b ≡ some vb
    pub overlap : overlaps va vb ≡ some true
    pub judged : judge x.idx_a x.idx_b ≡ some (some x.heading)

  -- The outcome of a scan: the accesses are as they were or null, what is left is clear, and every
  -- report is justified.
  pub record ScanDone (i : ℕ) (vas vbs : List VarAccess) (s : Scan) : Type 0 where
    pub spent_a : SpentAll vas s.vas_a
    pub spent_b : SpentAll vbs s.vas_b
    pub clear : ClearAll i s.vas_a s.vas_b
    pub justified : All (Justified i vas vbs) s.found

  from_row :
      (i : ℕ) (va : VarAccess) (vas vbs : List VarAccess) (xs : List Report)
      → All (Reported judge i 0 va vbs) xs
      → All (Justified i (va ∷ vas) vbs) xs
  from_row i va vas vbs [] h = tt
  from_row i va vas vbs (x ∷ xs) (h, hs) = (
    record {
      k = 0;
      va = va;
      vb = h.vb;
      at_a = omega (arith, h.at_a);
      there_a = refl;
      there_b = subst (λ n. get_elem? vbs n ≡ some h.vb) (omega (arith, h.at_b)) h.there;
      overlap = h.overlap;
      judged = subst (λ n. judge n x.idx_b ≡ some (some x.heading)) (sym h.at_a) h.judged;
    },
    from_row i va vas vbs xs hs,
  )

  from_rest :
      (i : ℕ) (va : VarAccess) (vas vbs wbs : List VarAccess) (xs : List Report)
      → SpentAll vbs wbs
      → All (Justified (i + 1) vas wbs) xs
      → All (Justified i (va ∷ vas) vbs) xs
  from_rest i va vas vbs wbs [] p h = tt
  from_rest i va vas vbs wbs (x ∷ xs) p (h, hs) =
      let (vb, there, spent) = SpentAll-get vbs wbs x.idx_b p h.there_b in
      (
        record {
          k = suc h.k;
          va = h.va;
          vb = vb;
          at_a = omega (arith, h.at_a);
          there_a = h.there_a;
          there_b = there;
          overlap = Spent-true h.va h.va vb h.vb (inl refl) spent h.overlap;
          judged = h.judged;
        },
        from_rest i va vas vbs wbs xs p hs,
      )

  module _ (total : (i j : ℕ) → judge i j ≢ none) where
    -- If the two footprints hold placeholders and accesses with a USR, and the judge always answers,
    -- the scan returns; every report names two accesses that overlap under the judge's heading; the
    -- accesses are left as they were or null; and of those left no two overlap, but for the pairs
    -- that the judge passes over.
    pub scan_all-Done :
        (i : ℕ) (vas vbs : List VarAccess)
        → All Named vas
        → All Named vbs
        → (s : Scan) × (scan_all judge i vas vbs ≡ some s) × ScanDone i vas vbs s
    unfolding scan_all
    scan_all-Done i [] vbs ha hb = (
      record { vas_a = []; vas_b = vbs; found = [] },
      refl,
      record { spent_a = tt; spent_b = SpentAll-refl vbs; clear = tt; justified = tt },
    )
    scan_all-Done i (va ∷ vas) vbs ha hb =
        let (r, d) = scan_row-Done judge total i 0 va vbs ha.0 hb in
        let (s, run, e) =
          scan_all-Done (i + 1) vas r.vas_b ha.1 (SpentAll-Named vbs r.vas_b d.spent_b hb) in
        (
          record { vas_a = r.va_i ∷ s.vas_a; vas_b = s.vas_b; found = r.found ++ s.found },
          rw (d.run, run),
          record {
            spent_a = (d.spent_a, e.spent_a);
            spent_b = SpentAll-trans vbs r.vas_b s.vas_b d.spent_b e.spent_b;
            clear = (Clear-Spent i 0 r.va_i r.vas_b s.vas_b e.spent_b d.clear, e.clear);
            justified =
                All-append _ r.found s.found (from_row i va vas vbs r.found d.sound)
                  (from_rest i va vas vbs r.vas_b s.found d.spent_b e.justified);
          },
        )
