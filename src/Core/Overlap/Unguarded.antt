-- ===== src/Core/Overlap/Unguarded.antt =====
-- What `find_unprotected_va` reports for footprints without branches.
use prongc.Prelude.{
  ℕ, ◌+◌, ◌<◌, ◌≤◌, ◌≡◌, refl, sym, ◌∙◌, inl, inr, Bool, true, false, not, Bool-cases, ◌&&◌, ◌||◌,
  Option, none, some, List, [], ◌∷◌, length, All, arith, ◌==◌, if◌then◌else◌, ◌>>=◌, Holds,
  none_ne_some,
}
use prongc.VarAccess.{VarAccess, nullify}
use prongc.LockTracking.Pairs.{LockPrimitivePair}
use prongc.LockTracking.Fields.{size_max, ProtectionFieldArray}
use prongc.LockTracking.Fields.Alone.{Flat}
use prongc.LockTracking.Ranges.{protected, unprotected, uncertain}
use prongc.Core.Annotate.Straight.{held, Straight}
use prongc.Core.Annotate.Held.{guards}
use prongc.Core.Annotate.Locks.{taken, annotate-held}
use prongc.Core.Overlap.{
  Report, Heading, unprotected_data, conditionally_protected, Row, Scan, scan_row, scan_all,
  bad_protection, protection_judge, find_unprotected_va,
}
use prongc.Core.Overlap.Sound.{Named}
use prongc.Core.Overlap.Outer.{Justified, ScanDone, scan_all-Done}
use prongc.Core.Overlap.Guarded.{same_locks, matching-same}

-- Both functions take locks, and at the two accesses the same are held: as many on both sides, and each
-- of the first among the second.
abbrev pub guarded : List VarAccess → List VarAccess → ℕ → ℕ → Bool
guarded vas_a vas_b i j =
    not (taken vas_a == 0 || taken vas_b == 0) && same_locks (held [] vas_a i) (held [] vas_b j)

abbrev pub held_judge : List VarAccess → List VarAccess → ℕ → ℕ → Option (Option Heading)
held_judge vas_a vas_b i j = some (if guarded vas_a vas_b i j then none else some unprotected_data)

judge-held :
    (vas_a vas_b : List VarAccess) (a b : ProtectionFieldArray) (i j : ℕ)
    → Flat a
    → Flat b
    → length a.lp_fields ≡ taken vas_a
    → length b.lp_fields ≡ taken vas_b
    → guards i a.lp_fields ≡ held [] vas_a i
    → guards j b.lp_fields ≡ held [] vas_b j
    → protection_judge a b i j ≡ held_judge vas_a vas_b i j
unfolding protection_judge bad_protection
judge-held vas_a vas_b a b i j fa fb la lb ga gb =
    rw (matching-same a b i j fa.0 fb.0, ga, gb, ← la, ← lb)
      (cases (length a.lp_fields == 0 || length b.lp_fields == 0)
        (same_locks (held [] vas_a i) (held [] vas_b j)))
  where
    cases :
        (e s : Bool)
        → some (elim (if s then protected else unprotected) as (λ _. Option Heading) [
          | protected ↦ if e then some unprotected_data else none
          | unprotected ↦ some unprotected_data
          | uncertain ↦ some conditionally_protected
        ])
          ≡ some (if not e && s then none else some unprotected_data)
    cases true true = refl
    cases true false = refl
    cases false true = refl
    cases false false = refl

module _ (judge judge' : ℕ → ℕ → Option (Option Heading)) where
  scan_row-cong :
      (i j : ℕ) (va : VarAccess) (vbs : List VarAccess) (m : ℕ)
      → ((k : ℕ) → k < m → judge i k ≡ judge' i k)
      → j + length vbs ≤ m
      → scan_row judge i j va vbs ≡ scan_row judge' i j va vbs
  unfolding scan_row
  scan_row-cong i j va [] m h l = refl
  scan_row-cong i j va (vb ∷ vbs) m h l = ground (
    arith,
    h j (omega (arith, l)),
    scan_row-cong i (j + 1) va vbs m h (omega (arith, l)),
    scan_row-cong i (j + 1) (nullify va) vbs m h (omega (arith, l)),
  )

  scan_row-length :
      (i j : ℕ) (va : VarAccess) (vbs : List VarAccess)
      → Holds (λ r. length r.vas_b ≡ length vbs) (scan_row judge i j va vbs)
  unfolding scan_row
  scan_row-length i j va [] = refl
  scan_row-length i j va (vb ∷ vbs) =
      ground (arith, scan_row-length i (j + 1) va vbs, scan_row-length i (j + 1) (nullify va) vbs)

  then_same :
      (n : ℕ) (o : Option Row) (k l : Row → Option Scan)
      → Holds (λ r. length r.vas_b ≡ n) o
      → ((r : Row) → length r.vas_b ≡ n → k r ≡ l r)
      → (o >>= k) ≡ (o >>= l)
  then_same n none k l h e = refl
  then_same n (some r) k l h e = e r h

  scan_all-cong :
      (i : ℕ) (vas vbs : List VarAccess) (n m : ℕ)
      → ((h k : ℕ) → h < n → k < m → judge h k ≡ judge' h k)
      → i + length vas ≤ n
      → length vbs ≤ m
      → scan_all judge i vas vbs ≡ scan_all judge' i vas vbs
  unfolding scan_all
  scan_all-cong i [] vbs n m h l l' = refl
  scan_all-cong i (va ∷ vas) vbs n m h l l' =
      rw (← scan_row-cong i 0 va vbs m (λ k b. h i k (omega (arith, l)) b) (omega (arith, l'))) (
        then_same (length vbs) (scan_row judge i 0 va vbs) _ _ (scan_row-length i 0 va vbs) (λ r e.
          rw (scan_all-cong (i + 1) vas r.vas_b n m h (omega (arith, l)) (omega (arith, e, l')))
            refl))

passed : {h : Heading} → some none ≡ some (some h) → ⊥
passed e = cc

module _ (realloc : ℕ → ℕ → Option ℕ)
    (has_room : (old cap : ℕ) → (new : ℕ) × (realloc old cap ≡ some new))
    (pairs : List LockPrimitivePair) (p_a p_b : ℕ) (vas_a vas_b : List VarAccess)
    (straight_a : All (Straight pairs) vas_a) (straight_b : All (Straight pairs) vas_b)
    (fits_a : length vas_a ≤ size_max) (fits_b : length vas_b ≤ size_max) where
  -- Where memory does not run out, on two footprints without branches whose accesses have indices
  -- below SIZE_MAX, `find_unprotected_va` does what a scan does that looks at the locks that are held
  -- at two accesses: it passes over those at which the same locks are held, if both functions take
  -- locks at all.
  pub unprotected-held :
      find_unprotected_va realloc pairs p_a p_b vas_a vas_b
      ≡ scan_all (held_judge vas_a vas_b) 0 vas_a vas_b
  unfolding find_unprotected_va
  unprotected-held =
      let (a, e, fa, la, ga) = annotate-held realloc has_room pairs p_a vas_a straight_a in
      let (b, e', fb, lb, gb) = annotate-held realloc has_room pairs p_b vas_b straight_b in
      rw (e, e')
        (scan_all-cong (protection_judge a b) (held_judge vas_a vas_b) 0 vas_a vas_b size_max
          size_max (λ h k l m. judge-held vas_a vas_b a b h k fa fb la lb (ga h l) (gb k m))
          (omega (arith, fits_a)) fits_b)

  -- Where memory does not run out, take two footprints of at most SIZE_MAX accesses, all placeholders
  -- or accesses with a USR, without markers of if, else and endif, in which each acquisition and release
  -- of a lock has a USR, and the function of each acquisition is in the table of lock pairs, in a pair of
  -- which neither name is NULL. On these `find_unprotected_va` returns. The locks held at an access are
  -- the hashes, of 32 bits, of those acquired before it and not released since, at the access itself
  -- included; a release takes away every lock with its hash. Two accesses count as guarded where as many
  -- are held at both, each that is held at the first is among those held at the second, and both
  -- footprints acquire a lock somewhere. Every report is of unprotected data and names two accesses that
  -- overlap and are not guarded; of the accesses that are left, which are as they were or null, two
  -- overlap only where they are guarded.
  pub unprotected-Done :
      All Named vas_a
      → All Named vas_b
      → (s : Scan) × (find_unprotected_va realloc pairs p_a p_b vas_a vas_b ≡ some s)
        × ScanDone (held_judge vas_a vas_b) 0 vas_a vas_b s
  unprotected-Done ha hb =
      let (s, run, d) =
        scan_all-Done (held_judge vas_a vas_b) (λ i j e. none_ne_some (sym e)) 0 vas_a vas_b ha
          hb in
      (s, unprotected-held ∙ run, d)

  not_named :
      (i j : ℕ) (xs : List Report)
      → guarded vas_a vas_b i j ≡ true
      → All (Justified (held_judge vas_a vas_b) 0 vas_a vas_b) xs
      → All (λ (x : Report). (x.idx_a == i && x.idx_b == j) ≡ false) xs
  not_named i j [] g h = tt
  not_named i j (x ∷ xs) g (h, hs) = (judged_other i j x g h.judged, not_named i j xs g hs)
    where
      judged_other :
          (i j : ℕ) (x : Report)
          → guarded vas_a vas_b i j ≡ true
          → held_judge vas_a vas_b x.idx_a x.idx_b ≡ some (some x.heading)
          → (x.idx_a == i && x.idx_b == j) ≡ false
      judged_other i j x g e = elim (Bool-cases (x.idx_a == i && x.idx_b == j)) [
        | inr other ↦ other
        | inl same ↦
            let p : x.idx_a ≡ i = ground (arith, same) in
            let q : x.idx_b ≡ j = ground (arith, same) in absurd (passed (rw (p, q, g) at e))
      ]

  -- Where memory does not run out, take two footprints of at most SIZE_MAX accesses, all placeholders
  -- or accesses with a USR, without markers of if, else and endif, in which each acquisition and release
  -- of a lock has a USR, and the function of each acquisition is in the table of lock pairs, in a pair of
  -- which neither name is NULL; and let both acquire a lock somewhere. On these `find_unprotected_va`
  -- returns, and it reports no two accesses at which no lock is held, whatever they access. A lock is held
  -- at an access if it was acquired before it and not released since, at the access itself included.
  pub unlocked-missed :
      (i j : ℕ)
      → All Named vas_a
      → All Named vas_b
      → 0 < taken vas_a
      → 0 < taken vas_b
      → held [] vas_a i ≡ []
      → held [] vas_b j ≡ []
      → (s : Scan) × (find_unprotected_va realloc pairs p_a p_b vas_a vas_b ≡ some s)
        × All (λ (x : Report). (x.idx_a == i && x.idx_b == j) ≡ false) s.found
  unlocked-missed i j ha hb ta tb ea eb =
      let (s, run, d) = unprotected-Done ha hb in
      let both : guarded vas_a vas_b i j ≡ true = rw (ea, eb) (ground arith) in
      (s, run, not_named i j s.found both d.justified)
