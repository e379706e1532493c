-- ===== src/Main/Locked.antt =====
-- The double loop over the footprints with --track-locking.
use prongc.Prelude.{
  ℕ, zero, suc, ◌+◌, ◌<◌, ◌≤◌, ◌≡◌, ◌≢◌, refl, ◌∙◌, inl, inr, false, Bool-cases, Option, some, List,
  [], ◌∷◌, ◌++◌, map, length, length-set, get_elem?, set, get_elem?-set_ne, All, arith, ◌==◌, ◌>>=◌,
  of_Holds, Holds, then-Holds,
}
use prongc.VarAccess.{VarAccess}
use prongc.LockTracking.Pairs.{LockPrimitivePair}
use prongc.LockTracking.Fields.{size_max, init_protection_field_array}
use prongc.Core.Annotate.{annotate_lock_protection_ranges}
use prongc.Core.Annotate.Straight.{Straight}
use prongc.Core.Overlap.{find_unprotected_va, protection_judge, Scan}
use prongc.Main.Accounts.{Accounted, Accounts, scan-Accounts, compare_all-Accounted}
use prongc.Core.Overlap.Sound.{Named, Spent, SpentAll, SpentAll-Named}
use prongc.Core.Overlap.Unguarded.{unprotected-Done}
use prongc.Main.Lessened.{Lessened, Lessened-refl, Lessened-trans, set-Lessened}
use prongc.Main.Pairs.{get-All, set-All}
use prongc.Main.{Finding, Footprints, tag, compare_pair, compare_row, compare_rows, compare_all}

-- A comparison that returns where `P` holds of both footprints, only sets accesses to null, and leaves
-- footprints of which `P` holds.
module _ (P : List VarAccess → Type 0) (scan : List VarAccess → List VarAccess → Option Scan)
    (returns : (a b : List VarAccess)
      → P a
      → P b
      → (s : Scan) × (scan a b ≡ some s)
        × (SpentAll a s.vas_a × SpentAll b s.vas_b)
        × (P s.vas_a × P s.vas_b)) where
  abbrev Goes : Footprints → Option (Footprints × List Finding) → Type 0
  Goes fps m =
      (r : Footprints × List Finding) × (m ≡ some r)
      × All P r.0
      × (length r.0 ≡ length fps)
      × Lessened fps r.0

  compare_pair-Goes :
      (i j : ℕ) (fps : Footprints)
      → All P fps
      → i < length fps
      → j < length fps
      → Goes fps (compare_pair scan i j fps)
  unfolding compare_pair
  compare_pair-Goes i j fps h li lj = elim (Bool-cases (i == j)) [
    | inl e ↦ ((fps, []), rw (e) refl, h, refl, Lessened-refl fps)
    | inr e ↦
        let (a, qa, pa) = get-All P fps i h li in
        let (b, qb, pb) = get-All P fps j h lj in
        let (s, run, (sa, sb), (na, nb)) = returns a b pa pb in
        let gps : Footprints = set fps i s.vas_a in
        let qb' : get_elem? gps j ≡ some b = get_elem?-set_ne fps s.vas_a (differ i j e) ∙ qb in
        (
          (set gps j s.vas_b, map (tag i j) s.found),
          rw (e, qa, qb, run) refl,
          set-All P gps j s.vas_b (set-All P fps i s.vas_a h na) nb,
          length-set gps j s.vas_b ∙ length-set fps i s.vas_a,
          Lessened-trans fps gps (set gps j s.vas_b) (set-Lessened fps i a s.vas_a qa sa)
              (set-Lessened gps j b s.vas_b qb' sb),
        )
  ]
    where
      differ : (i j : ℕ) → (i == j) ≡ false → i ≢ j
      differ i j e q = ground (arith, e, q)

  -- one step, and then the rest
  then-Goes :
      (fps : Footprints) (m : Option (Footprints × List Finding))
      (k : Footprints → Option (Footprints × List Finding))
      → Goes fps m
      → ((gps : Footprints) → All P gps → length gps ≡ length fps → Goes gps (k gps))
      → Goes fps (m >>= λ r. k r.0 >>= λ s. some (s.0, r.1 ++ s.1))
  then-Goes fps m k (r, e, n, l, less) h =
      let (s, e', n', l', less') = h r.0 n l in
      ((s.0, r.1 ++ s.1), rw (e, e') refl, n', l' ∙ l, Lessened-trans fps r.0 s.0 less less')

  compare_row-Goes :
      (i j n : ℕ) (fps : Footprints)
      → All P fps
      → i < length fps
      → j + n ≤ length fps
      → Goes fps (compare_row scan i j n fps)
  unfolding compare_row
  compare_row-Goes i j zero fps h li lj = ((fps, []), refl, h, refl, Lessened-refl fps)
  compare_row-Goes i j (suc n) fps h li lj =
      then-Goes fps (compare_pair scan i j fps) (compare_row scan i (j + 1) n)
        (compare_pair-Goes i j fps h li (omega (arith, lj)))
        (λ gps h' l.
          compare_row-Goes i (j + 1) n gps h' (omega (arith, l, li)) (omega (arith, l, lj)))

  compare_rows-Goes :
      (size i n : ℕ) (fps : Footprints)
      → All P fps
      → length fps ≡ size
      → i + n ≤ size
      → Goes fps (compare_rows scan size i n fps)
  unfolding compare_rows
  compare_rows-Goes size i zero fps h e l = ((fps, []), refl, h, refl, Lessened-refl fps)
  compare_rows-Goes size i (suc n) fps h e l =
      then-Goes fps (compare_row scan i 0 size fps) (compare_rows scan size (i + 1) n)
        (compare_row-Goes i 0 size fps h (omega (arith, l, e)) (omega (arith, e)))
        (λ gps h' l'. compare_rows-Goes size (i + 1) n gps h' (l' ∙ e) (omega (arith, l)))

  compare_all-Goes : (fps : Footprints) → All P fps → Goes fps (compare_all scan fps)
  unfolding compare_all
  compare_all-Goes fps h = compare_rows-Goes (length fps) 0 (length fps) fps h refl (omega arith)

Spent-Straight :
    (pairs : List LockPrimitivePair) (vs ws : List VarAccess)
    → SpentAll vs ws
    → All (Straight pairs) vs
    → All (Straight pairs) ws
Spent-Straight pairs [] [] s h = tt
Spent-Straight pairs [] (w ∷ ws) s h = elim s [ ]
Spent-Straight pairs (v ∷ vs) [] s h = tt
Spent-Straight pairs (v ∷ vs) (w ∷ ws) s h = (one v w s.0 h.0, Spent-Straight pairs vs ws s.1 h.1)
  where
    one : (v w : VarAccess) → Spent v w → Straight pairs v → Straight pairs w
    one v w (inl e) k = rw (e) k
    one v w (inr e) k = rw (e) refl

SpentAll-length : (vs ws : List VarAccess) → SpentAll vs ws → length ws ≡ length vs
SpentAll-length [] [] s = refl
SpentAll-length [] (w ∷ ws) s = elim s [ ]
SpentAll-length (v ∷ vs) [] s = elim s [ ]
SpentAll-length (v ∷ vs) (w ∷ ws) s = omega (arith, SpentAll-length vs ws s.1)

-- No markers of branches, locks with a USR that functions in the table acquire, placeholders and
-- accesses with a USR, and no more accesses than SIZE_MAX.
abbrev pub Comparable : List LockPrimitivePair → List VarAccess → Type 0
Comparable pairs vas = All (Straight pairs) vas × All Named vas × (length vas ≤ size_max)

Comparable-Spent :
    (pairs : List LockPrimitivePair) (vs ws : List VarAccess)
    → All (Straight pairs) vs
    → All Named vs
    → length vs ≤ size_max
    → SpentAll vs ws
    → Comparable pairs ws
Comparable-Spent pairs vs ws s n l p =
    (Spent-Straight pairs vs ws p s, SpentAll-Named vs ws p n, rw (SpentAll-length vs ws p) l)

unprotected-Accounts :
    (realloc : ℕ → ℕ → Option ℕ) (pairs : List LockPrimitivePair) (p_a p_b : ℕ)
    (a b : List VarAccess)
    → Holds (Accounts a b) (find_unprotected_va realloc pairs p_a p_b a b)
unfolding find_unprotected_va
unprotected-Accounts realloc pairs p_a p_b a b =
    then-Holds (Accounts a b)
      (annotate_lock_protection_ranges realloc pairs a (init_protection_field_array p_a)) _
      (λ x.
        then-Holds (Accounts a b)
          (annotate_lock_protection_ranges realloc pairs b (init_protection_field_array p_b)) _
          (λ y. scan-Accounts (protection_judge x y) a b))

-- Where memory does not run out, the double loop with `find_unprotected_va` returns for footprints
-- without markers of branches, of placeholders and accesses with a USR, and of at most SIZE_MAX
-- accesses, in which each acquisition and release of a lock has a USR, and the function of each
-- acquisition is in the table of lock pairs, in a pair of which neither name is NULL. It leaves as many
-- such footprints, in which accesses were only set to null, and only those that a finding names.
pub compare_all-locked :
    (realloc : ℕ → ℕ → Option ℕ)
    (has_room : (old cap : ℕ) → (new : ℕ) × (realloc old cap ≡ some new))
    (pairs : List LockPrimitivePair) (p_a p_b : ℕ) (fps : Footprints)
    → All (Comparable pairs) fps
    → (r : Footprints × List Finding) × (compare_all (find_unprotected_va realloc pairs p_a p_b) fps
        ≡ some r)
      × All (Comparable pairs) r.0
      × (length r.0 ≡ length fps)
      × Lessened fps r.0
      × Accounted fps r.0 r.1
compare_all-locked realloc has_room pairs p_a p_b fps h =
    let scan : List VarAccess → List VarAccess → Option Scan =
      find_unprotected_va realloc pairs p_a p_b in
    let (r, run, c, l, less) = compared in
    (
      r,
      run,
      c,
      l,
      less,
      of_Holds (λ q. Accounted fps q.0 q.1) (compare_all scan fps) r
          (compare_all-Accounted scan (unprotected-Accounts realloc pairs p_a p_b) fps) run,
    )
  where
    compared :
        (r : Footprints × List Finding) × (compare_all
            (find_unprotected_va realloc pairs p_a p_b)
            fps
          ≡ some r)
        × All (Comparable pairs) r.0
        × (length r.0 ≡ length fps)
        × Lessened fps r.0
    compared =
        compare_all-Goes (Comparable pairs) (find_unprotected_va realloc pairs p_a p_b)
          (λ a b (sa, na, la) (sb, nb, lb).
            let (s, run, d) =
              unprotected-Done realloc has_room pairs p_a p_b a b sa sb la lb na nb in
            (
              s,
              run,
              (d.spent_a, d.spent_b),
              (
                Comparable-Spent pairs a s.vas_a sa na la d.spent_a,
                Comparable-Spent pairs b s.vas_b sb nb lb d.spent_b,
              ),
            ))
          fps h
