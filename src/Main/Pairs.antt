-- ===== src/Main/Pairs.antt =====
-- The double loop over the footprints.
use prongc.Prelude.{
  ℕ, zero, suc, ◌+◌, ◌<◌, ◌≤◌, ◌≡◌, refl, sym, subst, some_inj, get_elem?-set_self,
  get_elem?-set_ne, ◌≢◌, ◌∙◌, inl, inr, Bool, true, false, Bool-cases, Option, some, none_ne_some,
  List, [], ◌∷◌, ◌++◌, map, length, length-set, get_elem?, set, All, arith, ◌==◌, ◌>>=◌, of_Holds,
}
use prongc.VarAccess.{VarAccess}
use prongc.Core.Overlap.{find_va_overlap}
use prongc.Main.Accounts.{Accounted, scan-Accounts, compare_all-Accounted}
use prongc.Main.Reported.{Found, Done-Found}
use prongc.Core.Overlap.Sound.{Named, SpentAll-Named}
use prongc.Core.Overlap.Outer.{scan_all-Done}
use prongc.Core.Overlap.Again.{always, ClearAll-Apart}
use prongc.Main.Lessened.{
  Disjoint, Lessened, Lessened-refl, Lessened-trans, set-Lessened, Done, Done-Lessened,
}
use prongc.Main.{Finding, Footprints, tag, compare_pair, compare_row, compare_rows, compare_all}

-- placeholders and accesses with a USR, in every footprint
abbrev pub AllNamed : Footprints → Type 0
AllNamed = All (All Named)

module _ (P : List VarAccess → Type 0) where
  pub get-All :
      (fps : Footprints) (i : ℕ)
      → All P fps
      → i < length fps
      → (a : List VarAccess) × (get_elem? fps i ≡ some a) × P a
  get-All [] i h l = absurd (omega arith)
  get-All (a ∷ fps) zero h l = (a, refl, h.0)
  get-All (a ∷ fps) (suc i) h l = get-All fps i h.1 (omega (arith, l))

  pub set-All :
      (fps : Footprints) (i : ℕ) (a : List VarAccess) → All P fps → P a → All P (set fps i a)
  set-All [] i a h k = tt
  set-All (b ∷ fps) zero a h k = (k, h.1)
  set-All (b ∷ fps) (suc i) a h k = (h.0, set-All fps i a h.1 k)

-- A step of the loop that returns: it only sets accesses to null, and leaves what `P` says.
abbrev pub Returns :
    Footprints → (Footprints → Type 0) → Option (Footprints × List Finding) → Type 0
Returns fps P m =
    (r : Footprints × List Finding) × (m ≡ some r)
    × AllNamed r.0
    × (length r.0 ≡ length fps)
    × Lessened fps r.0
    × P r.0

compare_pair-Returns :
    (i j : ℕ) (fps : Footprints)
    → AllNamed fps
    → i < length fps
    → j < length fps
    → Returns fps (Done i j) (compare_pair find_va_overlap i j fps)
unfolding compare_pair find_va_overlap
compare_pair-Returns i j fps h li lj = elim (Bool-cases (i == j)) [
  | inl e ↦ ((fps, []), rw (e) refl, h, refl, Lessened-refl fps, (λ ne. absurd (both e ne)))
  | inr e ↦
      let (a, qa, na) = get-All (All Named) fps i h li in
      let (b, qb, nb) = get-All (All Named) fps j h lj in
      let (s, run, d) = scan_all-Done always (λ i j q. none_ne_some (sym q)) 0 a b na nb in
      let qb' : get_elem? (set fps i s.vas_a) j ≡ some b =
        get_elem?-set_ne fps s.vas_a (differ i j e) ∙ qb in
      let lj' : j < length (set fps i s.vas_a) = rw (length-set fps i s.vas_a) lj in
      (
        (set (set fps i s.vas_a) j s.vas_b, map (tag i j) s.found),
        rw (e, qa, qb, run) refl,
        set-All (All Named) (set fps i s.vas_a) j s.vas_b
            (set-All (All Named) fps i s.vas_a h (SpentAll-Named a s.vas_a d.spent_a na))
            (SpentAll-Named b s.vas_b d.spent_b nb),
        length-set (set fps i s.vas_a) j s.vas_b ∙ length-set fps i s.vas_a,
        Lessened-trans fps (set fps i s.vas_a) (set (set fps i s.vas_a) j s.vas_b)
            (set-Lessened fps i a s.vas_a qa d.spent_a)
            (set-Lessened (set fps i s.vas_a) j b s.vas_b qb' d.spent_b),
        (λ ne x y p q.
            at_both s.vas_a s.vas_b x y
              (some_inj (
                sym (get_elem?-set_self fps i s.vas_a li)
                ∙ sym (get_elem?-set_ne (set fps i s.vas_a) s.vas_b (λ z. differ i j e (sym z)))
                ∙ p))
              (some_inj (sym (get_elem?-set_self (set fps i s.vas_a) j s.vas_b lj') ∙ q))
              (ClearAll-Apart 0 s.vas_a s.vas_b d.clear)),
      )
]
  where
    both : {b : Bool} → b ≡ true → b ≡ false → ⊥
    both e ne = cc

    differ : (i j : ℕ) → (i == j) ≡ false → i ≢ j
    differ i j e q = ground (arith, e, q)

    at_both : (a b x y : List VarAccess) → a ≡ x → b ≡ y → Disjoint a b → Disjoint x y
    at_both a b x y p q d = rw (← p, ← q) d

-- one step, and then the rest
then-Returns :
    (fps : Footprints) (P Q : Footprints → Type 0) (m : Option (Footprints × List Finding))
    (k : Footprints → Option (Footprints × List Finding))
    → Returns fps P m
    → ((gps : Footprints) → AllNamed gps → length gps ≡ length fps → P gps → Returns gps Q (k gps))
    → Returns fps Q (m >>= λ r. k r.0 >>= λ s. some (s.0, r.1 ++ s.1))
then-Returns fps P Q m k (r, e, n, l, less, p) h =
    let (s, e', n', l', less', q) = h r.0 n l p in
    ((s.0, r.1 ++ s.1), rw (e, e') refl, n', l' ∙ l, Lessened-trans fps r.0 s.0 less less', q)

Returns-mono :
    (fps : Footprints) (P Q : Footprints → Type 0) (m : Option (Footprints × List Finding))
    → Returns fps P m
    → ((gps : Footprints) → Lessened fps gps → P gps → Q gps)
    → Returns fps Q m
Returns-mono fps P Q m (r, e, n, l, less, p) h = (r, e, n, l, less, h r.0 less p)

same : (j k : ℕ) → (j == k) ≡ true → j ≡ k
same j k e = ground (arith, e)

past : (j k : ℕ) → j ≤ k → (j == k) ≡ false → j + 1 ≤ k
past j k lo e = ground (arith, lo, e)

abbrev DoneRow : ℕ → ℕ → ℕ → Footprints → Type 0
DoneRow i j n fps = (k : ℕ) → j ≤ k → k < j + n → Done i k fps

compare_row-Returns :
    (i j n : ℕ) (fps : Footprints)
    → AllNamed fps
    → i < length fps
    → j + n ≤ length fps
    → Returns fps (DoneRow i j n) (compare_row find_va_overlap i j n fps)
unfolding compare_row
compare_row-Returns i j zero fps h li lj =
    ((fps, []), refl, h, refl, Lessened-refl fps, (λ k lo hi. absurd (omega (arith, lo, hi))))
compare_row-Returns i j (suc n) fps h li lj =
    then-Returns fps (Done i j) (DoneRow i j (suc n)) (compare_pair find_va_overlap i j fps)
      (compare_row find_va_overlap i (j + 1) n)
      (compare_pair-Returns i j fps h li (omega (arith, lj)))
      (λ gps h' l d.
        Returns-mono gps (DoneRow i (j + 1) n) (DoneRow i j (suc n))
          (compare_row find_va_overlap i (j + 1) n gps)
          (compare_row-Returns i (j + 1) n gps h' (omega (arith, l, li)) (omega (arith, l, lj)))
          (λ hps less r k lo hi. elim (Bool-cases (j == k)) [
            | inl e ↦ subst (λ x. Done i x hps) (same j k e) (Done-Lessened i j gps hps less d)
            | inr e ↦ r k (past j k lo e) (omega (arith, hi))
          ]))

abbrev DoneRows : ℕ → ℕ → ℕ → Footprints → Type 0
DoneRows size i n fps = (m : ℕ) → i ≤ m → m < i + n → DoneRow m 0 size fps

compare_rows-Returns :
    (size i n : ℕ) (fps : Footprints)
    → AllNamed fps
    → length fps ≡ size
    → i + n ≤ size
    → Returns fps (DoneRows size i n) (compare_rows find_va_overlap size i n fps)
unfolding compare_rows
compare_rows-Returns size i zero fps h e l =
    ((fps, []), refl, h, refl, Lessened-refl fps, (λ m lo hi. absurd (omega (arith, lo, hi))))
compare_rows-Returns size i (suc n) fps h e l =
    then-Returns fps (DoneRow i 0 size) (DoneRows size i (suc n))
      (compare_row find_va_overlap i 0 size fps) (compare_rows find_va_overlap size (i + 1) n)
      (compare_row-Returns i 0 size fps h (omega (arith, l, e)) (omega (arith, e)))
      (λ gps h' l' d.
        Returns-mono gps (DoneRows size (i + 1) n) (DoneRows size i (suc n))
          (compare_rows find_va_overlap size (i + 1) n gps)
          (compare_rows-Returns size (i + 1) n gps h' (l' ∙ e) (omega (arith, l)))
          (λ hps less r m lo hi. elim (Bool-cases (i == m)) [
            | inl q ↦
                subst (λ x. DoneRow x 0 size hps) (same i m q)
                  (λ k a b. Done-Lessened i k gps hps less (d k a b))
            | inr q ↦ r m (past i m lo q) (omega (arith, hi))
          ]))

compare_all-Done :
    (fps : Footprints)
    → AllNamed fps
    → Returns fps
        (λ gps. (i j : ℕ) → i < length fps → j < length fps → Done i j gps)
        (compare_all find_va_overlap fps)
unfolding compare_all
compare_all-Done fps h =
    Returns-mono fps (DoneRows (length fps) 0 (length fps)) _
      (compare_rows find_va_overlap (length fps) 0 (length fps) fps)
      (compare_rows-Returns (length fps) 0 (length fps) fps h refl (omega arith))
      (λ gps less r i j li lj.
        r i (omega arith) (omega (arith, li)) j (omega arith) (omega (arith, lj)))

-- On footprints of placeholders and accesses with a USR, the double loop over the functions returns.
-- It only sets accesses to null, and only those that a finding names; as many footprints as there were
-- are left, and of those no access of one function overlaps an access of another. So of every two
-- accesses of different functions that overlapped before it, a finding names one.
pub compare_all-Returns :
    (fps : Footprints)
    → AllNamed fps
    → (r : Footprints × List Finding) × (compare_all find_va_overlap fps ≡ some r)
      × AllNamed r.0
      × (length r.0 ≡ length fps)
      × Lessened fps r.0
      × Accounted fps r.0 r.1
      × ((i j : ℕ) → i < length fps → j < length fps → Done i j r.0)
      × Found fps r.1
unfolding find_va_overlap
compare_all-Returns fps h =
    let (r, run, n, l, less, d) = compare_all-Done fps h in
    let acc : Accounted fps r.0 r.1 =
      of_Holds (λ q. Accounted fps q.0 q.1) (compare_all find_va_overlap fps) r
        (compare_all-Accounted find_va_overlap (scan-Accounts always) fps) run in
    (r, run, n, l, less, acc, d, Done-Found fps r.0 r.1 l d acc)
