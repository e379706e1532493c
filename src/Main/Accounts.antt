-- ===== src/Main/Accounts.antt =====
-- Accesses that the double loop over the footprints changed, and the findings that name them.
use prongc.Prelude.{
  ℕ, zero, suc, ◌+◌, ◌≡◌, ◌≢◌, ◌⊎◌, inl, inr, refl, sym, subst, ◌∙◌, ap, Bool, true, false,
  Bool-cases, ◌||◌, ◌&&◌, Option, some, none_ne_some, Option-cases, List, [], ◌∷◌, ◌++◌, map,
  length, get_elem?, set, get_elem?-set_ne, arith, ◌==◌, ◌>>=◌, Holds, bind-Holds, Holds-mono,
}
use prongc.VarAccess.{VarAccess}
use prongc.Core.Overlap.{Heading, Report, Scan, scan_all}
use prongc.Core.Overlap.Accounts.{names_a, names_b, ScanAccounts, scan_all-Accounts}
use prongc.Main.{Finding, Footprints, tag, compare_pair, compare_row, compare_rows, compare_all}

-- A finding names the access with index `x` of the function with index `k`.
abbrev pub named : ℕ → ℕ → List Finding → Bool
named k x [] = false
named k x (f ∷ fs) =
    ((f.func_a == k) && (f.report.idx_a == x))
    || (((f.func_b == k) && (f.report.idx_b == x)) || named k x fs)

-- the access with index `x` of the function with index `k`
abbrev pub access_at : Footprints → ℕ → ℕ → Option VarAccess
access_at fps k x = get_elem? fps k >>= λ a. get_elem? a x

-- Each access is as it was, or a finding names it.
abbrev pub Accounted : Footprints → Footprints → List Finding → Type 0
Accounted fps gps fs = (k x : ℕ) → (access_at gps k x ≡ access_at fps k x) ⊎ (named k x fs ≡ true)

named-append :
    (k x : ℕ) (fs gs : List Finding) → named k x (fs ++ gs) ≡ (named k x fs || named k x gs)
named-append k x [] gs = refl
named-append k x (f ∷ fs) gs = ground (arith, named-append k x fs gs)

named_left : (k x : ℕ) (fs gs : List Finding) → named k x fs ≡ true → named k x (fs ++ gs) ≡ true
named_left k x fs gs h = ground (arith, h, named-append k x fs gs)

named_right : (k x : ℕ) (fs gs : List Finding) → named k x gs ≡ true → named k x (fs ++ gs) ≡ true
named_right k x fs gs h = ground (arith, h, named-append k x fs gs)

Accounted-trans :
    (fps gps hps : Footprints) (fs gs : List Finding)
    → Accounted fps gps fs
    → Accounted gps hps gs
    → Accounted fps hps (fs ++ gs)
Accounted-trans fps gps hps fs gs f g k x = elim (g k x) [
  | inr e ↦ inr (named_right k x fs gs e)
  | inl e ↦ elim (f k x) [ inl q ↦ inl (e ∙ q) | inr q ↦ inr (named_left k x fs gs q) ]
]

named-a : (i j x : ℕ) (rs : List Report) → names_a x rs ≡ true → named i x (map (tag i j) rs) ≡ true
named-a i j x [] h = h
named-a i j x (r ∷ rs) h = ground (arith, h, named-a i j x rs)

named-b : (i j x : ℕ) (rs : List Report) → names_b x rs ≡ true → named j x (map (tag i j) rs) ≡ true
named-b i j x [] h = h
named-b i j x (r ∷ rs) h = ground (arith, h, named-b i j x rs)

set_there :
    (fps : Footprints) (i : ℕ) (a b : List VarAccess)
    → get_elem? fps i ≡ some a
    → get_elem? (set fps i b) i ≡ some b
set_there [] i a b e = absurd (none_ne_some e)
set_there (f ∷ fps) zero a b e = refl
set_there (f ∷ fps) (suc i) a b e = set_there fps i a b e

-- one footprint is replaced
set-access_at :
    (fps : Footprints) (i k x : ℕ) (a b : List VarAccess)
    → get_elem? fps i ≡ some a
    → ((i ≡ k)
        × (access_at fps k x ≡ get_elem? a x)
        × (access_at (set fps i b) k x ≡ get_elem? b x))
      ⊎ (access_at (set fps i b) k x ≡ access_at fps k x)
set-access_at fps i k x a b e = elim (Bool-cases (i == k)) [
  | inl q ↦
      let p : i ≡ k = ground (arith, q) in
      inl (
        p,
        subst (λ n. access_at fps n x ≡ get_elem? a x) p (at_there fps a e),
        subst (λ n. access_at (set fps i b) n x ≡ get_elem? b x) p
            (at_there (set fps i b) b (set_there fps i a b e)),
      )
  | inr q ↦ inr (
      ap (λ (o : Option (List VarAccess)). o >>= λ c. get_elem? c x)
        (get_elem?-set_ne fps b (differ i k q)))
]
  where
    at_there :
        (gps : Footprints) (c : List VarAccess)
        → get_elem? gps i ≡ some c
        → access_at gps i x ≡ get_elem? c x
    at_there gps c h = ap (λ (o : Option (List VarAccess)). o >>= λ c. get_elem? c x) h

    differ : (i j : ℕ) → (i == j) ≡ false → i ≢ j
    differ i j q = ground (arith, q)

set-Accounted :
    (fps : Footprints) (i : ℕ) (a b : List VarAccess) (fs : List Finding)
    → get_elem? fps i ≡ some a
    → ((x : ℕ) → (get_elem? b x ≡ get_elem? a x) ⊎ (named i x fs ≡ true))
    → Accounted fps (set fps i b) fs
set-Accounted fps i a b fs e h k x = elim (set-access_at fps i k x a b e) [
  | inr q ↦ inl q
  | inl (p, q, r) ↦ elim (h x) [
    | inl t ↦ inl (r ∙ t ∙ sym q)
    | inr t ↦ inr (subst (λ n. named n x fs ≡ true) p t)
  ]
]

-- two replacements that the same findings account for
Accounted-both :
    (fps gps hps : Footprints) (fs : List Finding)
    → Accounted fps gps fs
    → Accounted gps hps fs
    → Accounted fps hps fs
Accounted-both fps gps hps fs f g k x = elim (g k x) [
  | inr e ↦ inr e
  | inl e ↦ elim (f k x) [ inl q ↦ inl (e ∙ q) | inr q ↦ inr q ]
]

-- What a comparison of two footprints leaves is accounted for.
abbrev pub Accounts : List VarAccess → List VarAccess → Scan → Type 0
Accounts a b s =
    ((x : ℕ) → (get_elem? s.vas_a x ≡ get_elem? a x) ⊎ (names_a x s.found ≡ true))
    × ((x : ℕ) → (get_elem? s.vas_b x ≡ get_elem? b x) ⊎ (names_b x s.found ≡ true))

pub scan-Accounts :
    (judge : ℕ → ℕ → Option (Option Heading)) (a b : List VarAccess)
    → Holds (Accounts a b) (scan_all judge 0 a b)
scan-Accounts judge a b =
    Holds-mono (ScanAccounts judge 0 a b) (Accounts a b) (scan_all judge 0 a b)
      (scan_all-Accounts judge 0 a b)
      (λ s (f, g). (
        (λ x. elim (f x) [
          | inl e ↦ inl e
          | inr e ↦ inr (subst (λ n. names_a n s.found ≡ true) (omega arith) e)
        ]),
        g,
      ))

module _ (scan : List VarAccess → List VarAccess → Option Scan)
    (accounts : (a b : List VarAccess) → Holds (Accounts a b) (scan a b)) where
  abbrev Result : Footprints → Footprints × List Finding → Type 0
  Result fps r = Accounted fps r.0 r.1

  pair-Accounted :
      (i j : ℕ) (fps : Footprints) (a b : List VarAccess) (s : Scan)
      → (i == j) ≡ false
      → get_elem? fps i ≡ some a
      → get_elem? fps j ≡ some b
      → Accounts a b s
      → Accounted fps (set (set fps i s.vas_a) j s.vas_b) (map (tag i j) s.found)
  pair-Accounted i j fps a b s ne p q (ha, hb) =
      let fs : List Finding = map (tag i j) s.found in
      Accounted-both fps (set fps i s.vas_a) (set (set fps i s.vas_a) j s.vas_b) fs
        (set-Accounted fps i a s.vas_a fs p
          (λ x. elim (ha x) [ inl e ↦ inl e | inr e ↦ inr (named-a i j x s.found e) ]))
        (set-Accounted (set fps i s.vas_a) j b s.vas_b fs
          (get_elem?-set_ne fps s.vas_a (differ i j ne) ∙ q)
          (λ x. elim (hb x) [ inl e ↦ inl e | inr e ↦ inr (named-b i j x s.found e) ]))
    where
      differ : (i j : ℕ) → (i == j) ≡ false → i ≢ j
      differ i j q = ground (arith, q)

  compare_pair-Accounted :
      (i j : ℕ) (fps : Footprints) → Holds (Result fps) (compare_pair scan i j fps)
  unfolding compare_pair
  compare_pair-Accounted i j fps = elim (Bool-cases (i == j)) [
    | inl e ↦ rw (e) (λ k x. inl refl)
    | inr e ↦ elim (Option-cases (get_elem? fps i)) [
      | inl p ↦ rw (e, p) tt
      | inr (a, p) ↦ elim (Option-cases (get_elem? fps j)) [
        | inl q ↦ rw (e, p, q) tt
        | inr (b, q) ↦
            rw (e, p, q)
              (bind-Holds (Accounts a b) (Result fps) (scan a b) _ (accounts a b)
                (λ s h. pair-Accounted i j fps a b s e p q h))
      ]
    ]
  ]

  -- one step, and then the rest
  then-Accounted :
      (fps : Footprints) (m : Option (Footprints × List Finding))
      (k : Footprints → Option (Footprints × List Finding))
      → Holds (Result fps) m
      → ((gps : Footprints) → Holds (Result gps) (k gps))
      → Holds (Result fps) (m >>= λ r. k r.0 >>= λ s. some (s.0, r.1 ++ s.1))
  then-Accounted fps m k h f = bind-Holds (Result fps) (Result fps) m _ h (λ r a.
      bind-Holds (Result r.0) (Result fps) (k r.0) _ (f r.0)
        (λ s b. Accounted-trans fps r.0 s.0 r.1 s.1 a b))

  compare_row-Accounted :
      (i j n : ℕ) (fps : Footprints) → Holds (Result fps) (compare_row scan i j n fps)
  unfolding compare_row
  compare_row-Accounted i j zero fps = (λ k x. inl refl)
  compare_row-Accounted i j (suc n) fps =
      then-Accounted fps (compare_pair scan i j fps) (compare_row scan i (j + 1) n)
        (compare_pair-Accounted i j fps) (compare_row-Accounted i (j + 1) n)

  compare_rows-Accounted :
      (size i n : ℕ) (fps : Footprints) → Holds (Result fps) (compare_rows scan size i n fps)
  unfolding compare_rows
  compare_rows-Accounted size i zero fps = (λ k x. inl refl)
  compare_rows-Accounted size i (suc n) fps =
      then-Accounted fps (compare_row scan i 0 size fps) (compare_rows scan size (i + 1) n)
        (compare_row-Accounted i 0 size fps) (compare_rows-Accounted size (i + 1) n)

  pub compare_all-Accounted : (fps : Footprints) → Holds (Result fps) (compare_all scan fps)
  unfolding compare_all
  compare_all-Accounted fps = compare_rows-Accounted (length fps) 0 (length fps) fps
