-- ===== src/Main/Reported.antt =====
-- What the double loop over the footprints finds.
use prongc.Prelude.{
  ℕ, zero, suc, ◌<◌, ◌≡◌, sym, subst, some_inj, ◌∙◌, inl, inr, true, false, some, none_ne_some,
  List, [], ◌∷◌, length, get_elem?, arith, ◌==◌, ◌||◌, Option-cases, some-false_ne_true,
}
use prongc.VarAccess.{VarAccess}
use prongc.Core.Overlap.{overlaps}
use prongc.Main.Accounts.{Accounted, access_at, named}
use prongc.Core.Overlap.Again.{Apart}
use prongc.Main.Lessened.{Disjoint, Done}
use prongc.Main.{Finding, Footprints}

-- Of two accesses of different functions that overlap, a finding names one.
abbrev pub Found : Footprints → List Finding → Type 0
Found fps fs =
    (i j x y : ℕ) (va vb : VarAccess)
    → (i == j) ≡ false
    → access_at fps i x ≡ some va
    → access_at fps j y ≡ some vb
    → overlaps va vb ≡ some true
    → (named i x fs || named j y fs) ≡ true

there :
    (fps : Footprints) (i x : ℕ) (va : VarAccess)
    → access_at fps i x ≡ some va
    → (a : List VarAccess) × (get_elem? fps i ≡ some a) × (get_elem? a x ≡ some va)
there fps i x va e = elim (Option-cases (get_elem? fps i)) [
  | inl p ↦ absurd (none_ne_some (rw (p) at e))
  | inr (a, p) ↦ (a, p, rw (p) at e)
]

Apart-at :
    (va vb : VarAccess) (vbs : List VarAccess) (y : ℕ)
    → Apart va vbs
    → get_elem? vbs y ≡ some vb
    → overlaps va vb ≡ some false
Apart-at va vb [] y h e = absurd (none_ne_some e)
Apart-at va vb (w ∷ ws) zero h e = subst (λ v. overlaps va v ≡ some false) (some_inj e) h.0
Apart-at va vb (w ∷ ws) (suc y) h e = Apart-at va vb ws y h.1 e

Disjoint-at :
    (vas vbs : List VarAccess) (x y : ℕ) (va vb : VarAccess)
    → Disjoint vas vbs
    → get_elem? vas x ≡ some va
    → get_elem? vbs y ≡ some vb
    → overlaps va vb ≡ some false
Disjoint-at [] vbs x y va vb h e f = absurd (none_ne_some e)
Disjoint-at (v ∷ vas) vbs zero y va vb h e f =
    subst (λ u. overlaps u vb ≡ some false) (some_inj e) (Apart-at v vb vbs y h.0 f)
Disjoint-at (v ∷ vas) vbs (suc x) y va vb h e f = Disjoint-at vas vbs x y va vb h.1 e f

in_range :
    (fps : Footprints) (i : ℕ) (a : List VarAccess) → get_elem? fps i ≡ some a → i < length fps
in_range [] i a e = absurd (none_ne_some e)
in_range (f ∷ fps) zero a e = omega arith
in_range (f ∷ fps) (suc i) a e = let l = in_range fps i a e in omega (arith, l)

pub Done-Found :
    (fps gps : Footprints) (fs : List Finding)
    → length gps ≡ length fps
    → ((i j : ℕ) → i < length fps → j < length fps → Done i j gps)
    → Accounted fps gps fs
    → Found fps fs
Done-Found fps gps fs l d acc i j x y va vb ne p q over = elim (acc i x) [
  | inr e ↦ ground (arith, e)
  | inl e ↦ elim (acc j y) [
    | inr f ↦ ground (arith, f)
    | inl f ↦
        let (a, pa, xa) = there gps i x va (e ∙ p) in
        let (b, pb, yb) = there gps j y vb (f ∙ q) in
        let li : i < length fps = subst (λ n. i < n) l (in_range gps i a pa) in
        let lj : j < length fps = subst (λ n. j < n) l (in_range gps j b pb) in
        absurd (
          some-false_ne_true
            (sym (Disjoint-at a b x y va vb (d i j li lj ne a b pa pb) xa yb) ∙ over))
  ]
]
