-- ===== src/Main/Lessened.antt =====
-- Footprints in which accesses were set to null, and what stays apart in them.
use prongc.Prelude.{
  ℕ, zero, suc, subst, none_ne_some, ◌≡◌, false, some, some_inj, List, [], ◌∷◌, get_elem?, set, All,
  ◌==◌,
}
use prongc.VarAccess.{VarAccess}
use prongc.Core.Overlap.Sound.{Spent, SpentAll, Spent-false}
use prongc.Core.Overlap.Outer.{SpentAll-trans, SpentAll-refl}
use prongc.Core.Overlap.Again.{Apart}
use prongc.Main.{Footprints}

-- no access of the first list overlaps one of the second
abbrev pub Disjoint : List VarAccess → List VarAccess → Type 0
Disjoint vas vbs = All (λ va. Apart va vbs) vas

Apart-Spent :
    (va wa : VarAccess) (vbs wbs : List VarAccess)
    → Spent va wa
    → SpentAll vbs wbs
    → Apart va vbs
    → Apart wa wbs
Apart-Spent va wa [] [] s p h = tt
Apart-Spent va wa [] (w ∷ ws) s p h = elim p [ ]
Apart-Spent va wa (v ∷ vs) [] s p h = elim p [ ]
Apart-Spent va wa (v ∷ vs) (w ∷ ws) s p h =
    (Spent-false va wa v w s p.0 h.0, Apart-Spent va wa vs ws s p.1 h.1)

Disjoint-Spent :
    (vas was vbs wbs : List VarAccess)
    → SpentAll vas was
    → SpentAll vbs wbs
    → Disjoint vas vbs
    → Disjoint was wbs
Disjoint-Spent [] [] vbs wbs s p h = tt
Disjoint-Spent [] (w ∷ ws) vbs wbs s p h = elim s [ ]
Disjoint-Spent (v ∷ vs) [] vbs wbs s p h = elim s [ ]
Disjoint-Spent (v ∷ vs) (w ∷ ws) vbs wbs s p h =
    (Apart-Spent v w vbs wbs s.0 p h.0, Disjoint-Spent vs ws vbs wbs s.1 p h.1)

-- Each footprint is as it was, or with accesses set to null.
abbrev pub Lessened : Footprints → Footprints → Type 0
Lessened fps gps =
    (k : ℕ) (a : List VarAccess)
    → get_elem? gps k ≡ some a
    → (b : List VarAccess) × (get_elem? fps k ≡ some b) × SpentAll b a

pub Lessened-refl : (fps : Footprints) → Lessened fps fps
Lessened-refl fps k a e = (a, e, SpentAll-refl a)

pub Lessened-trans :
    (fps gps hps : Footprints) → Lessened fps gps → Lessened gps hps → Lessened fps hps
Lessened-trans fps gps hps f g k a e =
    let (b, q, s) = g k a e in let (c, r, t) = f k b q in (c, r, SpentAll-trans c b a t s)

-- Two different functions have no accesses left that overlap.
abbrev pub Done : ℕ → ℕ → Footprints → Type 0
Done i j fps =
    (i == j) ≡ false
    → (a b : List VarAccess) → get_elem? fps i ≡ some a
    → get_elem? fps j ≡ some b
    → Disjoint a b

pub Done-Lessened :
    (i j : ℕ) (fps gps : Footprints) → Lessened fps gps → Done i j fps → Done i j gps
Done-Lessened i j fps gps l d ne a b p q =
    let (a', p', s) = l i a p in
    let (b', q', t) = l j b q in Disjoint-Spent a' a b' b s t (d ne a' b' p' q')

pub set-Lessened :
    (fps : Footprints) (i : ℕ) (a b : List VarAccess)
    → get_elem? fps i ≡ some a
    → SpentAll a b
    → Lessened fps (set fps i b)
set-Lessened [] i a b p s k c e = absurd (none_ne_some p)
set-Lessened (x ∷ fps) zero a b p s zero c e = (a, p, subst (SpentAll a) (some_inj e) s)
set-Lessened (x ∷ fps) zero a b p s (suc k) c e = (c, e, SpentAll-refl c)
set-Lessened (x ∷ fps) (suc i) a b p s zero c e = (c, e, SpentAll-refl c)
set-Lessened (x ∷ fps) (suc i) a b p s (suc k) c e = set-Lessened fps i a b p s k c e
