-- ===== src/Core/Overlap/Sound.antt =====
-- What the scan over two footprints leaves, and what it reports.
use prongc.Prelude.{
  ◌≡◌, ◌⊎◌, inl, inr, refl, sym, ◌∙◌, Bool, true, false, ◌||◌, Option, none, some,
  some-false_ne_true, Option-cases, List, [], ◌∷◌, All, arith, Str,
}
use prongc.VarAccess.{VarAccess, strcmp_eq, equal_var_accesses, va_is_placeholder_type, nullify}
use prongc.Core.Overlap.{overlaps}

abbrev pub has_usr : Option Str → Bool
has_usr none = false
has_usr (some s) = true

-- A placeholder, or an access with a USR.
abbrev pub Named : VarAccess → Type 0
Named va = (va_is_placeholder_type va.type || has_usr va.usr) ≡ true

pub overlaps-total :
    (va vb : VarAccess) → Named va → Named vb → (same : Bool) × (overlaps va vb ≡ some same)
unfolding overlaps equal_var_accesses strcmp_eq
overlaps-total va vb ha hb = elim (Option-cases (overlaps va vb)) [
  | inl missing ↦ absurd (ground arith)
  | inr found ↦ found
]

pub overlaps-null_left : (va vb : VarAccess) → overlaps (nullify va) vb ≡ some false
unfolding overlaps va_is_placeholder_type
overlaps-null_left va vb = refl

pub overlaps-null_right : (va vb : VarAccess) → overlaps va (nullify vb) ≡ some false
unfolding overlaps va_is_placeholder_type
overlaps-null_right va vb = ground arith

pub Named-nullify : (va : VarAccess) → Named (nullify va)
unfolding va_is_placeholder_type
Named-nullify va = refl

-- The access as it was, or with its type set to null.
abbrev pub Spent : VarAccess → VarAccess → Type 0
Spent va wa = (wa ≡ va) ⊎ (wa ≡ nullify va)

abbrev pub SpentAll : List VarAccess → List VarAccess → Type 0
SpentAll [] [] = Unit
SpentAll [] (w ∷ ws) = ⊥
SpentAll (v ∷ vs) [] = ⊥
SpentAll (v ∷ vs) (w ∷ ws) = Spent v w × SpentAll vs ws

pub Spent-false :
    (va wa vb wb : VarAccess)
    → Spent va wa
    → Spent vb wb
    → overlaps va vb ≡ some false
    → overlaps wa wb ≡ some false
Spent-false va wa vb wb (inl p) (inl q) e = rw (p, q) e
Spent-false va wa vb wb (inl p) (inr q) e = rw q (overlaps-null_right wa vb)
Spent-false va wa vb wb (inr p) q e = rw p (overlaps-null_left va wb)

pub Spent-true :
    (va wa vb wb : VarAccess)
    → Spent va wa
    → Spent vb wb
    → overlaps wa wb ≡ some true
    → overlaps va vb ≡ some true
Spent-true va wa vb wb (inl p) (inl q) e = rw (← p, ← q) e
Spent-true va wa vb wb (inl p) (inr q) e =
    absurd (some-false_ne_true (sym (overlaps-null_right wa vb) ∙ rw q at e))
Spent-true va wa vb wb (inr p) q e =
    absurd (some-false_ne_true (sym (overlaps-null_left va wb) ∙ rw p at e))

Spent-Named : (va wa : VarAccess) → Spent va wa → Named va → Named wa
Spent-Named va wa (inl p) h = rw p h
Spent-Named va wa (inr p) h = rw p (Named-nullify va)

pub SpentAll-Named : (vs ws : List VarAccess) → SpentAll vs ws → All Named vs → All Named ws
SpentAll-Named [] [] s h = tt
SpentAll-Named [] (w ∷ ws) s h = elim s [ ]
SpentAll-Named (v ∷ vs) [] s h = tt
SpentAll-Named (v ∷ vs) (w ∷ ws) s h = (Spent-Named v w s.0 h.0, SpentAll-Named vs ws s.1 h.1)
