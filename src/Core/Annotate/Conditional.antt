-- ===== src/Core/Annotate/Conditional.antt =====
-- The test for a conditional protection never succeeds.
use prongc.Prelude.{
  ℕ, ◌+◌, ◌<◌, ◌≡◌, refl, false, Option, none, some, none_ne_some, some_inj, bind_some, List, [],
  ◌∷◌, All, length, arith, ◌>>=◌, ◌==◌, Bool-cases, inl, inr, subst,
}
use prongc.VarAccess.{
  VarAccess, VarAccessType, type_code, lock_acquire, lock_release, if_stmt, then_block, else_stmt,
}
use prongc.LockTracking.Pairs.{LockPrimitivePair, get_pair_by_lock_func}
use prongc.LockTracking.Fields.{
  size_max, LpField, ProtectionFieldArray, pred64, init_protection_field_array,
}
use prongc.LockTracking.Fields.Closed.{Closed, AllClosed, Keeps, add-Keeps, set_end-Keeps}
use prongc.LockTracking.Fields.Copy.{active-Keeps, inactive-Keeps}
use prongc.LockTracking.Ranges.{lp_cond_prot}
use prongc.Core.Annotate.{
  Ranges, find_then, annotate_one, annotate_from, annotate_lock_protection_ranges,
}

find_then-lt :
    (i : ℕ) (vas : List VarAccess) {k : ℕ} → find_then i vas ≡ some k → k < i + length vas
unfolding find_then
find_then-lt i [] e = absurd (none_ne_some e)
find_then-lt i (va ∷ vas) e = elim (Bool-cases (type_code va.type == type_code then_block)) [
  | inl found ↦ ground arith
  | inr other ↦ omega (arith, find_then-lt (i + 1) vas (rw other at e))
]

abbrev KeepsRanges : Option Ranges → Type 0
KeepsRanges none = Unit {0}
KeepsRanges (some r) = AllClosed r.fields

lift :
    (m : Option ProtectionFieldArray) (k : ProtectionFieldArray → Ranges)
    → ((a : ProtectionFieldArray) → (k a).fields ≡ a)
    → Keeps m
    → KeepsRanges (m >>= λ a. some (k a))
lift none k same h = tt
lift (some a) k same h = rw (same a) h

bind_Ranges :
    {A : Type 0} (m : Option A) (k : A → Option Ranges)
    → ((a : A) → m ≡ some a → KeepsRanges (k a))
    → KeepsRanges (m >>= k)
bind_Ranges none k h = tt
bind_Ranges (some a) k h = h a refl

module _ (realloc : ℕ → ℕ → Option ℕ) (pairs : List LockPrimitivePair) where
  annotate_one-Keeps :
      (i : ℕ) (va : VarAccess) (vas : List VarAccess) (t : VarAccessType) (r : Ranges)
      → i + length vas + 1 < size_max
      → AllClosed r.fields
      → KeepsRanges (annotate_one realloc pairs i va vas t r)
  unfolding annotate_one
  annotate_one-Keeps i va vas lock_acquire r small h =
      bind_Ranges (get_pair_by_lock_func pairs va.esc_func_spelling) _
        λ p e. lift _ _ (λ a. refl) (add-Keeps realloc p i va.usr i r.fields h)
  annotate_one-Keeps i va vas lock_release r small h =
      lift _ _ (λ a. refl) (set_end-Keeps va.usr i r.fields h)
  annotate_one-Keeps i va vas if_stmt r small h = bind_Ranges (find_then (i + 1) vas) _ λ k e.
      lift _ _ (λ a. refl)
        (active-Keeps realloc k _ r.fields (omega (arith, find_then-lt (i + 1) vas e)) h)
  annotate_one-Keeps i va vas else_stmt r small h =
      lift _ _ (λ a. refl) (inactive-Keeps realloc i (pred64 r.branch_depth) r.fields h)
  annotate_one-Keeps i va vas _ r small h = h

  annotate_from-Keeps :
      (i : ℕ) (vas : List VarAccess) (r : Ranges)
      → i + length vas < size_max
      → AllClosed r.fields
      → KeepsRanges (annotate_from realloc pairs i vas r)
  unfolding annotate_from
  annotate_from-Keeps i [] r small h = h
  annotate_from-Keeps i (va ∷ vas) r small h =
      bind_Ranges (annotate_one realloc pairs i va vas va.type r) _ λ s e.
        annotate_from-Keeps (i + 1) vas s (omega arith)
          (rw e at (annotate_one-Keeps i va vas va.type r (omega arith) h))

  cond_prot-All : (fs : List LpField) → All Closed fs → All (λ f. lp_cond_prot f ≡ false) fs
  unfolding lp_cond_prot
  cond_prot-All [] h = tt
  cond_prot-All (f ∷ fs) h = (ground (arith, h.0), cond_prot-All fs h.1)

  -- In the protection fields of any footprint that fits the address space, no field meets the test
  -- of `lp_cond_prot`: a field with a successor in its list always has an end.
  pub annotate-not_conditional :
      (footprint : List VarAccess) (p : ℕ) (a : ProtectionFieldArray)
      → length footprint < size_max
      → annotate_lock_protection_ranges realloc pairs footprint (init_protection_field_array p)
        ≡ some a
      → All (λ f. lp_cond_prot f ≡ false) a.lp_fields
  unfolding annotate_lock_protection_ranges init_protection_field_array
  annotate-not_conditional footprint p a small e =
      let start : Ranges = record { branch_depth = 0; fields = init_protection_field_array p } in
      let (r, run, out) = bind_some (annotate_from realloc pairs 0 footprint start) _ e in
      let closed : AllClosed r.fields =
        rw run at (annotate_from-Keeps 0 footprint start (omega arith) tt) in
      cond_prot-All a.lp_fields (subst AllClosed (some_inj out) closed)
