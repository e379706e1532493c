-- ===== src/LockTracking/Fields/Ends.antt =====
-- What the growing of the array and a field put behind the others leave as it was.
use prongc.Prelude.{
  ℕ, zero, suc, ◌≡◌, refl, Bool, true, false, subst, ◌∙◌, sym, ap, inl, inr, Bool-cases,
  Option-cases, some_inj, none_ne_some, ◌*◌, Option, some, List, [], ◌∷◌, ◌++◌, map, length,
  get_elem?, length-map, ltb, if◌then◌else◌,
}
use prongc.LockTracking.Fields.{
  LpField, ProtectionFieldArray, move_ptr, update_lp_field_array_pointers, append_field, grow,
}

abbrev pub ends : List LpField → List ℕ
ends [] = []
ends (f ∷ fs) = f.protection_range_end ∷ ends fs

pub ends-get :
    (fs : List LpField) (i : ℕ) {f : LpField}
    → get_elem? fs i ≡ some f
    → get_elem? (ends fs) i ≡ some f.protection_range_end
ends-get [] i e = absurd (none_ne_some e)
ends-get (g ∷ fs) zero e = ap some (ap (λ (h : LpField). h.protection_range_end) (some_inj e))
ends-get (g ∷ fs) (suc i) e = ends-get fs i e

pub ends-append :
    (fs : List LpField) (f : LpField) (i : ℕ) {n : ℕ}
    → get_elem? (ends fs) i ≡ some n
    → get_elem? (ends (fs ++ f ∷ [])) i ≡ some n
ends-append [] f i e = absurd (none_ne_some e)
ends-append (g ∷ fs) f zero e = e
ends-append (g ∷ fs) f (suc i) e = ends-append fs f i e

pub ends-map :
    (old new : ℕ) (fs : List LpField)
    → ends (
        map (λ (f : LpField). record f { next_prot_range = move_ptr old new f.next_prot_range }) fs)
      ≡ ends fs
ends-map old new [] = refl
ends-map old new (f ∷ fs) = ap (◌∷◌ f.protection_range_end) (ends-map old new fs)

-- What a call leaves of the ends: each of those that were there.
abbrev pub SameEnds : ProtectionFieldArray → ProtectionFieldArray → Type 0
SameEnds a b =
    (i n : ℕ) → get_elem? (ends a.lp_fields) i ≡ some n → get_elem? (ends b.lp_fields) i ≡ some n

pub grown-SameEnds :
    (realloc : ℕ → ℕ → Option ℕ) (test : Bool) (a : ProtectionFieldArray) {b : ProtectionFieldArray}
    → (if test then grow realloc a else some a) ≡ some b
    → SameEnds a b
unfolding grow
grown-SameEnds realloc false a e i n there =
    subst (λ (c : ProtectionFieldArray). get_elem? (ends c.lp_fields) i ≡ some n) (some_inj e) there
grown-SameEnds realloc true a e i n there = elim (Option-cases (realloc a.base (a.capacity * 2))) [
  | inl full ↦ absurd (none_ne_some (rw full at e))
  | inr (p, got) ↦
      subst (λ (c : ProtectionFieldArray). get_elem? (ends c.lp_fields) i ≡ some n)
        (some_inj (rw got at e)) (rw (ends-map a.base p a.lp_fields) there)
]

pub append_field-SameEnds :
    (f : LpField) (a : ProtectionFieldArray) {b : ProtectionFieldArray}
    → append_field f a ≡ some b
    → SameEnds a b
unfolding append_field
append_field-SameEnds f a e i n there = elim (Bool-cases (ltb (length a.lp_fields) a.capacity)) [
  | inl fits ↦
      subst (λ (c : ProtectionFieldArray). get_elem? (ends c.lp_fields) i ≡ some n)
        (some_inj (rw fits at e)) (ends-append a.lp_fields f i there)
  | inr full ↦ absurd (none_ne_some (rw full at e))
]

pub grown-length :
    (realloc : ℕ → ℕ → Option ℕ) (test : Bool) (a : ProtectionFieldArray) {b : ProtectionFieldArray}
    → (if test then grow realloc a else some a) ≡ some b
    → length b.lp_fields ≡ length a.lp_fields
unfolding grow update_lp_field_array_pointers
grown-length realloc false a e =
    ap (λ (c : ProtectionFieldArray). length c.lp_fields) (sym (some_inj e))
grown-length realloc true a e = elim (Option-cases (realloc a.base (a.capacity * 2))) [
  | inl full ↦ absurd (none_ne_some (rw full at e))
  | inr (p, got) ↦
      ap (λ (c : ProtectionFieldArray). length c.lp_fields) (sym (some_inj (rw got at e)))
      ∙ length-map _ a.lp_fields
]

pub get_elem?-last :
    (fs : List LpField) (f : LpField) → get_elem? (fs ++ f ∷ []) (length fs) ≡ some f
get_elem?-last [] f = refl
get_elem?-last (g ∷ fs) f = get_elem?-last fs f

pub append_field-last :
    (f : LpField) (a : ProtectionFieldArray) {b : ProtectionFieldArray}
    → append_field f a ≡ some b
    → get_elem? b.lp_fields (length a.lp_fields) ≡ some f
unfolding append_field
append_field-last f a e = elim (Bool-cases (ltb (length a.lp_fields) a.capacity)) [
  | inl fits ↦
      subst (λ (c : ProtectionFieldArray). get_elem? c.lp_fields (length a.lp_fields) ≡ some f)
        (some_inj (rw fits at e)) (get_elem?-last a.lp_fields f)
  | inr full ↦ absurd (none_ne_some (rw full at e))
]
