-- ===== src/LockTracking/Fields/Copy.antt =====
-- Copying a field to open a new range keeps the property of `Closed`.
use prongc.Prelude.{
  ℕ, zero, suc, ◌<◌, ◌≡◌, ◌≢◌, refl, Bool, false, subst, ◌∙◌, sym, ap, inl, inr, Bool-cases,
  some_inj, bind_some, none_ne_some, Option, none, some, List, [], ◌∷◌, length, get_elem?,
  get_elem?-set_ne, arith, leb, ◌==◌, if◌then◌else◌,
}
use prongc.LockTracking.Fields.{
  size_max, pred64, FieldPtr, LpField, ProtectionFieldArray, deref, assign, ptr_at, append_field,
  grow, add_lock_protection_copy, copy_range, split_active, add_protection_range_fields_active,
  ended_here, reopen_inactive, add_protection_range_fields_inactive,
}
use prongc.LockTracking.Fields.Closed.{
  Closed, AllClosed, Keeps, assign-Keeps, >>=-Keeps, Keeps-some, grown-Keeps, append_field-Keeps,
  either-Keeps, for_each-Keeps,
}
use prongc.LockTracking.Fields.Ends.{
  ends-get, SameEnds, grown-SameEnds, append_field-SameEnds, grown-length, append_field-last,
}

-- What `add_lock_protection_copy` returns: an array with the property and with the ends as they were,
-- whose new last field has no successor, and the pointer to that field.
record Copied (a : ProtectionFieldArray) (b : ProtectionFieldArray) (new : FieldPtr) : Type 0 where
  closed : AllClosed b
  same : SameEnds a b
  last : new ≡ ptr_at b (length a.lp_fields)
  copy : LpField
  at_last : get_elem? b.lp_fields (length a.lp_fields) ≡ some copy
  free : copy.next_prot_range ≡ none

-- the same from the two steps of the call
appended-Copied :
    (realloc : ℕ → ℕ → Option ℕ) (test : Bool) (copy : LpField) (a c d : ProtectionFieldArray)
    → AllClosed a
    → (if test then grow realloc a else some a) ≡ some c
    → append_field copy c ≡ some d
    → copy.next_prot_range ≡ none
    → Copied a d (ptr_at d (length c.lp_fields))
appended-Copied realloc test copy a c d h grown put free =
    let size = grown-length realloc test a grown in
    let hc = Keeps-some _ grown (grown-Keeps realloc test a h) in
    record {
      closed = Keeps-some _ put (append_field-Keeps copy c (rw free) hc);
      same = λ i n at.
          append_field-SameEnds copy c put i n (grown-SameEnds realloc test a grown i n at);
      last = ap (ptr_at d) size;
      copy = copy;
      at_last =
          subst (λ k. get_elem? d.lp_fields k ≡ some copy) size (append_field-last copy c put);
      free = free;
    }

copy-Copied :
    (realloc : ℕ → ℕ → Option ℕ) (p : FieldPtr) (a b : ProtectionFieldArray) (new : FieldPtr)
    → AllClosed a
    → add_lock_protection_copy realloc p a ≡ some (b, new)
    → Copied a b new
unfolding add_lock_protection_copy
copy-Copied realloc p a b new h e =
    let (c, grown, e₁) =
      bind_some (if leb (pred64 a.capacity) (length a.lp_fields) then grow realloc a else some a) _
        e in
    let (f, there, e₂) = bind_some (deref c p) _ e₁ in
    let (d, put, e₃) =
      bind_some (append_field (record f { is_ll_start = false; next_prot_range = none }) c) _ e₂ in
    subst (λ (r : ProtectionFieldArray × FieldPtr). Copied a r.0 r.1) (some_inj e₃)
      (appended-Copied realloc _ _ a c d h grown put refl)

-- A write through one pointer leaves what is behind another index.
assign-ne :
    (b : ProtectionFieldArray) (p : FieldPtr) (j : ℕ) (f : LpField) {c : ProtectionFieldArray}
    → assign p f b ≡ some c
    → p.idx ≢ j
    → deref c (ptr_at b j) ≡ get_elem? b.lp_fields j
unfolding assign deref
assign-ne b p j f e other = ground (arith, get_elem?-set_ne b.lp_fields f other)

copy_range-Keeps :
    (realloc : ℕ → ℕ → Option ℕ) (start : ℕ) (mark : FieldPtr → LpField → LpField) (i : ℕ)
    (a : ProtectionFieldArray)
    → AllClosed a
    → i < length a.lp_fields
    → ((b : ProtectionFieldArray) (g : LpField) (new : FieldPtr)
        → SameEnds a b
        → deref b (ptr_at a i) ≡ some g
        → Closed (mark new g))
    → Keeps (copy_range realloc start mark i a)
unfolding copy_range
copy_range-Keeps realloc start mark i a h inside marked =
    >>=-Keeps (add_lock_protection_copy realloc (ptr_at a i) a) _ λ (b, new) copied.
      let made = copy-Copied realloc (ptr_at a i) a b new h copied in
      >>=-Keeps (deref b (ptr_at a i)) _ λ g there.
        >>=-Keeps (assign (ptr_at a i) (mark new g) b) _ λ c linked.
          let hc = Keeps-some _ linked (
            assign-Keeps (ptr_at a i) (mark new g) b made.closed
              (marked b g new made.same there)) in
          >>=-Keeps (deref c new) _ λ f found.
            let moved = assign-ne b (ptr_at a i) (length a.lp_fields) _ linked (omega arith) in
            let copy : made.copy ≡ f =
              some_inj (sym (moved ∙ made.at_last) ∙ (ap (deref c) (sym made.last) ∙ found)) in
            let free : f.next_prot_range ≡ none =
              ap (λ (x : LpField). x.next_prot_range) (sym copy) ∙ made.free in
            assign-Keeps new _ c hc (rw free)

lt_of_get : (fs : List LpField) (i : ℕ) {f : LpField} → get_elem? fs i ≡ some f → i < length fs
lt_of_get [] i e = absurd (none_ne_some e)
lt_of_get (g ∷ fs) zero e = omega arith
lt_of_get (g ∷ fs) (suc i) e = omega (arith, lt_of_get fs i e)

deref-end :
    (a b : ProtectionFieldArray) (i : ℕ) {f g : LpField}
    → SameEnds a b
    → get_elem? a.lp_fields i ≡ some f
    → deref b (ptr_at a i) ≡ some g
    → g.protection_range_end ≡ f.protection_range_end
unfolding deref
deref-end a b i {f} {g} same e there = elim (Bool-cases (a.base == b.base)) [
  | inl here ↦ some_inj (
      sym (ends-get b.lp_fields i (rw here at there))
      ∙ same i f.protection_range_end (ends-get a.lp_fields i e))
  | inr stale ↦ absurd (none_ne_some (rw stale at there))
]

module _ (realloc : ℕ → ℕ → Option ℕ) (start depth : ℕ) where
  split-Keeps :
      start < size_max
      → (i : ℕ) (a : ProtectionFieldArray) → AllClosed a
      → Keeps (split_active realloc start depth i a)
  unfolding split_active
  split-Keeps small i a h = >>=-Keeps (get_elem? a.lp_fields i) _ λ f e.
      either-Keeps _ _ a
        (copy_range-Keeps realloc start _ i a h (lt_of_get a.lp_fields i e)
          λ b g new same there. ground arith)
        h

  reopen-Keeps :
      (i : ℕ) (a : ProtectionFieldArray)
      → AllClosed a
      → Keeps (reopen_inactive realloc start depth i a)
  unfolding reopen_inactive
  reopen-Keeps i a h = >>=-Keeps (get_elem? a.lp_fields i) _ λ f e.
      elim (Bool-cases (ended_here depth f)) [
        | inl ended ↦ rw ended (
            copy_range-Keeps realloc start _ i a h (lt_of_get a.lp_fields i e)
              λ b g new same there. ground (arith, deref-end a b i same e there, ended))
        | inr other ↦ rw other h
      ]

  pub active-Keeps :
      (a : ProtectionFieldArray)
      → start < size_max
      → AllClosed a
      → Keeps (add_protection_range_fields_active realloc start depth a)
  unfolding add_protection_range_fields_active
  active-Keeps a small h =
      for_each-Keeps (split_active realloc start depth) (split-Keeps small) (length a.lp_fields) 0 a
        h

  pub inactive-Keeps :
      (a : ProtectionFieldArray)
      → AllClosed a
      → Keeps (add_protection_range_fields_inactive realloc start depth a)
  unfolding add_protection_range_fields_inactive
  inactive-Keeps a h =
      for_each-Keeps (reopen_inactive realloc start depth) reopen-Keeps (length a.lp_fields) 0 a h
