-- ===== src/LockTracking/Fields/Closed.antt =====
-- A field with a successor in its linked list is never open.
use prongc.Prelude.{
  ℕ, zero, suc, ◌+◌, ◌≡◌, refl, Bool, true, false, not, ◌||◌, subst, ◌∙◌, sym, ap, inl, inr,
  Bool-cases, Option-cases, some_inj, none_ne_some, ◌*◌, Option, none, some, List, [], ◌∷◌, map,
  length, get_elem?, set, All, All-append, Str, arith, leb, ◌==◌, if◌then◌else◌, ◌>>=◌,
}
use prongc.LockTracking.Pairs.{LockPrimitivePair, lock_tracking_gen_hash}
use prongc.LockTracking.Fields.{
  size_max, FieldPtr, LpField, ProtectionFieldArray, is_null, init_lp_field, move_ptr, deref,
  assign, ptr_at, append_field, grow, add_lock_protection_field, get_lp_field_linked_list_end,
  end_list, end_one, for_each, set_protection_range_end,
}

-- The range of a field with a successor has an end.
abbrev pub Closed : LpField → Type 0
Closed f = (is_null f.next_prot_range || not (f.protection_range_end == size_max)) ≡ true

abbrev pub AllClosed : ProtectionFieldArray → Type 0
AllClosed a = All Closed a.lp_fields

-- Every array that a call returns has the property.
abbrev pub Keeps : Option ProtectionFieldArray → Type 0
Keeps none = Unit {0}
Keeps (some b) = AllClosed b

All-set :
    (P : LpField → Type 0) (fs : List LpField) (i : ℕ) (f : LpField)
    → All P fs
    → P f
    → All P (set fs i f)
All-set P [] i f h p = tt
All-set P (g ∷ fs) zero f h p = (p, h.1)
All-set P (g ∷ fs) (suc i) f h p = (h.0, All-set P fs i f h.1 p)

pub All-get :
    (P : LpField → Type 0) (fs : List LpField) (i : ℕ) {f : LpField}
    → All P fs
    → get_elem? fs i ≡ some f
    → P f
All-get P [] i h e = absurd (cc)
All-get P (g ∷ fs) zero h e = subst P (some_inj e) h.0
All-get P (g ∷ fs) (suc i) h e = All-get P fs i h.1 e

pub assign-Keeps :
    (p : FieldPtr) (f : LpField) (a : ProtectionFieldArray)
    → AllClosed a
    → Closed f
    → Keeps (assign p f a)
unfolding assign
assign-Keeps p f a h c = ground (arith, All-set Closed a.lp_fields p.idx f h c)

-- A call whose first part keeps the property and whose second part does.
pub >>=-Keeps :
    {A : Type 0} (r : Option A) (k : A → Option ProtectionFieldArray)
    → ((a : A) → r ≡ some a → Keeps (k a))
    → Keeps (r >>= k)
>>=-Keeps none k hk = tt
>>=-Keeps (some a) k hk = hk a refl

pub Keeps-some :
    (r : Option ProtectionFieldArray) {a : ProtectionFieldArray}
    → r ≡ some a
    → Keeps r
    → AllClosed a
Keeps-some r e h = rw e at h

map-AllClosed :
    (old new : ℕ) (fs : List LpField)
    → All Closed fs
    → All Closed (
        map (λ (f : LpField). record f { next_prot_range = move_ptr old new f.next_prot_range }) fs)
map-AllClosed old new [] h = tt
map-AllClosed old new (f ∷ fs) h = (ground (arith, h.0), map-AllClosed old new fs h.1)

grow-Keeps :
    (realloc : ℕ → ℕ → Option ℕ) (a : ProtectionFieldArray) → AllClosed a → Keeps (grow realloc a)
unfolding grow
grow-Keeps realloc a h =
    >>=-Keeps (realloc a.base (a.capacity * 2)) _ λ p got. map-AllClosed a.base p a.lp_fields h

pub append_field-Keeps :
    (f : LpField) (a : ProtectionFieldArray) → Closed f → AllClosed a → Keeps (append_field f a)
unfolding append_field
append_field-Keeps f a c h = ground (arith, All-append Closed a.lp_fields (f ∷ []) h (c, tt))

pub deref-Closed :
    (a : ProtectionFieldArray) (p : FieldPtr) {f : LpField}
    → AllClosed a
    → deref a p ≡ some f
    → Closed f
unfolding deref
deref-Closed a p h e = elim (Bool-cases (p.base == a.base)) [
  | inl same ↦ All-get Closed a.lp_fields p.idx h (rw same at e)
  | inr stale ↦ absurd (none_ne_some (rw stale at e))
]

pub either-Keeps :
    (test : Bool) (r : Option ProtectionFieldArray) (a : ProtectionFieldArray)
    → Keeps r
    → AllClosed a
    → Keeps (if test then r else some a)
either-Keeps true r a hr h = hr
either-Keeps false r a hr h = h

-- Growing only when a test asks for it.
pub grown-Keeps :
    (realloc : ℕ → ℕ → Option ℕ) (test : Bool) (a : ProtectionFieldArray)
    → AllClosed a
    → Keeps (if test then grow realloc a else some a)
grown-Keeps realloc test a h = either-Keeps test (grow realloc a) a (grow-Keeps realloc a h) h

init-Closed :
    (pair : LockPrimitivePair) (va : ℕ) (usr : Option Str) (start : ℕ) {f : LpField}
    → init_lp_field pair va usr start ≡ some f
    → Closed f
unfolding init_lp_field
init-Closed pair va usr start e = ground arith

pub add-Keeps :
    (realloc : ℕ → ℕ → Option ℕ) (pair : LockPrimitivePair) (va : ℕ) (usr : Option Str) (start : ℕ)
    (a : ProtectionFieldArray)
    → AllClosed a
    → Keeps (add_lock_protection_field realloc pair va usr start a)
unfolding add_lock_protection_field
add-Keeps realloc pair va usr start a h =
    >>=-Keeps (if leb a.capacity (length a.lp_fields) then grow realloc a else some a) _ λ b grown.
      >>=-Keeps (init_lp_field pair va usr start) _ λ f made.
        append_field-Keeps f b (init-Closed pair va usr start made)
          (Keeps-some _ grown (grown-Keeps realloc _ a h))

-- The end of a linked list has no successor.
list_end-next :
    (fuel : ℕ) (a : ProtectionFieldArray) (p : FieldPtr) {q : FieldPtr} {t : LpField}
    → get_lp_field_linked_list_end fuel a p ≡ some q
    → deref a q ≡ some t
    → t.next_prot_range ≡ none
unfolding get_lp_field_linked_list_end
list_end-next zero a p e d = absurd (none_ne_some e)
list_end-next (suc fuel) a p {q} {t} e d = elim (Option-cases (deref a p)) [
  | inl missing ↦ absurd (none_ne_some (rw missing at e))
  | inr (f, here) ↦ elim (Option-cases f.next_prot_range) [
    | inl last ↦
        let same : p ≡ q = some_inj (rw (here, last) at e) in
        let both : f ≡ t = some_inj (sym here ∙ (ap (deref a) same ∙ d)) in
        ap (λ (g : LpField). g.next_prot_range) (sym both) ∙ last
    | inr (q', more) ↦ list_end-next fuel a q' (rw (here, more) at e) d
  ]
]

end_list-Keeps :
    (prot_range_end i : ℕ) (a : ProtectionFieldArray)
    → AllClosed a
    → Keeps (end_list prot_range_end i a)
unfolding end_list
end_list-Keeps prot_range_end i a h =
    >>=-Keeps (get_lp_field_linked_list_end (length a.lp_fields) a (ptr_at a i)) _ λ tail found.
      >>=-Keeps (deref a tail) _ λ t there.
        let last = list_end-next (length a.lp_fields) a (ptr_at a i) found there in
        assign-Keeps tail _ a h (rw last)

pub for_each-Keeps :
    (body : ℕ → ProtectionFieldArray → Option ProtectionFieldArray)
    → ((i : ℕ) (a : ProtectionFieldArray) → AllClosed a → Keeps (body i a))
    → (rounds i : ℕ) (a : ProtectionFieldArray) → AllClosed a
    → Keeps (for_each body rounds i a)
unfolding for_each
for_each-Keeps body keep zero i a h = h
for_each-Keeps body keep (suc rounds) i a h =
    >>=-Keeps (body i a) _
      λ b e. for_each-Keeps body keep rounds (i + 1) b (Keeps-some (body i a) e (keep i a h))

end_one-Keeps :
    (hash prot_range_end i : ℕ) (a : ProtectionFieldArray)
    → AllClosed a
    → Keeps (end_one hash prot_range_end i a)
unfolding end_one
end_one-Keeps hash prot_range_end i a h =
    >>=-Keeps (get_elem? a.lp_fields i) _
      λ f e. either-Keeps _ (end_list prot_range_end i a) a (end_list-Keeps prot_range_end i a h) h

pub set_end-Keeps :
    (usr : Option Str) (prot_range_end : ℕ) (a : ProtectionFieldArray)
    → AllClosed a
    → Keeps (set_protection_range_end usr prot_range_end a)
unfolding set_protection_range_end
set_end-Keeps usr prot_range_end a h = >>=-Keeps usr _ λ s e.
    for_each-Keeps (end_one (lock_tracking_gen_hash s) prot_range_end)
      (end_one-Keeps (lock_tracking_gen_hash s) prot_range_end) (length a.lp_fields) 0 a h
