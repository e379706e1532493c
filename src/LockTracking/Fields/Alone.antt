-- ===== src/LockTracking/Fields/Alone.antt =====
-- The fields where no branch was met: each stands alone, without a linked list behind it.
use prongc.Prelude.{
  ℕ, suc, ◌+◌, ◌*◌, ◌<◌, ◌≤◌, ◌≡◌, refl, sym, ap, ◌∙◌, inl, inr, true, Bool-cases, ◌&&◌, Option,
  none, some, List, [], ◌∷◌, ◌++◌, map, length, length-append, length-map, get_elem?, set, All,
  All-append, append_assoc, Str, arith, ltb, leb, ◌==◌, if◌then◌else◌,
}
use prongc.LockTracking.Pairs.{LockPrimitivePair, lock_tracking_gen_hash}
use prongc.LockTracking.Fields.{
  size_max, LpField, ProtectionFieldArray, init_lp_field, move_ptr, deref, assign, ptr_at,
  append_field, grow, update_lp_field_array_pointers, add_lock_protection_field,
  get_lp_field_linked_list_end, end_list, end_one, for_each, set_protection_range_end,
}

abbrev pub Alone : LpField → Type 0
Alone f = (f.next_prot_range ≡ none) × (f.is_ll_start ≡ true) × (f.branch_depth ≡ 0)

abbrev pub Flat : ProtectionFieldArray → Type 0
Flat a = All Alone a.lp_fields × (length a.lp_fields ≤ a.capacity) × (0 < a.capacity)

-- The release of a lock: the range ends of each of its fields that is open.
abbrev pub close : ℕ → ℕ → LpField → LpField
close lock_obj_hash prot_range_end f =
    if (f.protection_range_end == size_max) && (f.lock_obj_hash == lock_obj_hash)
    then record f { protection_range_end = prot_range_end }
    else f

close-Alone : (h e : ℕ) (f : LpField) → Alone f → Alone (close h e f)
close-Alone h e f a = ground arith

pub close-All : (h e : ℕ) (fs : List LpField) → All Alone fs → All Alone (map (close h e) fs)
close-All h e [] a = tt
close-All h e (f ∷ fs) a = (close-Alone h e f a.0, close-All h e fs a.1)

moved-same :
    (old new : ℕ) (f : LpField)
    → f.next_prot_range ≡ none
    → record f { next_prot_range = move_ptr old new f.next_prot_range } ≡ f
moved-same old new f e =
    ap (λ n. record f { next_prot_range = move_ptr old new n }) e
    ∙ ap (λ n. record f { next_prot_range = n }) (sym e)

moved-All :
    (old new : ℕ) (fs : List LpField)
    → All Alone fs
    → map (λ (f : LpField). record f { next_prot_range = move_ptr old new f.next_prot_range }) fs
      ≡ fs
moved-All old new [] h = refl
moved-All old new (f ∷ fs) h = rw (moved-same old new f h.0.0, moved-All old new fs h.1) refl

-- A field that was just added for the lock at `i`.
abbrev pub Opened : ℕ → ℕ → LpField → Type 0
Opened i h f =
    Alone f
    × (f.protection_range_start ≡ i)
    × (f.protection_range_end ≡ size_max)
    × (f.lock_obj_hash ≡ h)

init-Opened :
    (pair : LockPrimitivePair) (l u usr : Str) (i : ℕ)
    → pair.lock_func ≡ some l
    → pair.unlock_func ≡ some u
    → (f : LpField) × (init_lp_field pair i (some usr) i ≡ some f)
      × Opened i (lock_tracking_gen_hash usr) f
unfolding init_lp_field
init-Opened pair l u usr i el eu = (
  record {
    lock_va = i;
    next_prot_range = none;
    branch_depth = 0;
    protection_range_start = i;
    protection_range_end = size_max;
    lock_obj_hash = lock_tracking_gen_hash usr;
    lock_func_hash = lock_tracking_gen_hash l;
    unlock_func_hash = lock_tracking_gen_hash u;
    is_ll_start = true;
  },
  rw (el, eu) refl,
  ((refl, refl, refl), refl, refl, refl),
)

module _ (realloc : ℕ → ℕ → Option ℕ)
    (has_room : (old cap : ℕ) → (new : ℕ) × (realloc old cap ≡ some new)) where
  grown-Flat :
      (a : ProtectionFieldArray)
      → Flat a
      → (b : ProtectionFieldArray) × ((if leb a.capacity (length a.lp_fields)
            then grow realloc a
            else some a)
          ≡ some b)
        × (b.lp_fields ≡ a.lp_fields)
        × (length a.lp_fields < b.capacity)
  unfolding grow update_lp_field_array_pointers
  grown-Flat a (h, l, p) = elim (Bool-cases (leb a.capacity (length a.lp_fields))) [
    | inr room ↦ (a, rw room refl, refl, ground arith)
    | inl full ↦
        let (new, e) = has_room a.base (a.capacity * 2) in
        (
          record a { base = new; capacity = a.capacity * 2; lp_fields = _ },
          rw (full, e) refl,
          moved-All a.base new a.lp_fields h,
          omega (arith, l, p),
        )
  ]

  pub add-Flat :
      (pair : LockPrimitivePair) (l u usr : Str) (i : ℕ) (a : ProtectionFieldArray)
      → pair.lock_func ≡ some l
      → pair.unlock_func ≡ some u
      → Flat a
      → (b : ProtectionFieldArray) × (add_lock_protection_field realloc pair i (some usr) i a
          ≡ some b)
        × Flat b
        × (f : LpField) × (b.lp_fields ≡ a.lp_fields ++ f ∷ [])
        × Opened i (lock_tracking_gen_hash usr) f
  unfolding add_lock_protection_field append_field
  add-Flat pair l u usr i a el eu flat =
      let (b, e, same, room) = grown-Flat a flat in
      let (f, e', o) = init-Opened pair l u usr i el eu in
      let fits : ltb (length b.lp_fields) b.capacity ≡ true = rw same (ground arith) in
      (
        record b { lp_fields = b.lp_fields ++ f ∷ [] },
        rw (e, e', fits) refl,
        (
          rw same (All-append Alone a.lp_fields (f ∷ []) flat.0 (o.0, tt)),
          rw same (omega (arith, length-append a.lp_fields (f ∷ []), room)),
          omega (arith, room),
        ),
        f,
        rw same refl,
        o,
      )

at_end : (fs gs : List LpField) (f : LpField) → get_elem? (fs ++ f ∷ gs) (length fs) ≡ some f
at_end [] gs f = refl
at_end (x ∷ fs) gs f = at_end fs gs f

set_at_end :
    (fs gs : List LpField) (f g : LpField) → set (fs ++ f ∷ gs) (length fs) g ≡ fs ++ g ∷ gs
set_at_end [] gs f g = refl
set_at_end (x ∷ fs) gs f g = ap (◌∷◌ x) (set_at_end fs gs f g)

length_at :
    (fs gs : List LpField) (f : LpField) → length (fs ++ f ∷ gs) ≡ suc (length fs + length gs)
length_at fs gs f = omega (arith, length-append fs (f ∷ gs))

module _ (a : ProtectionFieldArray) (i : ℕ) (f : LpField)
    (here : get_elem? a.lp_fields i ≡ some f) where
  deref-at : deref a (ptr_at a i) ≡ some f
  unfolding deref
  deref-at = rw (here) (ground arith)

  list_end-at :
      (n : ℕ)
      → f.next_prot_range ≡ none
      → get_lp_field_linked_list_end (suc n) a (ptr_at a i) ≡ some (ptr_at a i)
  unfolding get_lp_field_linked_list_end
  list_end-at n e = rw (deref-at, e) refl

  assign-at :
      (g : LpField)
      → i < length a.lp_fields
      → assign (ptr_at a i) g a ≡ some (record a { lp_fields = set a.lp_fields i g })
  unfolding assign
  assign-at g l = ground arith

  end_list-at :
      (e n : ℕ)
      → f.next_prot_range ≡ none
      → length a.lp_fields ≡ suc n
      → i < length a.lp_fields
      → end_list e i a
        ≡ some (record a { lp_fields = set a.lp_fields i (record f { protection_range_end = e }) })
  unfolding end_list
  end_list-at e n last size l =
      rw (size, list_end-at n last, deref-at, assign-at (record f { protection_range_end = e }) l)
        refl

abbrev with_fields : ProtectionFieldArray → List LpField → ProtectionFieldArray
with_fields a fs = record a { lp_fields = fs }

end_one-close :
    (h e : ℕ) (a : ProtectionFieldArray) (fs gs : List LpField) (f : LpField)
    → Alone f
    → end_one h e (length fs) (with_fields a (fs ++ f ∷ gs))
      ≡ some (with_fields a (fs ++ close h e f ∷ gs))
unfolding end_one
end_one-close h e a fs gs f alone =
    elim (Bool-cases ((f.protection_range_end == size_max) && (f.lock_obj_hash == h))) [
      | inr other ↦ rw (at_end fs gs f, other) refl
      | inl hit ↦
          rw (at_end fs gs f, hit)
            (end_list-at (with_fields a (fs ++ f ∷ gs)) (length fs) f (at_end fs gs f) e
                (length fs + length gs) alone.0 (length_at fs gs f)
                (omega (arith, length_at fs gs f))
              ∙ rw (set_at_end fs gs f (record f { protection_range_end = e })) refl)
    ]

close_from :
    (h e : ℕ) (a : ProtectionFieldArray) (fs gs : List LpField)
    → All Alone gs
    → for_each (end_one h e) (length gs) (length fs) (with_fields a (fs ++ gs))
      ≡ some (with_fields a (fs ++ map (close h e) gs))
unfolding for_each
close_from h e a fs [] k = refl
close_from h e a fs (f ∷ gs) k =
    let c : LpField = close h e f in
    rw (end_one-close h e a fs gs f k.0, ← append_assoc fs (c ∷ []) gs)
      ((rw (length-append fs (c ∷ [])) at (close_from h e a (fs ++ c ∷ []) gs k.1))
        ∙ ap (λ l. some (with_fields a l)) (append_assoc fs (c ∷ []) (map (close h e) gs)))

pub set_end-Flat :
    (usr : Str) (e : ℕ) (a : ProtectionFieldArray)
    → Flat a
    → (b : ProtectionFieldArray) × (set_protection_range_end (some usr) e a ≡ some b)
      × Flat b
      × (b.lp_fields ≡ map (close (lock_tracking_gen_hash usr) e) a.lp_fields)
unfolding set_protection_range_end
set_end-Flat usr e a (h, l, p) = (
  with_fields a (map (close (lock_tracking_gen_hash usr) e) a.lp_fields),
  close_from (lock_tracking_gen_hash usr) e a [] a.lp_fields h,
  (
    close-All (lock_tracking_gen_hash usr) e a.lp_fields h,
    rw (length-map (close (lock_tracking_gen_hash usr) e) a.lp_fields) l,
    p,
  ),
  refl,
)
