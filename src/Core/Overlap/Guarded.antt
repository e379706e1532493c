-- ===== src/Core/Overlap/Guarded.antt =====
-- The comparison of the fields that protect two accesses, where each field stands alone.
use prongc.Prelude.{
  ℕ, suc, ◌≤◌, ◌≡◌, refl, ap, inl, inr, Bool, true, false, Bool-cases, ◌&&◌, ◌||◌, none, some, List,
  [], ◌∷◌, ◌++◌, length, All, arith, leb, ◌==◌, if◌then◌else◌,
}
use prongc.LockTracking.Fields.{LpField, ProtectionFieldArray}
use prongc.LockTracking.Fields.Alone.{Alone}
use prongc.LockTracking.Ranges.{
  protected, unprotected, in_range, lp_cond_prot, collect_list, collect_all, get_lp_fields_in_range,
  look_for, match_all, match_lists, matching_protection_field_arrays, contains, lacks,
}
use prongc.Core.Annotate.Held.{protects, guards}

abbrev member : ℕ → List ℕ → Bool
member h [] = false
member h (x ∷ xs) = h == x || member h xs

abbrev all_in : List ℕ → List ℕ → Bool
all_in [] ys = true
all_in (x ∷ xs) ys = member x ys && all_in xs ys

-- As many locks on both sides, and each of the first among the second.
abbrev pub same_locks : List ℕ → List ℕ → Bool
same_locks xs ys = length xs == length ys && all_in xs ys

abbrev picked : ℕ → List LpField → List LpField
picked k [] = []
picked k (f ∷ fs) = if protects k f then f ∷ picked k fs else picked k fs

abbrev hashes : List LpField → List ℕ
hashes [] = []
hashes (f ∷ fs) = f.lock_obj_hash ∷ hashes fs

in_range-protects : (k : ℕ) (f : LpField) → Alone f → in_range k f ≡ protects k f
unfolding in_range lp_cond_prot
in_range-protects k f h = rw (h.0) (ground arith)

collect_list-Alone :
    (n : ℕ) (a : ProtectionFieldArray) (k : ℕ) (f : LpField)
    → Alone f
    → collect_list (suc n) a k f ≡ some (if protects k f then f ∷ [] else [])
unfolding collect_list
collect_list-Alone n a k f h =
    let next : f.next_prot_range ≡ none = h.0 in rw (in_range-protects k f h) (simp (next))

collect_all-Alone :
    (n : ℕ) (a : ProtectionFieldArray) (k : ℕ) (fs : List LpField)
    → length a.lp_fields ≡ suc n
    → All Alone fs
    → collect_all a k fs ≡ some (picked k fs)
unfolding collect_all
collect_all-Alone n a k [] l h = refl
collect_all-Alone n a k (f ∷ fs) l h =
    let start : f.is_ll_start ≡ true = h.0.1 in
    simp (start, l, collect_list-Alone n a k f h.0, collect_all-Alone n a k fs l h.1)
      (pick (protects k f))
  where
    pick :
        (b : Bool)
        → some ((if b then f ∷ [] else []) ++ picked k fs)
          ≡ some (if b then f ∷ picked k fs else picked k fs)
    pick true = refl
    pick false = refl

length-picked : (k : ℕ) (fs : List LpField) → length (picked k fs) ≤ length fs
length-picked k [] = omega arith
length-picked k (f ∷ fs) = ground (arith, length-picked k fs)

picked-Alone : (k : ℕ) (fs : List LpField) → All Alone fs → All Alone (picked k fs)
picked-Alone k [] h = tt
picked-Alone k (f ∷ fs) h = elim (Bool-cases (protects k f)) [
  | inl e ↦ rw e (h.0, picked-Alone k fs h.1)
  | inr e ↦ rw e (picked-Alone k fs h.1)
]

hashes-picked : (k : ℕ) (fs : List LpField) → hashes (picked k fs) ≡ guards k fs
hashes-picked k [] = refl
hashes-picked k (f ∷ fs) = ground (arith, hashes-picked k fs)

collected :
    (a : ProtectionFieldArray) (k : ℕ) (fs : List LpField)
    → a.lp_fields ≡ fs
    → All Alone fs
    → collect_all a k fs ≡ some (picked k fs)
unfolding collect_all
collected a k [] e h = refl
collected a k (f ∷ fs) e h = collect_all-Alone (length fs) a k (f ∷ fs) (ap length e) h

in_range-picked :
    (a : ProtectionFieldArray) (k : ℕ)
    → All Alone a.lp_fields
    → get_lp_fields_in_range a k ≡ some (picked k a.lp_fields)
unfolding get_lp_fields_in_range
in_range-picked a k h =
    let fits : leb (length (picked k a.lp_fields)) (length a.lp_fields) ≡ true =
      ground (arith, length-picked k a.lp_fields) in
    rw (collected a k a.lp_fields refl h, fits) refl

look_for-member :
    (f : LpField) (gs : List LpField)
    → All Alone gs
    → look_for f gs ≡ (if member f.lock_obj_hash (hashes gs) then contains else lacks)
unfolding look_for
look_for-member f [] h = refl
look_for-member f (g ∷ gs) h = rw (h.0.2) (ground (arith, look_for-member f gs h.1))

match_all-same :
    (fs gs : List LpField)
    → All Alone gs
    → match_all fs gs ≡ (if all_in (hashes fs) (hashes gs) then protected else unprotected)
unfolding match_all
match_all-same [] gs h = refl
match_all-same (f ∷ fs) gs h = ground (arith, look_for-member f gs h, match_all-same fs gs h)

length-hashes : (fs : List LpField) → length (hashes fs) ≡ length fs
length-hashes [] = refl
length-hashes (f ∷ fs) = ap suc (length-hashes fs)

match_lists-same :
    (fs gs : List LpField)
    → All Alone gs
    → match_lists fs gs ≡ (if same_locks (hashes fs) (hashes gs) then protected else unprotected)
unfolding match_lists
match_lists-same fs gs h =
    rw (match_all-same fs gs h, length-hashes fs, length-hashes gs) (ground arith)

-- For arrays whose fields stand alone, the comparison of two accesses is that of the locks in whose
-- ranges they are.
pub matching-same :
    (a b : ProtectionFieldArray) (i j : ℕ)
    → All Alone a.lp_fields
    → All Alone b.lp_fields
    → matching_protection_field_arrays a b i j
      ≡ some (
          if same_locks (guards i a.lp_fields) (guards j b.lp_fields)
          then protected
          else unprotected)
unfolding matching_protection_field_arrays
matching-same a b i j h k =
    rw
      (
        in_range-picked a i h,
        in_range-picked b j k,
        match_lists-same (picked i a.lp_fields) (picked j b.lp_fields)
            (picked-Alone j b.lp_fields k),
        hashes-picked i a.lp_fields,
        hashes-picked j b.lp_fields,
      )
      refl
