-- ===== src/Core/Annotate/Held.antt =====
-- The fields that protect an access of a footprint without branches are the locks that are held there.
use prongc.Prelude.{
  ℕ, ◌+◌, ◌<◌, ◌≤◌, ◌≡◌, refl, ◌∙◌, Bool, true, false, ◌&&◌, ◌||◌, List, [], ◌∷◌, ◌++◌, map, All,
  All-append, arith, ltb, ◌==◌, if◌then◌else◌,
}
use prongc.LockTracking.Fields.{size_max, LpField}
use prongc.LockTracking.Fields.Alone.{close}
use prongc.Core.Annotate.Straight.{
  LockMove, takes, gives, neither, without, released, moved, Stepped,
}

abbrev pub protects : ℕ → LpField → Bool
protects k f = ltb f.protection_range_start k && ltb k f.protection_range_end

-- the locks of the fields whose range has the access `k`
abbrev pub guards : ℕ → List LpField → List ℕ
guards k [] = []
guards k (f ∷ fs) = if protects k f then f.lock_obj_hash ∷ guards k fs else guards k fs

-- the locks of the fields that have no end yet
abbrev pub opens : List LpField → List ℕ
opens [] = []
opens (f ∷ fs) = if f.protection_range_end == size_max then f.lock_obj_hash ∷ opens fs else opens fs

-- The loop is in front of the access `i`.
abbrev pub Before : ℕ → LpField → Type 0
Before i f =
    (f.protection_range_start < i)
    × ((f.protection_range_end == size_max || ltb f.protection_range_end i) ≡ true)

guards-skip :
    (k : ℕ) (fs : List LpField) (f : LpField)
    → protects k f ≡ false
    → guards k (fs ++ f ∷ []) ≡ guards k fs
guards-skip k [] f e = rw e refl
guards-skip k (g ∷ fs) f e = rw (guards-skip k fs f e) refl

guards-close :
    (k h j : ℕ) (fs : List LpField)
    → k < j
    → k < size_max
    → guards k (map (close h j) fs) ≡ guards k fs
guards-close k h j [] l m = refl
guards-close k h j (f ∷ fs) l m = ground (arith, guards-close k h j fs l m)

pub late :
    (m : LockMove) (k j : ℕ) (fs gs : List LpField)
    → Stepped m j fs gs
    → k < j
    → k < size_max
    → guards k gs ≡ guards k fs
late (takes h) k j fs gs (f, e, o) l n = rw e (guards-skip k fs f (ground arith))
late (gives h) k j fs gs e l n = rw e (guards-close k h j fs l n)
late neither k j fs gs e l n = rw e refl

pub guards-opens :
    (i k : ℕ) (fs : List LpField)
    → All (Before i) fs
    → i ≤ k
    → k < size_max
    → guards k fs ≡ opens fs
guards-opens i k [] b l n = refl
guards-opens i k (f ∷ fs) b l n = ground (arith, guards-opens i k fs b.1 l n)

guards-gives :
    (h k : ℕ) (fs : List LpField)
    → All (Before k) fs
    → k < size_max
    → guards k (map (close h k) fs) ≡ without h (opens fs)
guards-gives h k [] b n = refl
guards-gives h k (f ∷ fs) b n = ground (arith, guards-gives h k fs b.1 n)

pub at_access :
    (m : LockMove) (k : ℕ) (fs gs : List LpField)
    → All (Before k) fs
    → Stepped m k fs gs
    → k < size_max
    → guards k gs ≡ released m (opens fs)
at_access (takes h) k fs gs b (f, e, o) n =
    rw e (guards-skip k fs f (ground arith) ∙ guards-opens k k fs b (omega arith) n)
at_access (gives h) k fs gs b e n = rw e (guards-gives h k fs b n)
at_access neither k fs gs b e n = rw e (guards-opens k k fs b (omega arith) n)

opens-last :
    (fs : List LpField) (f : LpField)
    → f.protection_range_end ≡ size_max
    → opens (fs ++ f ∷ []) ≡ opens fs ++ f.lock_obj_hash ∷ []
opens-last [] f e = rw e refl
opens-last (g ∷ fs) f e = ground (arith, opens-last fs f e)

opens-close :
    (h i : ℕ) (fs : List LpField) → i < size_max → opens (map (close h i) fs) ≡ without h (opens fs)
opens-close h i [] n = refl
opens-close h i (f ∷ fs) n = ground (arith, opens-close h i fs n)

pub opened :
    (m : LockMove) (i : ℕ) (fs gs : List LpField)
    → Stepped m i fs gs
    → i < size_max
    → opens gs ≡ moved m (opens fs)
opened (takes h) i fs gs (f, e, o) n = rw e (opens-last fs f o.2 ∙ rw (o.3) refl)
opened (gives h) i fs gs e n = rw e (opens-close h i fs n)
opened neither i fs gs e n = rw e refl

Before-later : (i : ℕ) (fs : List LpField) → All (Before i) fs → All (Before (i + 1)) fs
Before-later i [] b = tt
Before-later i (f ∷ fs) b = (ground arith, Before-later i fs b.1)

Before-close :
    (h i : ℕ) (fs : List LpField) → All (Before i) fs → All (Before (i + 1)) (map (close h i) fs)
Before-close h i [] b = tt
Before-close h i (f ∷ fs) b = (ground arith, Before-close h i fs b.1)

pub Stepped-Before :
    (m : LockMove) (i : ℕ) (fs gs : List LpField)
    → Stepped m i fs gs
    → All (Before i) fs
    → All (Before (i + 1)) gs
Stepped-Before (takes h) i fs gs (f, e, o) b =
    rw e (All-append (Before (i + 1)) fs (f ∷ []) (Before-later i fs b) (ground arith, tt))
Stepped-Before (gives h) i fs gs e b = rw e (Before-close h i fs b)
Stepped-Before neither i fs gs e b = rw e (Before-later i fs b)
