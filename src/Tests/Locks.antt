-- ===== src/Tests/Locks.antt =====
-- Functions that take a lock around an access and access another variable without it.
use prongc.Prelude.{
  ℕ, ◌≡◌, refl, false, Option, none, some, List, [], ◌∷◌, length, All, Str, codes, str_eq, arith,
  ◌==◌, ◌&&◌,
}
use prongc.VarAccess.{
  VarAccess, VarAccessType, strcmp_eq, read, write, lock_acquire, lock_release,
  va_is_placeholder_type,
}
use prongc.LockTracking.Pairs.{
  get_pair_by_lock_func, find_by_lock, default_lock_pairs, lock_tracking_gen_hash,
}
use prongc.Core.Annotate.Straight.{Straight, held}
use prongc.Core.Overlap.{Report, Scan, scan_all, find_unprotected_va}
use prongc.Core.Overlap.Sound.{Named}
use prongc.Core.Overlap.Outer.{ScanDone}
use prongc.Core.Overlap.Unguarded.{held_judge, unprotected-held, unprotected-Done, unlocked-missed}
use prongc.Main.{Finding, Footprints, compare_all}
use prongc.Main.Lessened.{Lessened}
use prongc.Main.Accounts.{Accounted}
use prongc.Main.Locked.{Comparable, compare_all-locked}

abbrev access : Str → Option Str → VarAccessType → VarAccess
access usr callee type = record {
  usr = some usr;
  name = none;
  parent_func_name = some (codes "f");
  esc_func_spelling = callee;
  esc_func_usr = none;
  esc_param_idx = 0;
  line = 1;
  column = 1;
  type = type;
  is_ptr_type = false;
}

-- the lock, `g` under the lock, and `h` without it
abbrev locking : VarAccessType → List VarAccess
locking t =
    access (codes "l") (some (codes "mutex_lock")) lock_acquire
    ∷ access (codes "g") none t
    ∷ access (codes "l") (some (codes "mutex_unlock")) lock_release
    ∷ access (codes "h") none t
    ∷ []

abbrev vas_a : List VarAccess
vas_a = locking write

abbrev vas_b : List VarAccess
vas_b = locking read

abbrev in_place : ℕ → ℕ → Option ℕ
in_place old cap = some old

a-Straight : All (Straight default_lock_pairs) vas_a
unfolding get_pair_by_lock_func find_by_lock default_lock_pairs strcmp_eq str_eq
a-Straight = (refl, (refl, (refl, (refl, tt))))

b-Straight : All (Straight default_lock_pairs) vas_b
unfolding get_pair_by_lock_func find_by_lock default_lock_pairs strcmp_eq str_eq
b-Straight = (refl, (refl, (refl, (refl, tt))))

a-Named : All Named vas_a
unfolding va_is_placeholder_type
a-Named = (refl, (refl, (refl, (refl, tt))))

b-Named : All Named vas_b
unfolding va_is_placeholder_type
b-Named = (refl, (refl, (refl, (refl, tt))))

a_unlocked : held [] vas_a 3 ≡ []
unfolding held lock_tracking_gen_hash
a_unlocked = refl

b_unlocked : held [] vas_b 3 ≡ []
unfolding held lock_tracking_gen_hash
b_unlocked = refl

unprotected-held_example :
    find_unprotected_va in_place default_lock_pairs 64 4096 vas_a vas_b
    ≡ scan_all (held_judge vas_a vas_b) 0 vas_a vas_b
unprotected-held_example =
    unprotected-held in_place (λ old cap. (old, refl)) default_lock_pairs 64 4096 vas_a vas_b
      a-Straight b-Straight (omega arith) (omega arith)

unprotected-Done_example :
    (s : Scan) × (find_unprotected_va in_place default_lock_pairs 64 4096 vas_a vas_b ≡ some s)
    × ScanDone (held_judge vas_a vas_b) 0 vas_a vas_b s
unprotected-Done_example =
    unprotected-Done in_place (λ old cap. (old, refl)) default_lock_pairs 64 4096 vas_a vas_b
      a-Straight b-Straight (omega arith) (omega arith) a-Named b-Named

unlocked-missed_example :
    (s : Scan) × (find_unprotected_va in_place default_lock_pairs 64 4096 vas_a vas_b ≡ some s)
    × All (λ (x : Report). (x.idx_a == 3 && x.idx_b == 3) ≡ false) s.found
unlocked-missed_example =
    unlocked-missed in_place (λ old cap. (old, refl)) default_lock_pairs 64 4096 vas_a vas_b
      a-Straight b-Straight (omega arith) (omega arith) 3 3 a-Named b-Named (omega arith)
      (omega arith) a_unlocked b_unlocked

abbrev both : Footprints
both = vas_a ∷ vas_b ∷ []

compare_all-locked_example :
    (r : Footprints × List Finding) × (compare_all
        (find_unprotected_va in_place default_lock_pairs 64 4096)
        both
      ≡ some r)
    × All (Comparable default_lock_pairs) r.0
    × (length r.0 ≡ length both)
    × Lessened both r.0
    × Accounted both r.0 r.1
compare_all-locked_example =
    compare_all-locked in_place (λ old cap. (old, refl)) default_lock_pairs 64 4096 both
      ((a-Straight, a-Named, omega arith), ((b-Straight, b-Named, omega arith), tt))
