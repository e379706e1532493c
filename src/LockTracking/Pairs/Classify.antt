-- ===== src/LockTracking/Pairs/Classify.antt =====
-- Which functions count as lock and unlock functions.
use prongc.Prelude.{
  ◌≡◌, inl, inr, refl, Bool, true, false, not, ◌||◌, ◌&&◌, Bool-cases, Option, none, some, List, [],
  ◌∷◌, Str, str_eq, eq_of_str_eq, arith, if◌then◌else◌, ◌>>=◌,
}
use prongc.VarAccess.{VarAccessType, null, lock_acquire, lock_release, strcmp_eq}
use prongc.LockTracking.Pairs.{LockPrimitivePair, default_lock_pairs, type_in, lock_primitive_type}

abbrev pub name_is : Str → Option Str → Bool
name_is s none = false
name_is s (some n) = str_eq s n

abbrev pub is_lock : List LockPrimitivePair → Str → Bool
is_lock [] s = false
is_lock (p ∷ ps) s = name_is s p.lock_func || is_lock ps s

abbrev pub is_unlock : List LockPrimitivePair → Str → Bool
is_unlock [] s = false
is_unlock (p ∷ ps) s = name_is s p.unlock_func || is_unlock ps s

abbrev named : Option Str → Bool
named none = false
named (some n) = true

abbrev unlocks : List LockPrimitivePair → Option Str → Bool
unlocks table none = false
unlocks table (some n) = not (is_lock table n)

-- Both names are there, and no unlock function of the table is one of its lock functions.
abbrev lawful : List LockPrimitivePair → List LockPrimitivePair → Bool
lawful table [] = true
lawful table (p ∷ ps) = named p.lock_func && (unlocks table p.unlock_func && lawful table ps)

lawful_default : lawful default_lock_pairs default_lock_pairs ≡ true
unfolding default_lock_pairs str_eq
lawful_default = refl

-- the answer that the table stands for
abbrev pub kind_of : List LockPrimitivePair → Str → VarAccessType
kind_of ps s = if is_lock ps s then lock_acquire else if is_unlock ps s then lock_release else null

not_lock :
    (table : List LockPrimitivePair) (s u : Str)
    → str_eq s u ≡ true
    → not (is_lock table u) ≡ true
    → is_lock table s ≡ false
not_lock table s u e h = rw (eq_of_str_eq s u e) (ground (arith))

first_pair :
    (table ps : List LockPrimitivePair) (s : Str) (lo un : Option Str) (rest : Option VarAccessType)
    → rest ≡ some (kind_of ps s)
    → named lo ≡ true
    → unlocks table un ≡ true
    → (name_is s lo ≡ false → is_lock table s ≡ false → is_lock ps s ≡ false)
    → (strcmp_eq (some s) lo >>= λ acquires.
        if acquires
        then some lock_acquire
        else strcmp_eq (some s) un >>= λ releases. if releases then some lock_release else rest)
      ≡ some (
          if name_is s lo || is_lock ps s
          then lock_acquire
          else if name_is s un || is_unlock ps s
          then lock_release
          else null)
unfolding strcmp_eq
first_pair table ps s none un rest ih h h' sub = cc
first_pair table ps s (some n) none rest ih h h' sub = cc
first_pair table ps s (some n) (some u) rest ih h h' sub = elim (Bool-cases (str_eq s n)) [
  | inl e ↦ rw (e)
  | inr e ↦ elim (Bool-cases (str_eq s u)) [
    | inl e' ↦ rw (e, e', sub e (not_lock table s u e' h'))
    | inr e' ↦ rw (e, e', ih)
  ]
]

type_in-lawful :
    (table ps : List LockPrimitivePair) (s : Str)
    → lawful table ps ≡ true
    → (is_lock ps s ≡ true → is_lock table s ≡ true)
    → type_in ps s ≡ some (kind_of ps s)
unfolding type_in
type_in-lawful table [] s h sub = refl
type_in-lawful table (p ∷ ps) s h sub =
    first_pair table ps s p.lock_func p.unlock_func (type_in ps s)
      (type_in-lawful table ps s (ground arith) (λ e. sub (ground arith))) (ground arith)
      (ground arith) (λ e e'. ground (arith, sub))

-- A function counts as a lock function exactly if it is the lock function of a default pair, and as
-- an unlock function exactly if it is the unlock function of one; pairs from the command line have no
-- part in it.
pub lock_type-default :
    (s : Str)
    → lock_primitive_type s
      ≡ some (
          if is_lock default_lock_pairs s
          then lock_acquire
          else if is_unlock default_lock_pairs s
          then lock_release
          else null)
unfolding lock_primitive_type
lock_type-default s = type_in-lawful default_lock_pairs default_lock_pairs s lawful_default (λ e. e)
