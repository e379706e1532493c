-- ===== src/LockTracking/Pairs.antt =====
-- src/lock_tracking.c: pairs of a lock and an unlock function.
pub mod Classify
pub mod Custom
pub mod Table
use Prim.Native.Nat.{bit_xor}
use Prim.Native.String.{String}
use prongc.Prelude.{
  ℕ, ◌*◌, ◌%◌, ◌^◌, Bool, true, false, not, ◌||◌, ◌&&◌, Option, none, some, List, [], ◌∷◌, Str,
  codes, str_eq, leb, ◌==◌, if◌then◌else◌, ◌>>=◌,
}
use prongc.DynAos.{ProngError, ok, syntax}
use prongc.VarAccess.{VarAccessType, null, lock_acquire, lock_release, strcmp_eq}

pub record LockPrimitivePair : Type 0 where
  pub lock_func : Option Str
  pub unlock_func : Option Str

abbrev pub null_pair : LockPrimitivePair
null_pair = record { lock_func = none; unlock_func = none }

abbrev pub named_pair : Str → Str → LockPrimitivePair
named_pair l u = record { lock_func = some l; unlock_func = some u }

abbrev literal_pair : String → String → LockPrimitivePair
literal_pair l u = named_pair (codes l) (codes u)

unfoldable pub default_lock_pairs : List LockPrimitivePair
default_lock_pairs =
    literal_pair "pthread_mutex_lock" "pthread_mutex_unlock"
    ∷ literal_pair "pthread_mutex_trylock" "pthread_mutex_unlock"
    ∷ literal_pair "pthread_spin_lock" "pthread_spin_unlock"
    ∷ literal_pair "pthread_spin_trylock" "pthread_spin_unlock"
    ∷ literal_pair "mutex_lock" "mutex_unlock"
    ∷ literal_pair "mutex_lock_interruptible" "mutex_unlock"
    ∷ literal_pair "mutex_lock_killable" "mutex_unlock"
    ∷ literal_pair "spin_lock" "spin_unlock"
    ∷ literal_pair "spin_lock_irq" "spin_unlock_irq"
    ∷ literal_pair "spin_lock_irqsave" "spin_unlock_irqrestore"
    ∷ literal_pair "spin_lock_bh" "spin_unlock_bh"
    ∷ literal_pair "raw_spin_lock" "raw_spin_unlock"
    ∷ literal_pair "raw_spin_lock_irq" "raw_spin_unlock_irq"
    ∷ literal_pair "raw_spin_lock_irqsave" "raw_spin_lock_irqrestore"
    ∷ []

-- The loop of `lock_primitive_type` over a table.
unfoldable pub type_in : List LockPrimitivePair → Str → Option VarAccessType
type_in [] s = some null
type_in (p ∷ ps) s =
    let rest = type_in ps s in
    strcmp_eq (some s) p.lock_func >>= λ acquires.
    if acquires
    then some lock_acquire
    else strcmp_eq (some s) p.unlock_func >>= λ releases.
        if releases then some lock_release else rest

unfoldable pub lock_primitive_type : Str → Option VarAccessType
unfolding type_in default_lock_pairs
lock_primitive_type esc_func_spelling = type_in default_lock_pairs esc_func_spelling

-- the loop of `get_pair_by_lock_func`
unfoldable pub find_by_lock : List LockPrimitivePair → Str → Option LockPrimitivePair
find_by_lock [] name = some null_pair
find_by_lock (p ∷ ps) name =
    let rest = find_by_lock ps name in
    strcmp_eq p.lock_func (some name) >>= λ same. if same then some p else rest

unfoldable pub get_pair_by_lock_func :
    List LockPrimitivePair → Option Str → Option LockPrimitivePair
unfolding find_by_lock
get_pair_by_lock_func pairs none = some null_pair
get_pair_by_lock_func pairs (some name) = find_by_lock pairs name

unfoldable pub get_pair_by_unlock_func :
    List LockPrimitivePair → Option Str → Option LockPrimitivePair
get_pair_by_unlock_func [] name = some null_pair
get_pair_by_unlock_func (p ∷ ps) name =
    let rest = get_pair_by_unlock_func ps name in
    strcmp_eq p.unlock_func name >>= λ same. if same then some p else rest

unfoldable pub lock_pair_is_null : LockPrimitivePair → Bool
lock_pair_is_null p = is_null p.lock_func || is_null p.unlock_func
  where
    is_null : Option Str → Bool
    is_null none = true
    is_null (some s) = false

-- `isalnum` of a byte, in the C locale
abbrev pub isalnum : ℕ → Bool
isalnum c = (leb b'0' c && leb c b'9') || (leb b'A' c && leb c b'Z') || (leb b'a' c && leb c b'z')

abbrev pub is_name_char : ℕ → Bool
is_name_char c = isalnum c || c == b'_'

-- What the inner loop of `aos_to_lock_pair_array` makes of a string.
pub data Scan : Type 0 where
  split_at : Str → Str → Scan
  bad_char : Scan
  no_colon : Scan

abbrev pub scan_cons : ℕ → Scan → Scan
scan_cons c (split_at l r) = split_at (c ∷ l) r
scan_cons c bad_char = bad_char
scan_cons c no_colon = no_colon

unfoldable pub scan_pair : Str → Scan
scan_pair [] = no_colon
scan_pair (c ∷ s) =
    let rest = scan_cons c (scan_pair s) in
    if c == b':' then split_at [] s else if is_name_char c then rest else bad_char

-- `aos_to_lock_pair_array`: the strings, and the pairs as `malloc` left them. The result is the code
-- returned and the pairs; `none` is a write behind the array of pairs.
unfoldable pub aos_to_lock_pair_array :
    List Str → List LockPrimitivePair → Option (ProngError × List LockPrimitivePair)
unfolding scan_pair
aos_to_lock_pair_array [] pairs = some (ok, pairs)
aos_to_lock_pair_array (s ∷ ss) [] = none
aos_to_lock_pair_array (s ∷ ss) (p ∷ ps) =
    let rest = aos_to_lock_pair_array ss ps in
    elim (scan_pair s) [
      | split_at l r ↦ rest >>= λ (e, qs). some (e, named_pair l r ∷ qs)
      | bad_char ↦ some (syntax, record p { lock_func = some s } ∷ ps)
      | no_colon ↦ elim p.unlock_func [
        | none ↦ some (syntax, record p { lock_func = some s } ∷ ps)
        | some u ↦ rest >>= λ (e, qs). some (e, record p { lock_func = some s } ∷ qs)
      ]
    ]

-- `lock_tracking_gen_hash`, on 32-bit numbers
abbrev pub hash_from : ℕ → Str → ℕ
hash_from hash [] = hash
hash_from hash (c ∷ s) = hash_from (bit_xor ((hash * 0x0100_0193) % 2 ^ 32) c) s

unfoldable pub lock_tracking_gen_hash : Str → ℕ
lock_tracking_gen_hash = hash_from 0x811c_9dc5
