-- ===== src/DynAos/View.antt =====
-- What a dynamic array of strings stands for: a list of strings.
use prongc.Prelude.{
  ℕ, ◌+◌, ◌≤◌, ◌≡◌, List, [], ◌∷◌, ◌++◌, append_assoc, refl, length, All, Str, NoNul, arith,
  length-append, drop-length_append, ap, ltb, get_elem?, suc, ◌<◌, ◌^◌, ◌∙◌, some, false, ◌-◌,
}
use prongc.DynAos.{DynamicAos, until_nul, read_string, aos_string_at, pred64}

-- the strings behind each other, each with its NUL
unfoldable pub pack : List Str → List ℕ
pack [] = []
pack (s ∷ ss) = (s ++ 0 ∷ []) ++ pack ss

-- the address of each string, the first at `p`
unfoldable pub addresses : ℕ → List Str → List ℕ
addresses p [] = []
addresses p (s ∷ ss) = p ∷ addresses (p + length s + 1) ss

-- The array `a` holds the strings `ss`, in order.
pub record Holds (a : DynamicAos) (ss : List Str) : Type 0 where
  pub packed : a.block ≡ pack ss
  pub pointed : a.strings ≡ addresses a.base ss
  pub clean : All NoNul ss
  pub fits : length a.block ≤ a.capacity
  pub has_room : length a.strings ≤ a.strings_cap

pub pack-append : (ss ts : List Str) → pack (ss ++ ts) ≡ pack ss ++ pack ts
unfolding pack
pack-append [] ts = refl
pack-append (s ∷ ss) ts = simp (pack-append ss ts, append_assoc)

pub length-pack_one : (s : Str) → length (pack (s ∷ [])) ≡ length s + 1
unfolding pack
length-pack_one s = omega (arith, length-append (s ++ 0 ∷ []) [], length-append s (0 ∷ []))

pub addresses-append :
    (p : ℕ) (ss ts : List Str)
    → addresses p (ss ++ ts) ≡ addresses p ss ++ addresses (p + length (pack ss)) ts
unfolding addresses pack
addresses-append p [] ts = ap (λ q. addresses q ts) (omega arith)
addresses-append p (s ∷ ss) ts = rw (addresses-append (p + length s + 1) ss ts) (
    ap (λ q. p ∷ addresses (p + length s + 1) ss ++ addresses q ts)
      (omega (arith, length-append (s ++ 0 ∷ []) (pack ss), length-append s (0 ∷ []))))

pub length-addresses : (p : ℕ) (ss : List Str) → length (addresses p ss) ≡ length ss
unfolding addresses
length-addresses p [] = refl
length-addresses p (s ∷ ss) = omega (arith, length-addresses (p + length s + 1) ss)

pub length-strings : (a : DynamicAos) (ss : List Str) → Holds a ss → length a.strings ≡ length ss
length-strings a ss h = rw h.pointed (length-addresses a.base ss)

until_nul-append : (s : Str) (rest : List ℕ) → NoNul s → until_nul ((s ++ 0 ∷ []) ++ rest) ≡ some s
unfolding until_nul
until_nul-append [] rest clean = refl
until_nul-append (c ∷ s) rest (nonzero, clean) = ground (arith, until_nul-append s rest clean)

-- A string is read back from its address.
pub read_string-Holds :
    (a : DynamicAos) (ss : List Str) (s : Str) (ts : List Str)
    → Holds a (ss ++ s ∷ ts)
    → NoNul s
    → read_string a (a.base + length (pack ss)) ≡ some s
unfolding read_string
read_string-Holds a ss s ts h clean =
    let e : ltb (a.base + length (pack ss)) a.base ≡ false = ground arith in
    let d : a.base + length (pack ss) - a.base ≡ length (pack ss) = omega arith in
    rw (e, d, h.packed, pack-append ss (s ∷ ts), drop-length_append)
      (unfold pack in until_nul-append s (pack ts) clean)

get_elem?-length :
    (xs : List ℕ) (y : ℕ) (ys : List ℕ) → get_elem? (xs ++ y ∷ ys) (length xs) ≡ some y
get_elem?-length [] y ys = refl
get_elem?-length (x ∷ xs) y ys = get_elem?-length xs y ys

get_elem?-addresses :
    (xs : List ℕ) (p : ℕ) (s : Str) (ts : List Str)
    → get_elem? (xs ++ addresses p (s ∷ ts)) (length xs) ≡ some p
unfolding addresses
get_elem?-addresses xs p s ts = get_elem?-length xs p (addresses (p + length s + 1) ts)

-- The address of the string behind `ss`.
pub string_at-Holds :
    (a : DynamicAos) (ss : List Str) (s : Str) (ts : List Str)
    → Holds a (ss ++ s ∷ ts)
    → length (ss ++ s ∷ ts) < 2 ^ 64
    → aos_string_at a (length ss) ≡ some (some (a.base + length (pack ss)))
unfolding aos_string_at
string_at-Holds a ss s ts h small =
    let n : length a.strings ≡ length ss + suc (length ts) =
      length-strings a (ss ++ s ∷ ts) h ∙ length-append ss (s ∷ ts) in
    let e : ltb (pred64 (length a.strings)) (length ss) ≡ false =
      ground (arith, n, length-append ss (s ∷ ts)) in
    let found : get_elem? a.strings (length ss) ≡ some (a.base + length (pack ss)) =
      rw (h.pointed, addresses-append a.base ss (s ∷ ts), ← length-addresses a.base ss)
        (get_elem?-addresses (addresses a.base ss) (a.base + length (pack ss)) s ts) in
    rw (e, found)
