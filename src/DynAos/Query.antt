-- ===== src/DynAos/Query.antt =====
-- The three searches find the first string that is equal.
use prongc.Prelude.{
  ℕ, ◌+◌, ◌≡◌, refl, ap, ◌∙◌, Bool, false, inl, inr, Bool-cases, Option, none, some, List, [], ◌∷◌,
  ◌++◌, append_assoc, length, length-append, All-back, Str, str_eq, arith, if◌then◌else◌, ◌>>=◌,
  ◌||◌, sym, subst, ltb, get_elem?, ◌<◌, ◌^◌,
}
use native.Mathlib.Nat.{add-zero, zero-add}
use prongc.DynAos.{
  DynamicAos, find_from, aos_find_string, aos_contains_string, aos_find_string_idx, aos_string_at,
  read_string, pred64,
}
use prongc.DynAos.View.{
  pack, addresses, Holds, read_string-Holds, pack-append, length-pack_one, string_at-Holds,
  length-strings,
}

abbrev pub member : Str → List Str → Bool
member needle [] = false
member needle (s ∷ ss) = str_eq s needle || member needle ss

-- The strings in front of the first one that is equal to the needle.
abbrev pub before : Str → List Str → List Str
before needle [] = []
before needle (s ∷ ss) = if str_eq s needle then [] else s ∷ before needle ss

-- what the loop over `ss` finds, where `i` strings of `n` bytes stand in front
first : DynamicAos → Str → ℕ → ℕ → List Str → Option (ℕ × ℕ)
first a needle i p [] = none
first a needle i p (s ∷ ss) =
    if str_eq s needle then some (i, p) else first a needle (i + 1) (p + length s + 1) ss

pub step_address :
    (p : ℕ) (ss : List Str) (s : Str)
    → p + length (pack ss) + length s + 1 ≡ p + length (pack (ss ++ s ∷ []))
step_address p ss s = omega (
  arith,
  ap length (pack-append ss (s ∷ [])),
  length-append (pack ss) (pack (s ∷ [])),
  length-pack_one s,
)

find_from-first :
    (a : DynamicAos) (needle : Str) (i : ℕ) (ss ts : List Str)
    → Holds a (ss ++ ts)
    → find_from a needle i (addresses (a.base + length (pack ss)) ts)
      ≡ some (first a needle i (a.base + length (pack ss)) ts)
unfolding find_from first addresses
find_from-first a needle i ss [] h = refl
find_from-first a needle i ss (s ∷ ts) h =
    let here : read_string a (a.base + length (pack ss)) ≡ some s =
      read_string-Holds a ss s ts h (All-back _ ss (s ∷ ts) h.clean).0 in
    let later =
      find_from-first a needle (i + 1) (ss ++ s ∷ []) ts
        (subst (Holds a) (sym (append_assoc ss (s ∷ []) ts)) h) in
    elim (Bool-cases (str_eq s needle)) [
      | inl same ↦ rw (here, same)
      | inr other ↦ rw (here, other) (rw (step_address a.base ss s) later)
    ]

first-before :
    (a : DynamicAos) (needle : Str) (i p : ℕ) (ss : List Str)
    → first a needle i p ss ≡ (
        if member needle ss
        then some (i + length (before needle ss), p + length (pack (before needle ss)))
        else none)
unfolding first pack
first-before a needle i p [] = refl
first-before a needle i p (s ∷ ss) = elim (Bool-cases (str_eq s needle)) [
  | inl same ↦ rw same (ground arith)
  | inr other ↦ rw other (
      ground (
        arith,
        first-before a needle (i + 1) (p + length s + 1) ss,
        length-append (s ++ 0 ∷ []) (pack (before needle ss)),
        length-append s (0 ∷ []),
      ))
]

find_from-before :
    (a : DynamicAos) (needle : Str) (ss : List Str)
    → Holds a ss
    → find_from a needle 0 a.strings
      ≡ some (
          if member needle ss
          then some (length (before needle ss), a.base + length (pack (before needle ss)))
          else none)
find_from-before a needle ss h =
    let e : a.base + length (pack []) ≡ a.base = unfold pack in add-zero a.base in
    let run : find_from a needle 0 (addresses a.base ss) ≡ some (first a needle 0 a.base ss) =
      rw e at (find_from-first a needle 0 [] ss h) in
    ap (find_from a needle 0) h.pointed
    ∙ (run ∙ ap some (first-before a needle 0 a.base ss ∙ rw zero-add))

-- In an array that holds `ss`, the three searches agree with a search of the list: the first equal
-- string is found, with its index and its address, and if there is none they return NULL, false and
-- -1.
pub search-Holds :
    (a : DynamicAos) (needle : Str) (ss : List Str)
    → Holds a ss
    → (aos_contains_string a needle ≡ some (member needle ss))
      × (aos_find_string_idx a needle
          ≡ some (if member needle ss then some (length (before needle ss)) else none))
      × (aos_find_string a needle
          ≡ some
              (if member needle ss then some (a.base + length (pack (before needle ss))) else none))
unfolding aos_contains_string aos_find_string_idx aos_find_string
search-Holds a needle ss h =
    let run = find_from-before a needle ss h in
    elim (Bool-cases (member needle ss)) [
      | inl found ↦ let r = rw found at run in rw (r, found) (refl, refl, refl)
      | inr lacking ↦ let r = rw lacking at run in rw (r, lacking) (refl, refl, refl)
    ]

-- The string at each index in range is read back through the pointer that `aos_string_at` returns,
-- and an index behind the last string gives NULL.
pub string_at-read :
    (a : DynamicAos) (ss : List Str) (s : Str) (ts : List Str) (k : ℕ)
    → Holds a (ss ++ s ∷ ts)
    → length (ss ++ s ∷ ts) < 2 ^ 64
    → ((p : ℕ) × (aos_string_at a (length ss) ≡ some (some p)) × (read_string a p ≡ some s))
      × (aos_string_at a (length (ss ++ s ∷ ts) + k) ≡ some none)
unfolding aos_string_at
string_at-read a ss s ts k h small = (
  (
    a.base + length (pack ss),
    string_at-Holds a ss s ts h small,
    read_string-Holds a ss s ts h (All-back _ ss (s ∷ ts) h.clean).0,
  ),
  ground (arith, length-strings a (ss ++ s ∷ ts) h, length-append ss (s ∷ ts)),
)

-- On an empty array `aos_string_at` refuses no index: it reads a pointer that was never written.
string_at-empty :
    (a : DynamicAos) (idx : ℕ) → Holds a [] → idx < 2 ^ 64 → aos_string_at a idx ≡ none
unfolding aos_string_at
string_at-empty a idx h small =
    let e : a.strings ≡ [] = h.pointed ∙ (unfold addresses in refl) in
    let bound : ltb (pred64 (length a.strings)) idx ≡ false = ground (arith, ap length e) in
    rw bound (ap (λ ps. get_elem? ps idx >>= λ p. some (some p)) e)
