-- ===== src/LockTracking/Pairs/Table.antt =====
-- src/prong.c, the table of lock pairs that `main` builds.
use prongc.Prelude.{
  ℕ, zero, suc, ◌+◌, ◌≡◌, refl, sym, ap, ◌∙◌, Bool, true, false, Option, some, List, [], ◌∷◌, ◌++◌,
  length, drop, map, length-map, All, Str, arith, ◌==◌, if◌then◌else◌, ◌>>=◌,
}
use prongc.DynAos.{ProngError, ok}
use prongc.LockTracking.Pairs.{LockPrimitivePair, default_lock_pairs, aos_to_lock_pair_array}
use prongc.LockTracking.Pairs.Custom.{Name, print_pair, to_pair, parse_pairs}

-- the loop that writes the default pairs into the slots from `count` on
unfoldable pub add_default_pairs :
    ℕ → List LockPrimitivePair → List LockPrimitivePair → List LockPrimitivePair
add_default_pairs count [] pairs = []
add_default_pairs zero (s ∷ slots) [] = s ∷ slots
add_default_pairs zero (s ∷ slots) (p ∷ pairs) = p ∷ add_default_pairs zero slots pairs
add_default_pairs (suc count) (s ∷ slots) pairs = s ∷ add_default_pairs count slots pairs

abbrev pub is_ok : ProngError → Bool
is_ok ok = true
is_ok _ = false

-- The code and the array; `slots` is what `init_lock_pair_array` got from `malloc`.
unfoldable pub fill_lock_pair_array :
    List Str → List LockPrimitivePair → Option (ProngError × List LockPrimitivePair)
unfolding add_default_pairs
fill_lock_pair_array lock_pairs slots =
    (if length lock_pairs == 0 then some (ok, slots) else aos_to_lock_pair_array lock_pairs slots)
    >>= λ r. some (
        if is_ok r.0 then (ok, add_default_pairs (length lock_pairs) r.1 default_lock_pairs) else r)

add_default_pairs-drop :
    (xs ys ps : List LockPrimitivePair)
    → length ys ≡ length ps
    → add_default_pairs (length xs) (xs ++ ys) ps ≡ xs ++ ps
unfolding add_default_pairs
add_default_pairs-drop [] [] [] h = refl
add_default_pairs-drop [] [] (p ∷ ps) h = absurd (omega (arith, h))
add_default_pairs-drop [] (y ∷ ys) [] h = absurd (omega (arith, h))
add_default_pairs-drop [] (y ∷ ys) (p ∷ ps) h =
    ap (◌∷◌ p) (add_default_pairs-drop [] ys ps (omega (arith, h)))
add_default_pairs-drop (x ∷ xs) ys ps h = ap (◌∷◌ x) (add_default_pairs-drop xs ys ps h)

length-drop :
    {A : Type 0} (n : ℕ) (xs : List A) (k : ℕ) → length xs ≡ n + k → length (drop n xs) ≡ k
length-drop zero xs k h = omega (arith, h)
length-drop (suc n) [] k h = omega (arith, h)
length-drop (suc n) (x ∷ xs) k h = length-drop n xs k (omega (arith, h))

-- If the pairs "lock:unlock" of the command line have names for lock functions, and the array has a
-- slot for each of them and each default pair, then `main` fills it with the pairs of the command line
-- in order and the default pairs behind them, whatever `malloc` left there.
pub fill-parse_pairs :
    (pairs : List (Str × Str)) (slots : List LockPrimitivePair)
    → All (λ p. Name p.0) pairs
    → length slots ≡ length pairs + length default_lock_pairs
    → fill_lock_pair_array (map print_pair pairs) slots
      ≡ some (ok, map to_pair pairs ++ default_lock_pairs)
unfolding fill_lock_pair_array
fill-parse_pairs [] slots h fits =
    ap (λ x. some (ok, x))
      (add_default_pairs-drop [] slots default_lock_pairs (omega (arith, fits)))
fill-parse_pairs (p ∷ pairs) slots h fits =
    let parsed = parse_pairs (p ∷ pairs) slots h (omega (arith, fits)) in
    let rest = length-drop (length (p ∷ pairs)) slots (length default_lock_pairs) fits in
    let count : length (map print_pair (p ∷ pairs)) ≡ length (map to_pair (p ∷ pairs)) =
      length-map print_pair (p ∷ pairs) ∙ sym (length-map to_pair (p ∷ pairs)) in
    let nonempty : (length (map print_pair (p ∷ pairs)) == 0) ≡ false = ground arith in
    rw nonempty (
      ap
        (λ m. m >>= λ r. some (
          if is_ok r.0
          then (ok, add_default_pairs (length (map print_pair (p ∷ pairs))) r.1 default_lock_pairs)
          else r))
        parsed
      ∙ ap (λ x. some (ok, x))
          (ap
              (λ n.
                add_default_pairs n (map to_pair (p ∷ pairs) ++ drop (length (p ∷ pairs)) slots)
                  default_lock_pairs)
              count
            ∙ add_default_pairs-drop (map to_pair (p ∷ pairs)) (drop (length (p ∷ pairs)) slots)
                default_lock_pairs rest))
