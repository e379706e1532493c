-- ===== src/LockTracking/Pairs/Custom.antt =====
-- The pairs given on the command line.
use prongc.Prelude.{
  ◌≡◌, refl, true, none, some, List, [], ◌∷◌, ◌++◌, length, ◌≤◌, drop, map, All, Str, arith,
}
use prongc.DynAos.{ok, syntax}
use prongc.LockTracking.Pairs.{
  LockPrimitivePair, named_pair, is_name_char, split_at, no_colon, scan_pair,
  aos_to_lock_pair_array,
}

-- a name of letters, digits and underscores
abbrev pub Name : Str → Type 0
Name = All (λ c. is_name_char c ≡ true)

scan-Name : (l r : Str) → Name l → scan_pair (l ++ b':' ∷ r) ≡ split_at l r
unfolding scan_pair
scan-Name [] r h = refl
scan-Name (c ∷ l) r h = ground (arith, scan-Name l r h.1)

scan-no_colon : (l : Str) → Name l → scan_pair l ≡ no_colon
unfolding scan_pair
scan-no_colon [] h = refl
scan-no_colon (c ∷ l) h = ground (arith, scan-no_colon l h.1)

abbrev pub print_pair : Str × Str → Str
print_pair (l, r) = l ++ b':' ∷ r

abbrev pub to_pair : Str × Str → LockPrimitivePair
to_pair (l, r) = named_pair l r

-- Pairs "lock:unlock" whose lock function is a name are read in order, with ERR_OK, into the first
-- slots of an array that is long enough; the other slots stay as they were.
pub parse_pairs :
    (pairs : List (Str × Str)) (slots : List LockPrimitivePair)
    → All (λ p. Name p.0) pairs
    → length pairs ≤ length slots
    → aos_to_lock_pair_array (map print_pair pairs) slots
      ≡ some (ok, map to_pair pairs ++ drop (length pairs) slots)
unfolding aos_to_lock_pair_array
parse_pairs [] slots h fits = refl
parse_pairs (p ∷ pairs) [] h fits = absurd (omega arith)
parse_pairs (p ∷ pairs) (s ∷ slots) h fits =
    rw (scan-Name p.0 p.1 h.0, aos_to_lock_pair_array)
      (rw (parse_pairs pairs slots h.1 (omega arith)))

-- A string of letters, digits and underscores, without a colon, is refused with ERR_SYNTAX where the
-- slot, which `malloc` left as it was, happens to hold NULL as its unlock function. Any other value
-- there is taken for the name of the unlock function.
pub colon_missing :
    (l u : Str) (p : LockPrimitivePair) (slots : List LockPrimitivePair)
    → Name l
    → (aos_to_lock_pair_array (l ∷ []) (record p { unlock_func = none } ∷ slots)
        ≡ some (syntax, record { lock_func = some l; unlock_func = none } ∷ slots))
      × (aos_to_lock_pair_array (l ∷ []) (record p { unlock_func = some u } ∷ slots)
          ≡ some (ok, named_pair l u ∷ slots))
unfolding aos_to_lock_pair_array
colon_missing l u p slots h =
    (rw (scan-no_colon l h, aos_to_lock_pair_array), rw (scan-no_colon l h, aos_to_lock_pair_array))
