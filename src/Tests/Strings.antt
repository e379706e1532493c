-- ===== src/Tests/Strings.antt =====
-- The array of strings that holds "ab" and "c", and one that holds nothing.
use prongc.Prelude.{◌+◌, ◌≡◌, refl, true, some, [], ◌∷◌, Str, NoNul, codes, str_eq, arith}
use prongc.DynAos.{
  DynamicAos, Allocator, ok, done, aos_push_string, aos_pop_string, aos_contains_string,
  aos_find_string_idx, aos_find_string, aos_append_strings,
}
use prongc.DynAos.View.{Holds, pack, addresses}
use prongc.DynAos.Grow.{Grants}
use prongc.DynAos.Push.{push-Holds, pop-Holds}
use prongc.DynAos.Query.{search-Holds}
use prongc.DynAos.Append.{append-Holds}

abbrev bump : Allocator
bump = record { data_block = λ old cap. some (old + 4096); strings_block = λ cap. true }

bump-Grants : Grants bump
bump-Grants = record { data_block = λ old cap. (old + 4096, refl); strings_block = λ cap. refl }

abbrev ab : Str
ab = codes "ab"

abbrev c : Str
c = codes "c"

-- a block with room for six bytes
abbrev two : DynamicAos
two = record {
  capacity = 6;
  strings_cap = 2;
  base = 1000;
  block = b'a' ∷ b'b' ∷ 0 ∷ b'c' ∷ 0 ∷ [];
  strings = 1000 ∷ 1003 ∷ [];
}

abbrev nothing : DynamicAos
nothing = record { capacity = 6; strings_cap = 2; base = 500; block = []; strings = [] }

ab-NoNul : NoNul ab
ab-NoNul = ((λ e. absurd (ground arith)), ((λ e. absurd (ground arith)), tt))

c-NoNul : NoNul c
c-NoNul = ((λ e. absurd (ground arith)), tt)

two-Holds : Holds two (ab ∷ c ∷ [])
unfolding pack addresses
two-Holds = record {
  packed = refl;
  pointed = refl;
  clean = (ab-NoNul, (c-NoNul, tt));
  fits = omega arith;
  has_room = omega arith;
}

nothing-Holds : Holds nothing []
unfolding pack addresses
nothing-Holds = record {
  packed = refl;
  pointed = refl;
  clean = tt;
  fits = omega arith;
  has_room = omega arith;
}

-- both blocks move
push-Holds_example :
    (b : DynamicAos) × (aos_push_string bump two ab ≡ done b) × Holds b (ab ∷ c ∷ ab ∷ [])
push-Holds_example = push-Holds bump two (ab ∷ c ∷ []) ab bump-Grants two-Holds ab-NoNul

pop-Holds_example : (b : DynamicAos) × (aos_pop_string two ≡ some (b, ok)) × Holds b (ab ∷ [])
pop-Holds_example = pop-Holds two (ab ∷ []) c two-Holds c-NoNul (omega arith)

search-Holds_example :
    (aos_contains_string two c ≡ some true)
    × (aos_find_string_idx two c ≡ some (some 1))
    × (aos_find_string two c ≡ some (some 1003))
unfolding str_eq pack
search-Holds_example = search-Holds two c (ab ∷ c ∷ []) two-Holds

-- another array, in a block of its own
abbrev other : DynamicAos
other = record {
  capacity = 3;
  strings_cap = 2;
  base = 2000;
  block = b'c' ∷ 0 ∷ [];
  strings = 2000 ∷ [];
}

other-Holds : Holds other (c ∷ [])
unfolding pack addresses
other-Holds = record {
  packed = refl;
  pointed = refl;
  clean = (c-NoNul, tt);
  fits = omega arith;
  has_room = omega arith;
}

append-Holds_example :
    (d : DynamicAos) × (aos_append_strings bump two other ≡ some (ok, done d))
    × Holds d (ab ∷ c ∷ c ∷ [])
append-Holds_example =
    append-Holds bump two other ab (c ∷ []) c [] bump-Grants (omega arith) two-Holds other-Holds
