-- ===== src/Prelude/Strings.antt =====
-- C strings: the bytes in front of the terminating NUL.
use Prim.Native.Nat.{ℕ}
use Prim.Native.Char.{code}
use Prim.Native.String.{String}
use mathlib.Core.Path.{◌≡◌, refl}
use mathlib.Core.Logic.{◌≢◌}
use mathlib.Core.Bool.{Bool, true, false, ◌&&◌}
use mathlib.Core.List.{List, [], ◌∷◌}
use native.Mathlib.Omega.{arith}
use prongc.Prelude.Tests.{◌==◌}
use prongc.Prelude.Lists.{All}

abbrev pub Str : Type 0
Str = List ℕ

-- The bytes of a literal.
abbrev pub codes : String → Str
codes String.[] = []
codes (String.◌∷◌ c s) = code c ∷ codes s

-- `strcmp(a, b) == 0`
unfoldable pub str_eq : Str → Str → Bool
str_eq [] [] = true
str_eq [] (y ∷ b) = false
str_eq (x ∷ a) [] = false
str_eq (x ∷ a) (y ∷ b) = (x == y) && str_eq a b

-- A C string holds no NUL of its own.
abbrev pub NoNul : Str → Type 0
NoNul = All (λ c. c ≢ 0)

pub str_eq_refl : (a : Str) → str_eq a a ≡ true
unfolding str_eq
str_eq_refl [] = refl
str_eq_refl (x ∷ a) = ground (arith, str_eq_refl a)

pub eq_of_str_eq : (a b : Str) → str_eq a b ≡ true → a ≡ b
unfolding str_eq
eq_of_str_eq [] [] h = refl
eq_of_str_eq [] (y ∷ b) h = cc
eq_of_str_eq (x ∷ a) [] h = cc
eq_of_str_eq (x ∷ a) (y ∷ b) h = ground (arith, eq_of_str_eq a b)

pub str_eq_sym : (a b : Str) → str_eq a b ≡ str_eq b a
unfolding str_eq
str_eq_sym [] [] = refl
str_eq_sym [] (y ∷ b) = refl
str_eq_sym (x ∷ a) [] = refl
str_eq_sym (x ∷ a) (y ∷ b) = ground (arith, str_eq_sym a b)
