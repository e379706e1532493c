-- ===== src/Args/Call/RoundTrip.antt =====
-- A call that is written with plain names is parsed back.
use prongc.Prelude.{
  ℕ, zero, suc, ◌+◌, ◌<◌, ◌≤◌, ◌≡◌, refl, ap, Bool, true, not, ◌||◌, some, List, [], ◌∷◌, ◌++◌,
  length, length-append, All, Str, arith, ◌==◌,
}
use prongc.DynAos.{ok}
use prongc.Args.Call.{
  isspace, split_paren, before_closing, trim_end, skip_space, take_arg, skip_comma, parse_args,
  parse_func_call,
}

-- a character of a name: no whitespace, parenthesis or comma
abbrev pub is_plain : ℕ → Bool
is_plain c = not (isspace c || (c == b'(' || (c == b')' || c == b',')))

abbrev pub Plain : Str → Type 0
Plain = All (λ c. is_plain c ≡ true)

-- Names that are not empty.
abbrev pub Words : List Str → Type 0
Words [] = Unit
Words ([] ∷ args) = ⊥
Words ((c ∷ arg) ∷ args) = Plain (c ∷ arg) × Words args

-- the arguments behind the first one
unfoldable pub print_rest : List Str → Str
print_rest [] = []
print_rest (arg ∷ args) = b',' ∷ b' ' ∷ arg ++ print_rest args

unfoldable pub print_args : List Str → Str
unfolding print_rest
print_args [] = []
print_args (arg ∷ args) = arg ++ print_rest args

unfoldable pub print_call : Str → List Str → Str
unfolding print_args
print_call name args = name ++ b'(' ∷ (print_args args ++ b')' ∷ [])

split_paren-Plain :
    (name rest : Str) → Plain name → split_paren (name ++ b'(' ∷ rest) ≡ some (name, rest)
unfolding split_paren
split_paren-Plain [] rest h = refl
split_paren-Plain (c ∷ name) rest h = ground (arith, split_paren-Plain name rest h.1)

before_closing-append : (s : Str) → before_closing (s ++ b')' ∷ []) ≡ some s
unfolding before_closing
before_closing-append [] = refl
before_closing-append (c ∷ s) = rw (before_closing-append s)

trim_end-Plain : (s : Str) → Plain s → trim_end s ≡ s
unfolding trim_end
trim_end-Plain [] h = refl
trim_end-Plain (c ∷ []) h = ground arith
trim_end-Plain (c ∷ d ∷ s) h = rw (trim_end-Plain (d ∷ s) h.1)

take_arg-Plain :
    (arg : Str) (args : List Str)
    → Plain arg
    → take_arg 0 0 (arg ++ print_rest args) ≡ (arg, print_rest args)
unfolding take_arg print_rest
take_arg-Plain [] [] h = refl
take_arg-Plain [] (b ∷ args) h = refl
take_arg-Plain (c ∷ arg) args h = ground (arith, take_arg-Plain arg args h.1)

skip-print_rest :
    (args : List Str) → Words args → skip_space (skip_comma (print_rest args)) ≡ print_args args
unfolding print_args print_rest skip_space
skip-print_rest [] w = refl
skip-print_rest ([] ∷ args) w = elim w [ ]
skip-print_rest ((c ∷ arg) ∷ args) w = ground (arith, w.0.0)

parse_args-rest :
    (fuel : ℕ) (s : Str) (args : List Str)
    → Words args
    → skip_space s ≡ print_args args
    → length args < fuel
    → parse_args fuel s ≡ args
unfolding parse_args print_args print_rest skip_space
parse_args-rest zero s args w e h = absurd (omega arith)
parse_args-rest (suc fuel) s [] w e h = rw e
parse_args-rest (suc fuel) s ([] ∷ args) w e h = elim w [ ]
parse_args-rest (suc fuel) s ((c ∷ arg) ∷ args) w e h =
    rw (e, take_arg-Plain (c ∷ arg) args w.0, trim_end-Plain (c ∷ arg) w.0)
      (ap (◌∷◌ (c ∷ arg)) (
        parse_args-rest fuel (skip_comma (print_rest args)) args w.1 (skip-print_rest args w.1)
          (omega arith)))

length-print : (args : List Str) → Words args → length args ≤ length (print_rest args)
unfolding print_rest
length-print [] w = omega arith
length-print ([] ∷ args) w = elim w [ ]
length-print ((c ∷ arg) ∷ args) w =
    omega (arith, length-print args w.1, length-append arg (print_rest args))

length-print_args : (args : List Str) → Words args → length args ≤ length (print_args args)
unfolding print_args
length-print_args [] w = omega arith
length-print_args ([] ∷ args) w = elim w [ ]
length-print_args ((c ∷ arg) ∷ args) w =
    omega (arith, length-print args w.1, length-append arg (print_rest args))

skip-print_args : (args : List Str) → Words args → skip_space (print_args args) ≡ print_args args
unfolding print_args skip_space
skip-print_args [] w = refl
skip-print_args ([] ∷ args) w = elim w [ ]
skip-print_args ((c ∷ arg) ∷ args) w = ground (arith, w.0.0)

-- A call "name(arg, arg, ...)" of a name and any number of arguments, all of them not empty and
-- without whitespace, parentheses and commas, is parsed to ERR_OK with the name and the arguments in
-- order.
pub parse-print :
    (c : ℕ) (name : Str) (args : List Str)
    → Plain (c ∷ name)
    → Words args
    → parse_func_call (some (print_call (c ∷ name) args)) ≡ (ok, (c ∷ name) ∷ args)
unfolding parse_func_call print_call
parse-print c name args plain w =
    let text = print_args args in
    let before = split_paren-Plain (c ∷ name) (text ++ b')' ∷ []) plain in
    rw (before, parse_func_call)
      (rw (trim_end-Plain (c ∷ name) plain, before_closing-append text)
        (rw (
          parse_args-rest (length text + 1) text args w (skip-print_args args w)
              (omega (arith, length-print_args args w)),
          trim_end-Plain (c ∷ name) plain,
        )))
