-- ===== src/Args/Call.antt =====
-- src/core.c, `parse_func_call`: "foo(arg1, arg2)" becomes ["foo", "arg1", "arg2"].
pub mod RoundTrip
use prongc.Prelude.{
  ℕ, zero, suc, ◌+◌, Bool, true, false, ◌||◌, ◌&&◌, Option, none, some, List, [], ◌∷◌, ◌++◌, length,
  Str, leb, ◌==◌, if◌then◌else◌,
}
use prongc.DynAos.{ProngError, ok, syntax, invalid_arg}

-- `isspace`, in the C locale
abbrev pub isspace : ℕ → Bool
isspace c = c == b' ' || (leb 9 c && leb c 13)

-- `strchr(input, '(')`: what stands in front of the first parenthesis, and behind it
unfoldable pub split_paren : Str → Option (Str × Str)
split_paren [] = none
split_paren (c ∷ s) =
    if c == b'('
    then some ([], s)
    else elim (split_paren s) [ none ↦ none | some (l, r) ↦ some (c ∷ l, r) ]

-- `strrchr(paren, ')')`: what stands in front of the last closing parenthesis
unfoldable pub before_closing : Str → Option Str
before_closing [] = none
before_closing (c ∷ s) = elim (before_closing s) [
  | none ↦ if c == b')' then some [] else none
  | some l ↦ some (c ∷ l)
]

abbrev pub trim_cons : ℕ → Str → Str
trim_cons c [] = if isspace c then [] else c ∷ []
trim_cons c (d ∷ t) = c ∷ d ∷ t

-- the loops that step back over trailing whitespace
unfoldable pub trim_end : Str → Str
trim_end [] = []
trim_end (c ∷ s) = trim_cons c (trim_end s)

-- the loop that skips leading whitespace
unfoldable pub skip_space : Str → Str
skip_space [] = []
skip_space (c ∷ s) = if isspace c then skip_space s else c ∷ s

-- The loop that looks for the end of an argument. `depth` is the difference of `opened` and `closed`.
unfoldable pub take_arg : ℕ → ℕ → Str → Str × Str
take_arg opened closed [] = ([], [])
take_arg opened closed (c ∷ s) =
    let rest =
      take_arg (if c == b'(' then opened + 1 else opened) (if c == b')' then closed + 1 else closed)
        s in
    if c == b',' && opened == closed then ([], c ∷ s) else (c ∷ rest.0, rest.1)

abbrev pub skip_comma : Str → Str
skip_comma [] = []
skip_comma (c ∷ s) = if c == b',' then s else c ∷ s

abbrev pub push_nonempty : Str → List Str → List Str
push_nonempty [] out = out
push_nonempty (c ∷ s) out = (c ∷ s) ∷ out

abbrev pub is_empty : Str → Bool
is_empty [] = true
is_empty (c ∷ s) = false

-- The loop over the arguments between the parentheses. Each round takes at least one character.
unfoldable pub parse_args : ℕ → Str → List Str
parse_args zero s = []
parse_args (suc fuel) s =
    let start : Str = skip_space s in
    let found : Str × Str = take_arg 0 0 start in
    let rest : List Str = parse_args fuel (skip_comma found.1) in
    if is_empty start then [] else push_nonempty (trim_end found.0) rest

-- The code returned, and the strings pushed onto `out`. `input` is `none` where it is NULL.
unfoldable pub parse_func_call : Option Str → ProngError × List Str
unfolding split_paren before_closing parse_args
parse_func_call none = (invalid_arg, [])
parse_func_call (some input) = elim (split_paren input) [
  | none ↦ (syntax, [])
  | some (before, after) ↦
      let func_name : Str = trim_end before in
      if is_empty func_name then (syntax, []) else elim (before_closing after) [
        | none ↦ (syntax, func_name ∷ [])
        | some args ↦ (ok, func_name ∷ parse_args (length args + 1) args)
      ]
]
