-- ===== src/Args/Split.antt =====
-- src/core.c: lists with a separator, and the two halves of "foo@param".
pub mod Laws
use prongc.Prelude.{
  ℕ, ◌+◌, ◌-◌, Bool, true, false, not, ◌||◌, ◌&&◌, Option, none, some, List, [], ◌∷◌, ◌++◌, length,
  get_elem?, drop, Str, str_eq, ltb, ◌==◌, if◌then◌else◌,
}
use prongc.Args.Call.{push_nonempty}

abbrev pub add_to_first : ℕ → List Str → List Str
add_to_first c [] = (c ∷ []) ∷ []
add_to_first c (p ∷ ps) = (c ∷ p) ∷ ps

-- Each separator becomes a NUL, which cuts the copy of the string into pieces.
unfoldable pub pieces : ℕ → Str → List Str
pieces sep [] = [] ∷ []
pieces sep (c ∷ s) = let rest = pieces sep s in if c == sep then [] ∷ rest else add_to_first c rest

-- `while (*temp == ' ' || *temp == '\t') temp++`
unfoldable pub skip_blank : Str → Str
skip_blank [] = []
skip_blank (c ∷ s) = if c == b' ' || c == b'\t' then skip_blank s else c ∷ s

unfoldable pub push_pieces : List Str → List Str
unfolding skip_blank
push_pieces [] = []
push_pieces (p ∷ ps) = push_nonempty (skip_blank p) (push_pieces ps)

-- `split_semicolon_list`: the strings pushed
unfoldable pub split_semicolon_list : Str → List Str
unfolding pieces push_pieces
split_semicolon_list str_in = push_pieces (pieces b';' str_in)

-- What `glob` returns: the paths, or one of its errors.
pub data GlobResult : Type 0 where
  paths : List Str → GlobResult
  no_space aborted no_match : GlobResult

abbrev pub found_paths : GlobResult → List Str
found_paths (paths ps) = ps
found_paths _ = []

module _ (glob : Str → GlobResult) where
  abbrev pub glob_nonempty : Str → List Str
  glob_nonempty [] = []
  glob_nonempty (c ∷ s) = found_paths (glob (c ∷ s))

  unfoldable pub glob_pieces : List Str → List Str
  unfolding skip_blank
  glob_pieces [] = []
  glob_pieces (p ∷ ps) = glob_nonempty (skip_blank p) ++ glob_pieces ps

  -- `split_comma_list`: the paths pushed
  unfoldable pub split_comma_list : Str → List Str
  unfolding pieces glob_pieces
  split_comma_list str_in = glob_pieces (pieces b',' str_in)

-- `mark_postfix_func_name`: what stands in front of the first '@' and behind it, `none` for NULL
unfoldable pub mark_postfix_func_name : Str → Option (Str × Str)
mark_postfix_func_name [] = none
mark_postfix_func_name (c ∷ s) =
    if c == b'@'
    then some ([], s)
    else elim (mark_postfix_func_name s) [ none ↦ none | some (l, r) ↦ some (c ∷ l, r) ]

abbrev pub is_at : Option ℕ → Bool
is_at none = false
is_at (some c) = c == b'@'

-- `is_usr_param_postfix`
unfoldable pub is_usr_param_postfix : Str → Str → Bool
is_usr_param_postfix usr param_name =
    let usr_len : ℕ = length usr in
    let param_len : ℕ = length param_name in
    if ltb usr_len param_len
    then false
    else if not (str_eq (drop (usr_len - param_len) usr) param_name)
    then false
    else if ltb param_len usr_len && not (is_at (get_elem? usr (usr_len - param_len - 1)))
    then false
    else true
