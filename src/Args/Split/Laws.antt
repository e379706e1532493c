-- ===== src/Args/Split/Laws.antt =====
-- Joining with a separator is undone by the split, and so is "foo@param".
use prongc.Prelude.{
  ℕ, suc, ◌+◌, ◌-◌, ◌≡◌, ◌≢◌, refl, ap, ◌∙◌, true, false, ◌||◌, none, some, List, [], ◌∷◌, ◌++◌,
  length, length-append, drop, get_elem?, All, Str, str_eq_refl, arith, ltb, ◌==◌,
}
use prongc.Args.Split.{
  pieces, push_pieces, split_semicolon_list, mark_postfix_func_name, is_usr_param_postfix,
}

-- an entry of a list: not empty, no semicolon in it, and no blank in front
abbrev pub Entries : List Str → Type 0
Entries [] = Unit
Entries ([] ∷ es) = ⊥
Entries ((c ∷ e) ∷ es) =
    ((c == b' ' || c == b'\t') ≡ false) × All (λ d. d ≢ b';') (c ∷ e) × Entries es

unfoldable pub join_semicolon : Str → List Str → Str
join_semicolon e [] = e
join_semicolon e (f ∷ es) = e ++ b';' ∷ join_semicolon f es

pieces-last : (e : Str) → All (λ d. d ≢ b';') e → pieces b';' e ≡ e ∷ []
unfolding pieces
pieces-last [] h = refl
pieces-last (c ∷ e) h = ground (arith, pieces-last e h.1)

pieces-append :
    (e rest : Str) → All (λ d. d ≢ b';') e → pieces b';' (e ++ b';' ∷ rest) ≡ e ∷ pieces b';' rest
unfolding pieces
pieces-append [] rest h = refl
pieces-append (c ∷ e) rest h = ground (arith, pieces-append e rest h.1)

pieces-join :
    (e : Str) (es : List Str) → Entries (e ∷ es) → pieces b';' (join_semicolon e es) ≡ e ∷ es
unfolding join_semicolon
pieces-join [] es w = elim w [ ]
pieces-join (c ∷ e) [] w = pieces-last (c ∷ e) w.1
pieces-join (c ∷ e) (f ∷ es) w =
    pieces-append (c ∷ e) (join_semicolon f es) w.1 ∙ ap (◌∷◌ (c ∷ e)) (pieces-join f es w.2)

push-Entries : (es : List Str) → Entries es → push_pieces es ≡ es
unfolding push_pieces
push-Entries [] w = refl
push-Entries ([] ∷ es) w = elim w [ ]
push-Entries ((c ∷ e) ∷ es) w = rw (w.0) (ap (◌∷◌ (c ∷ e)) (push-Entries es w.2))

-- A list of entries that are not empty, hold no semicolon and do not start with a blank is split
-- into those entries, in order.
split-join :
    (e : Str) (es : List Str)
    → Entries (e ∷ es)
    → split_semicolon_list (join_semicolon e es) ≡ e ∷ es
unfolding split_semicolon_list
split-join e es w = rw (pieces-join e es w) (push-Entries (e ∷ es) w)

mark-append :
    (l r : Str) → All (λ d. d ≢ b'@') l → mark_postfix_func_name (l ++ b'@' ∷ r) ≡ some (l, r)
unfolding mark_postfix_func_name
mark-append [] r h = refl
mark-append (c ∷ l) r h = ground (arith, mark-append l r h.1)

mark-none : (s : Str) → All (λ d. d ≢ b'@') s → mark_postfix_func_name s ≡ none
unfolding mark_postfix_func_name
mark-none [] h = refl
mark-none (c ∷ s) h = ground (arith, mark-none s h.1)

-- A trace argument "foo@param" is cut at its first '@', and one without '@' is taken for the name of
-- a global variable.
mark_postfix_cases :
    (l r : Str)
    → All (λ d. d ≢ b'@') l
    → (mark_postfix_func_name (l ++ b'@' ∷ r) ≡ some (l, r)) × (mark_postfix_func_name l ≡ none)
mark_postfix_cases l r h = (mark-append l r h, mark-none l h)

drop-prefix : (prefix name : Str) (c : ℕ) → drop (suc (length prefix)) (prefix ++ c ∷ name) ≡ name
drop-prefix [] name c = refl
drop-prefix (d ∷ prefix) name c = drop-prefix prefix name c

get-prefix : (prefix name : Str) (c : ℕ) → get_elem? (prefix ++ c ∷ name) (length prefix) ≡ some c
get-prefix [] name c = refl
get-prefix (d ∷ prefix) name c = get-prefix prefix name c

-- A USR that ends in '@' and the name has the name for its postfix; so has the name itself; a USR in
-- which another character stands in front of the name has not.
usr_postfix :
    (prefix name : Str) (c : ℕ)
    → (is_usr_param_postfix (prefix ++ c ∷ name) name ≡ (c == b'@'))
      × (is_usr_param_postfix name name ≡ true)
unfolding is_usr_param_postfix
usr_postfix prefix name c =
    let n : length (prefix ++ c ∷ name) ≡ length prefix + suc (length name) =
      length-append prefix (c ∷ name) in
    let gap : length (prefix ++ c ∷ name) - length name ≡ suc (length prefix) = omega arith in
    let gap' : length (prefix ++ c ∷ name) - length name - 1 ≡ length prefix = omega arith in
    let fits : ltb (length (prefix ++ c ∷ name)) (length name) ≡ false = ground arith in
    let longer : ltb (length name) (length (prefix ++ c ∷ name)) ≡ true = ground arith in
    let none_left : length name - length name ≡ 0 = omega arith in
    let same : ltb (length name) (length name) ≡ false = ground arith in
    (
      rw
          (
            fits,
            longer,
            gap',
            gap,
            drop-prefix prefix name c,
            get-prefix prefix name c,
            str_eq_refl name,
          )
          (ground arith),
      rw (same, none_left, str_eq_refl name),
    )
