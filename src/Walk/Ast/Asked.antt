-- ===== src/Walk/Ast/Asked.antt =====
-- What is collected: functions that were asked for, and global variables.
use prongc.Prelude.{
  ℕ, zero, suc, ◌+◌, ◌≡◌, ◌⊎◌, refl, sym, inl, inr, true, ◌&&◌, ◌||◌, Bool-cases, Option, none,
  some, List, [], ◌∷◌, ◌++◌, All, All-append, length, Str, str_eq, eq_of_str_eq, str_eq_refl, arith,
  ltb, ◌==◌, if◌then◌else◌, Holds, of_Holds, bind-Holds,
}
use prongc.DynAos.Query.{member}
use prongc.Args.Call.{parse_func_call}
use prongc.FuncInfo.{Func}
use prongc.Clang.{
  Clang, function_decl, var_decl, compound_stmt, is_kind, linkage_code, internal, external,
}
use prongc.Walk.{done, fault, or_fault, ChildVisit, continue_visit}
use prongc.Walk.Post.{Post, and_then-Post, or_fault-Post, visit_children-Post, returns-with-Post}
use prongc.Walk.Ast.{
  Gathered, found_func, match_func, match_funcs, walk_ast, process_tus, process_tu_array,
}

module _ {C : Type 0} (clang : Clang C) (func_names : List Str) where
  -- A function that one of the texts asks for, by its name and its number of arguments. It has not been
  -- walked yet.
  pub record Asked (f : Func C) : Type 0 where
    pub text : Str
    pub name : Str
    pub args : List Str
    pub given : member text func_names ≡ true
    pub parsed : (parse_func_call (some text)).1 ≡ name ∷ args
    pub named : clang.spelling f.cursor ≡ name
    pub count : length args ≡ clang.num_arguments f.cursor
    pub function : is_kind clang function_decl f.cursor ≡ true
    pub unwalked : f.var_accesses ≡ none
    pub defined : f.has_definition ≡ true

  -- the USR of a variable with external or internal linkage
  abbrev pub Global : Str → Type 0
  Global u =
      (c : C) × (is_kind clang var_decl c ≡ true)
      × ((linkage_code (clang.linkage c) == linkage_code external
            || linkage_code (clang.linkage c) == linkage_code internal)
          ≡ true)
      × (clang.usr c ≡ u)

  abbrev pub Collected : Gathered C → Type 0
  Collected priv = All Asked priv.funcs × All Global priv.global_usrs

  parsed-Asked :
      (p : C) (text : Str) (funcs : List (Func C)) (ps : List Str)
      → is_kind clang function_decl p ≡ true
      → member text func_names ≡ true
      → All Asked funcs
      → (parse_func_call (some text)).1 ≡ ps
      → Holds (All Asked) (elim ps as (λ _. Option (List (Func C))) [
        | [] ↦ none
        | parsed_name ∷ args ↦ some (
            if str_eq parsed_name (clang.spelling p)
            then (if ltb (length args) (clang.num_arguments p)
                then funcs
                else if ltb (clang.num_arguments p) (length args)
                then funcs
                else funcs ++ found_func clang func_names p ∷ [])
            else funcs)
      ])
  unfolding found_func
  parsed-Asked p text funcs [] k m h e = tt
  parsed-Asked p text funcs (n ∷ args) k m h e = elim (Bool-cases (str_eq n (clang.spelling p))) [
    | inr s ↦ rw (s) h
    | inl s ↦ elim (Bool-cases (ltb (length args) (clang.num_arguments p))) [
      | inl l ↦ rw (s, l) h
      | inr l ↦ elim (Bool-cases (ltb (clang.num_arguments p) (length args))) [
        | inl g ↦ rw (s, l, g) h
        | inr g ↦
            rw (s, l, g)
              (All-append Asked funcs (found_func clang func_names p ∷ []) h (
                record {
                  text = text;
                  name = n;
                  args = args;
                  given = m;
                  parsed = e;
                  named = sym (eq_of_str_eq n (clang.spelling p) s);
                  count = ground (arith, l, g);
                  function = k;
                  unwalked = refl;
                  defined = refl;
                },
                tt,
              ))
      ]
    ]
  ]

  match_func-Asked :
      (p : C) (text : Str) (funcs : List (Func C))
      → is_kind clang function_decl p ≡ true
      → member text func_names ≡ true
      → All Asked funcs
      → Holds (All Asked) (match_func clang func_names p text funcs)
  unfolding match_func found_func
  match_func-Asked p text funcs k m h =
      parsed-Asked p text funcs (parse_func_call (some text)).1 k m h refl

  match_funcs-Asked :
      (p : C) (names : List Str) (funcs : List (Func C))
      → is_kind clang function_decl p ≡ true
      → ((text : Str) → member text names ≡ true → member text func_names ≡ true)
      → All Asked funcs
      → Holds (All Asked) (match_funcs clang func_names p names funcs)
  unfolding match_funcs
  match_funcs-Asked p [] funcs k m h = h
  match_funcs-Asked p (name ∷ names) funcs k m h =
      bind-Holds (All Asked) (All Asked) (match_func clang func_names p name funcs)
        (match_funcs clang func_names p names)
        (match_func-Asked p name funcs k (m name (ground (arith, str_eq_refl name))) h)
        (λ fs a. match_funcs-Asked p names fs k (λ t e. m t (ground (arith, e))) a)

  walk_ast-Collected :
      (c p : C) (priv : Gathered C)
      → Collected priv
      → Post (λ r. Collected r.1) ⊥ (walk_ast clang func_names c p priv)
  unfolding walk_ast
  walk_ast-Collected c p priv h = elim (Bool-cases (clang.in_system_header c)) [
    | inl e ↦ rw (e) h
    | inr e ↦ elim (Bool-cases (is_kind clang compound_stmt c && is_kind clang function_decl p)) [
      | inl f ↦
          rw (e, f)
            (and_then-Post {A = List (Func C)} {B = ChildVisit × Gathered C} (All Asked)
              (λ r. Collected r.1) ⊥
              (or_fault (match_funcs clang func_names p func_names priv.funcs))
              (λ funcs. done (continue_visit, record priv { funcs = funcs }))
              (or_fault-Post (All Asked) ⊥ (match_funcs clang func_names p func_names priv.funcs)
                (λ fs q.
                  of_Holds (All Asked) (match_funcs clang func_names p func_names priv.funcs) fs
                    (match_funcs-Asked p func_names priv.funcs (ground (arith, f)) (λ t m. m) h.0)
                    q))
              (λ fs a. (a, h.1)))
      | inr f ↦ elim (Bool-cases (is_kind clang var_decl c)) [
        | inl v ↦
            elim (Bool-cases (
              linkage_code (clang.linkage c) == linkage_code external
              || linkage_code (clang.linkage c) == linkage_code internal)) [
                | inl g ↦
                    rw (e, f, v, g)
                      (
                        h.0,
                        All-append Global priv.global_usrs (clang.usr c ∷ []) h.1
                            ((c, v, g, refl), tt),
                      )
                | inr g ↦ rw (e, f, v, g) h
              ]
        | inr v ↦ rw (e, f, v) h
      ]
    ]
  ]

  process_tus-Collected :
      (i n : ℕ) (priv : Gathered C)
      → Collected priv
      → Post Collected ⊥ (process_tus clang func_names i n priv)
  unfolding process_tus
  process_tus-Collected i zero priv h = h
  process_tus-Collected i (suc n) priv h =
      and_then-Post Collected Collected ⊥ _ (process_tus clang func_names (i + 1) n)
        (visit_children-Post (walk_ast clang func_names) Collected ⊥ walk_ast-Collected
          (clang.tu_cursor i) (clang.below (clang.tu_cursor i)) priv h)
        (process_tus-Collected (i + 1) n)

  -- `process_tu_array`, begun with nothing collected, never runs out of fuel. Where it returns, every
  -- function that was collected is a function that one of the texts asks for, by its name and its
  -- number of arguments, with a definition and no accesses yet, and every USR that was collected is
  -- that of a variable with external or internal linkage.
  pub process_tu_array-Collected :
      (file_count : ℕ)
      → (process_tu_array clang func_names file_count (record { funcs = []; global_usrs = [] })
          ≡ fault)
        ⊎ ((t : Gathered C) × (process_tu_array clang func_names file_count
                (record { funcs = []; global_usrs = [] })
              ≡ done t)
            × Collected t)
  unfolding process_tu_array
  process_tu_array-Collected file_count =
      returns-with-Post Collected _
        (process_tus-Collected 0 file_count (record { funcs = []; global_usrs = [] }) (tt, tt))
