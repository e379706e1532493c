-- ===== src/Main/Ends.antt =====
-- `main` ends.
use prongc.Prelude.{
  ℕ, ◌<◌, ◌≡◌, ◌⊎◌, inl, inr, Bool, true, Bool-cases, Option, none, some, List, [], ◌∷◌, length,
  Str, ◌==◌,
}
use prongc.DynAos.Query.{member}
use prongc.FuncInfo.{Func, func_info, no_array}
use prongc.Clang.{Clang}
use prongc.Walk.{Run, done, fault, State, or_fault}
use prongc.Walk.Post.{Post, and_then-Post, returns-Post}
use prongc.Walk.Visit.{process_func_info}
use prongc.Walk.Ends.{process-returns}
use prongc.Walk.Ast.{Gathered, process_tu_array}
use prongc.Walk.Ast.Asked.{process_tu_array-Collected}
use prongc.Main.{Mode, Outcome, walk_funcs, check_funcs, run_checks}

-- returns, or meets something that is undefined
abbrev pub Ends : {A : Type 0} → Run A → Type 0
Ends {A} r = Post (λ (a : A). Unit) ⊥ r

pub ends :
    {A : Type 0} (Q : A → Type 0) (r : Run A)
    → (r ≡ fault) ⊎ ((a : A) × (r ≡ done a) × Q a)
    → Ends r
ends Q r (inl e) = rw (e) tt
ends Q r (inr (a, e, q)) = rw (e) tt

pub or_fault-Ends : {A : Type 0} (o : Option A) → Ends (or_fault o)
or_fault-Ends none = tt
or_fault-Ends (some a) = tt

module _ {C : Type 0} (clang : Clang C) (argument_usr : C → ℕ → Str) (room : Str → Bool)
    (mode : Mode) (file_names func_names us : List Str)
    (known : (c : C) → member (clang.usr c) us ≡ true) where
  walk_funcs-Ends :
      (fuel : ℕ) (fs : List (Func C)) (st : State C)
      → length us < fuel
      → Ends (walk_funcs clang argument_usr room mode file_names func_names fuel fs st)
  unfolding walk_funcs
  walk_funcs-Ends fuel [] st h = tt
  walk_funcs-Ends fuel (f ∷ fs) st h =
      let s : State C = record st { current_func = f; callees = no_array } in
      and_then-Post (λ (t : State C). Unit) _ ⊥
        (process_func_info clang mode.track_locking file_names fuel s) _
        (elim (process-returns clang mode.track_locking file_names us known fuel s h) [
          | inl e ↦ rw (e) tt
          | inr (t, e) ↦ rw (e) tt
        ])
        (λ t u.
          and_then-Post _ _ ⊥
            (walk_funcs clang argument_usr room mode file_names func_names fuel fs t)
            (λ gs. done (func_info t.current_func t.callees ∷ gs)) (walk_funcs-Ends fuel fs t h)
            (λ gs v. tt))

  pub run_checks-Ends :
      (fuel : ℕ) (st : State C)
      → length us < fuel
      → Ends (run_checks clang argument_usr room mode file_names func_names fuel st)
  unfolding run_checks
  run_checks-Ends fuel st h =
      and_then-Post (λ (p : Gathered C). Unit) _ ⊥
        (process_tu_array clang func_names (length file_names) _) _
        (ends _ _ (process_tu_array-Collected clang func_names (length file_names)))
        (λ p u. elim (Bool-cases (length p.funcs == length func_names)) [
          | inr e ↦ rw (e) tt
          | inl e ↦ rw (e) (
              and_then-Post _ _ ⊥
                (walk_funcs clang argument_usr room mode file_names func_names fuel p.funcs st) _
                (walk_funcs-Ends fuel p.funcs st h)
                (λ fs v. or_fault-Ends (
                  check_funcs clang argument_usr room mode file_names func_names p.global_usrs fs)))
        ])

  -- If the program has a finite list of USRs, then one level of recursion more than the list is long is
  -- enough for all that `main` does from `process_tu_array` on: it never runs out of fuel, so that it
  -- returns, or meets something that C leaves undefined.
  pub run_checks-returns :
      (fuel : ℕ) (st : State C)
      → length us < fuel
      → (run_checks clang argument_usr room mode file_names func_names fuel st ≡ fault)
        ⊎ ((o : Outcome) × (run_checks clang argument_usr room mode file_names func_names fuel st
              ≡ done o))
  run_checks-returns fuel st h =
      returns-Post (λ (o : Outcome). Unit)
        (run_checks clang argument_usr room mode file_names func_names fuel st)
        (run_checks-Ends fuel st h)
