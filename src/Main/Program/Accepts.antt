-- ===== src/Main/Program/Accepts.antt =====
-- When `main` returns ERR_OK.
use prongc.Prelude.{
  ℕ, zero, suc, ◌+◌, ◌≡◌, ◌≢◌, refl, ◌⊎◌, subst, inl, inr, Bool, true, false, not, Bool-cases, ◌&&◌,
  Option, none, some, List, [], ◌∷◌, length, Str, arith,
}
use prongc.DynAos.{ProngError, ok}
use prongc.Args.Options.{Options, init_options, process_args}
use prongc.Args.Options.Extra.{process_args-named}
use prongc.LockTracking.Pairs.{LockPrimitivePair, default_lock_pairs}
use prongc.LockTracking.Pairs.Table.{is_ok, fill_lock_pair_array}
use prongc.Clang.{Clang}
use prongc.Walk.{done, or_fault, State}
use prongc.Walk.Post.{Post, Post-mono, then-Post, if-Post, unless-Post}
use prongc.Main.{Outcome, run_checks}
use prongc.Main.Program.{
  Severity, Message, Outside, Exit, diagnose, has_error, code_of, mode_of, check_files,
  parse_and_check, prepare, main,
}

-- No file from `i` on, of `n` files, has an error.
abbrev pub clean : (ℕ → List Severity) → ℕ → ℕ → Bool
clean diagnostics i zero = true
clean diagnostics i (suc n) = not (has_error (diagnostics i)) && clean diagnostics (i + 1) n

diagnose-clean :
    (silence : Bool) (diagnostics : ℕ → List Severity) (i n : ℕ)
    → (diagnose silence diagnostics i n).1 ≡ none
    → clean diagnostics i n ≡ true
unfolding diagnose
diagnose-clean silence diagnostics i zero h = refl
diagnose-clean silence diagnostics i (suc n) h = elim (Bool-cases (has_error (diagnostics i))) [
  | inl e ↦ absurd (found (rw (e) at h))
  | inr e ↦ rw (e) (diagnose-clean silence diagnostics (i + 1) n (rw (e) at h))
]
  where
    found : {k : ℕ} → some k ≡ none → ⊥
    found e = cc

of_or_fault :
    (o : Option (ProngError × List LockPrimitivePair)) (c : ProngError)
    (ps : List LockPrimitivePair)
    → or_fault o ≡ done (c, ps)
    → c ≡ ok
    → o ≡ some (ok, ps)
of_or_fault none c ps e q = cc
of_or_fault (some p) c ps e q = cc

module _ {C : Type 0} (clang : Clang C) (argument_usr : C → ℕ → Str) (room : Str → Bool)
    (outside : Outside) (st : State C) (fuel : ℕ) where
  -- The checks were run, and came to an outcome.
  abbrev pub Checked : Options → Option Outcome → Type 0
  Checked o outcome =
      (clean outside.diagnostics 0 (length o.file_names) ≡ true)
      × ((pairs : List LockPrimitivePair) × (out : Outcome) × (fill_lock_pair_array o.lock_pairs
              (outside.slots (length default_lock_pairs + length o.lock_pairs))
            ≡ some (ok, pairs))
          × (run_checks clang argument_usr room
                (mode_of clang argument_usr room outside st fuel o pairs) o.file_names o.func_names
                fuel st
              ≡ done out)
          × (outcome ≡ some out)
          × (is_ok (code_of out) ≡ true))

  abbrev Prepared : Options → Exit → Type 0
  Prepared o l =
      is_ok l.ret ≡ true
      → ((o.help ≡ true) × (l.outcome ≡ none)) ⊎ ((o.help ≡ false) × Checked o l.outcome)

  is_ok-ok : (e : ProngError) → is_ok e ≡ true → e ≡ ok
  is_ok-ok e h = ground arith

  check-Prepared :
      (o : Options) (pairs : List LockPrimitivePair) (ms : List Message) (first : Option ℕ)
      → fill_lock_pair_array o.lock_pairs
          (outside.slots (length default_lock_pairs + length o.lock_pairs))
        ≡ some (ok, pairs)
      → o.help ≡ false
      → (first ≡ none → clean outside.diagnostics 0 (length o.file_names) ≡ true)
      → Post
          (Prepared o)
          Unit
          (check_files clang argument_usr room outside st fuel o pairs ms first)
  unfolding check_files
  check-Prepared o pairs ms (some k) filled n c = λ h. absurd (refused h)
    where
      refused : false ≡ true → ⊥
      refused h = cc
  check-Prepared o pairs ms none filled n c =
      then-Post (Prepared o)
        (run_checks clang argument_usr room
          (mode_of clang argument_usr room outside st fuel o pairs) o.file_names o.func_names fuel
          st)
        _ (λ out e h. inr (n, (c refl, (pairs, out, filled, e, refl, h))))

  prepare-Prepared :
      (o : Options) → Post (Prepared o) Unit (prepare clang argument_usr room outside st fuel o)
  unfolding prepare parse_and_check
  prepare-Prepared o =
      let n : ℕ = length o.file_names in
      let filled : Option (ProngError × List LockPrimitivePair) =
        fill_lock_pair_array o.lock_pairs
          (outside.slots (length default_lock_pairs + length o.lock_pairs)) in
      then-Post (Prepared o) (or_fault filled) _ (λ p e.
        unless-Post (Prepared o) Unit (is_ok p.0) _ _ (λ q h. absurd (both q h))
          (λ q.
            if-Post (Prepared o) Unit o.help _ _ (λ h _. inl (h, refl))
              (λ off.
                unless-Post (Prepared o) Unit outside.tu_memory _ _ (λ m h. absurd (refused h))
                  (λ m.
                    check-Prepared o p.1 (diagnose o.silence_warnings outside.diagnostics 0 n).0
                      (diagnose o.silence_warnings outside.diagnostics 0 n).1
                      (of_or_fault filled p.0 p.1 e (is_ok-ok p.0 q)) off
                      (diagnose-clean o.silence_warnings outside.diagnostics 0 n)))))
    where
      refused : false ≡ true → ⊥
      refused h = cc

      both : {b : Bool} → b ≡ false → b ≡ true → ⊥
      both e h = cc

  abbrev Accepts : List Str → ProngError → Option Outcome → Type 0
  Accepts argv ret outcome =
      is_ok ret ≡ true
      → (((process_args outside.glob outside.atoi argv init_options).1.func_names ≢ [])
          × ((process_args outside.glob outside.atoi argv init_options).1.file_names ≢ []))
        × ((((process_args outside.glob outside.atoi argv init_options).1.help ≡ true)
              × (outcome ≡ none))
            ⊎ (((process_args outside.glob outside.atoi argv init_options).1.help ≡ false)
                × Checked (process_args outside.glob outside.atoi argv init_options).1 outcome))

  run-Accepts :
      (argv : List Str)
      → Post
          (λ (l : Exit). Accepts argv l.ret l.outcome)
          Unit
          (main clang argument_usr room outside st fuel argv)
  unfolding main
  run-Accepts [] = λ h. absurd (refused h)
    where
      refused : false ≡ true → ⊥
      refused h = cc
  run-Accepts (arg ∷ argv) =
      let parsed = process_args outside.glob outside.atoi (arg ∷ argv) init_options in
      let Q : Exit → Type 0 = λ l. Accepts (arg ∷ argv) l.ret l.outcome in
      unless-Post Q Unit outside.priv_memory _ _ (λ m h. absurd (refused h))
        (λ m.
          unless-Post Q Unit (is_ok parsed.0) _ _ (λ e h. absurd (both e h))
            (λ e.
              Post-mono (Prepared parsed.1) Q Unit
                (prepare clang argument_usr room outside st fuel parsed.1)
                (λ l p h. (
                  process_args-named outside.glob outside.atoi (arg ∷ argv) init_options
                      (is_ok-ok parsed.0 e),
                  p h,
                ))
                (prepare-Prepared parsed.1)))
    where
      refused : false ≡ true → ⊥
      refused h = cc

      both : {b : Bool} → b ≡ false → b ≡ true → ⊥
      both e h = cc

  -- `main` returns ERR_OK only if a function and a file are named. Then either --help is given and no
  -- check was run, or it is not given, no file has an error, the pairs of locks were accepted, and the
  -- checks were run to an outcome other than ERR_NOT_FOUND.
  pub main-ok :
      (argv : List Str) (x : Exit)
      → main clang argument_usr room outside st fuel argv ≡ done x
      → is_ok x.ret ≡ true
      → (((process_args outside.glob outside.atoi argv init_options).1.func_names ≢ [])
          × ((process_args outside.glob outside.atoi argv init_options).1.file_names ≢ []))
        × ((((process_args outside.glob outside.atoi argv init_options).1.help ≡ true)
              × (x.outcome ≡ none))
            ⊎ (((process_args outside.glob outside.atoi argv init_options).1.help ≡ false)
                × Checked (process_args outside.glob outside.atoi argv init_options).1 x.outcome))
  main-ok argv x e =
      subst (Post (λ (y : Exit). Accepts argv y.ret y.outcome) Unit) e (run-Accepts argv)
