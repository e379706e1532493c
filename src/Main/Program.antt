-- ===== src/Main/Program.antt =====
-- src/prong.c, `main` as a whole: what it calls in which order, and the code it returns.
pub mod Accepts
use prongc.Prelude.{
  ℕ, zero, suc, ◌+◌, Bool, true, false, not, ◌&&◌, ◌||◌, Option, none, some, List, [], ◌∷◌, ◌++◌,
  length, Str, ◌==◌, if◌then◌else◌,
}
use prongc.VarAccess.{VarAccess}
use prongc.DynAos.{ProngError, ok, not_found, syntax, invalid_arg, out_of_memory}
use prongc.Args.Split.{GlobResult}
use prongc.Args.Options.{Options, init_options, process_args}
use prongc.LockTracking.Pairs.{LockPrimitivePair, default_lock_pairs}
use prongc.LockTracking.Pairs.Table.{is_ok, fill_lock_pair_array}
use prongc.Core.Overlap.{find_va_overlap, find_unprotected_va}
use prongc.Clang.{Clang}
use prongc.Walk.{Run, done, and_then, or_fault, State}
use prongc.Main.{Mode, Outcome, err_not_found, traced, compared, run_checks}

-- `CXDiagnosticSeverity`
pub data Severity : Type 0 where
  ignored note warning error fatal : Severity

-- What is printed of the diagnostics: one of a file, that its warnings were held back, or that it has
-- errors.
pub data Message : Type 0 where
  error_at warning_at : ℕ → ℕ → Message
  suppressed errors_detected : ℕ → Message

-- What is outside of the program: `glob` and `atoi`; whether `malloc` finds memory for the state and
-- for the array of translation units; what it leaves in the slots for lock pairs; where it puts the
-- protection fields, and where `reallocarray` does; the diagnostics that libclang has of each file; and the comparison of the bytes of two accesses.
pub record Outside : Type 0 where
  pub glob : Str → GlobResult
  pub atoi : Str → ℕ
  pub priv_memory : Bool
  pub tu_memory : Bool
  pub slots : ℕ → List LockPrimitivePair
  pub fields_a : ℕ
  pub fields_b : ℕ
  pub realloc : ℕ → ℕ → Option ℕ
  pub diagnostics : ℕ → List Severity
  pub same : VarAccess → VarAccess → Bool

-- What `main` comes to: the code it returns, what it printed of the diagnostics, and the outcome of the
-- checks, if they were run.
pub record Exit : Type 0 where
  pub ret : ProngError
  pub messages : List Message
  pub outcome : Option Outcome

abbrev pub has_error : List Severity → Bool
has_error [] = false
has_error (error ∷ ds) = true
has_error (fatal ∷ ds) = true
has_error (d ∷ ds) = has_error ds

abbrev pub has_warning : List Severity → Bool
has_warning [] = false
has_warning (warning ∷ ds) = true
has_warning (d ∷ ds) = has_warning ds

-- the loop over the diagnostics of one file, from the one with index `j` on
unfoldable pub print_diagnostics : Bool → ℕ → ℕ → List Severity → List Message
print_diagnostics silence i j [] = []
print_diagnostics silence i j (error ∷ ds) = error_at i j ∷ print_diagnostics silence i (j + 1) ds
print_diagnostics silence i j (fatal ∷ ds) = error_at i j ∷ print_diagnostics silence i (j + 1) ds
print_diagnostics silence i j (warning ∷ ds) =
    let rest = print_diagnostics silence i (j + 1) ds in
    if silence then rest else warning_at i j ∷ rest
print_diagnostics silence i j (d ∷ ds) = print_diagnostics silence i (j + 1) ds

-- The loop over the files from `i` on, `n` of them: what is printed, and the first file with an error.
unfoldable pub diagnose : Bool → (ℕ → List Severity) → ℕ → ℕ → List Message × Option ℕ
unfolding print_diagnostics
diagnose silence diagnostics i zero = ([], none)
diagnose silence diagnostics i (suc n) =
    let ds = diagnostics i in
    let here =
      print_diagnostics silence i 0 ds
      ++ (if has_warning ds && silence then suppressed i ∷ [] else []) in
    let rest = diagnose silence diagnostics (i + 1) n in
    if has_error ds then (here ++ errors_detected i ∷ [], some i) else (here ++ rest.0, rest.1)

abbrev pub code_of : Outcome → ProngError
code_of err_not_found = not_found
code_of (traced ts) = ok
code_of (compared fs) = ok

-- a jump to a label, before the files are parsed
abbrev pub leave : ProngError → Exit
leave ret = record { ret = ret; messages = []; outcome = none }

module _ {C : Type 0} (clang : Clang C) (argument_usr : C → ℕ → Str) (room : Str → Bool)
    (outside : Outside) (st : State C) (fuel : ℕ) where
  abbrev pub mode_of : Options → List LockPrimitivePair → Mode
  mode_of o pairs = record {
    track_locking = o.track_locking;
    trace_var_names = o.trace_var_names;
    scan =
        if o.track_locking
        then find_unprotected_va outside.realloc pairs outside.fields_a outside.fields_b
        else find_va_overlap;
    same = outside.same;
  }

  -- `main` behind the diagnostics: what was printed of them, and the first file with an error
  unfoldable pub check_files : Options → List LockPrimitivePair → List Message → Option ℕ → Run Exit
  unfolding run_checks
  check_files o pairs messages (some i) =
      done (record { ret = syntax; messages = messages; outcome = none })
  check_files o pairs messages none =
      and_then
        (run_checks clang argument_usr room (mode_of o pairs) o.file_names o.func_names fuel st)
        (λ out. done (record { ret = code_of out; messages = messages; outcome = some out }))

  -- `main` from the parsing of the files on
  unfoldable pub parse_and_check : Options → List LockPrimitivePair → Run Exit
  unfolding diagnose check_files
  parse_and_check o pairs =
      let found = diagnose o.silence_warnings outside.diagnostics 0 (length o.file_names) in
      check_files o pairs found.0 found.1

  -- `main` from the table of lock pairs on
  unfoldable pub prepare : Options → Run Exit
  unfolding parse_and_check fill_lock_pair_array
  prepare o =
      and_then
        (or_fault (
          fill_lock_pair_array o.lock_pairs
            (outside.slots (length default_lock_pairs + length o.lock_pairs))))
        (λ r.
          if not (is_ok r.0)
          then done (leave r.0)
          else if o.help
          then done (leave ok)
          else if not outside.tu_memory
          then done (leave out_of_memory)
          else parse_and_check o r.1)

  -- `main`, on the arguments behind the program's name. What follows its labels, which gives back what was
  -- taken, is left out.
  unfoldable pub main : List Str → Run Exit
  unfolding prepare process_args
  main [] = done (leave invalid_arg)
  main (arg ∷ argv) =
      let parsed = process_args outside.glob outside.atoi (arg ∷ argv) init_options in
      if not outside.priv_memory
      then done (leave out_of_memory)
      else if not (is_ok parsed.0)
      then done (leave parsed.0)
      else prepare parsed.1
