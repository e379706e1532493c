-- ===== src/Args/Options.antt =====
-- src/core.c, `process_args`: the arguments of the program.
pub mod Extra
use prongc.Prelude.{
  ℕ, Bool, true, false, ◌||◌, ◌&&◌, Option, none, some, List, [], ◌∷◌, ◌++◌, length, drop, Str,
  codes, str_eq, ◌==◌, if◌then◌else◌,
}
use prongc.DynAos.{ProngError, ok, invalid_arg}
use prongc.Args.Split.{GlobResult, split_semicolon_list, split_comma_list}

-- The fields of `struct prong_priv` that the arguments set, and the global flags.
pub record Options : Type 0 where
  pub file_names : List Str
  pub func_names : List Str
  pub trace_var_names : List Str
  pub lock_pairs : List Str
  pub extra_args : List Str
  pub compdb_dir : Option Str
  pub max_threads : ℕ
  pub track_locking : Bool
  pub silence_warnings : Bool
  pub verbose : Bool
  pub help : Bool

-- `prong_init_priv`, for these fields; DEFAULT_MAX_THREADS is 2.
abbrev pub init_options : Options
init_options = record {
  file_names = [];
  func_names = [];
  trace_var_names = [];
  lock_pairs = [];
  extra_args = [];
  compdb_dir = none;
  max_threads = 2;
  track_locking = false;
  silence_warnings = false;
  verbose = false;
  help = false;
}

-- `strncmp(arg, prefix, strlen(prefix)) == 0`
unfoldable pub starts_with : Str → Str → Bool
starts_with [] arg = true
starts_with (p ∷ prefix) [] = false
starts_with (p ∷ prefix) (c ∷ arg) = p == c && starts_with prefix arg

-- `glob`, and `atoi` with its result as a `size_t`
module _ (glob : Str → GlobResult) (atoi : Str → ℕ) where
  -- the body of the loop
  unfoldable pub process_arg : Str → Options → Options
  process_arg arg o =
      if starts_with (codes "--files=") arg
      then record o { file_names = o.file_names ++ split_comma_list glob (drop 8 arg) }
      else if starts_with (codes "--functions=") arg
      then record o { func_names = o.func_names ++ split_semicolon_list (drop 12 arg) }
      else if starts_with (codes "--trace=") arg
      then record o { trace_var_names = o.trace_var_names ++ split_semicolon_list (drop 8 arg) }
      else if starts_with (codes "--compdb-dir=") arg
      then record o { compdb_dir = some (drop 13 arg) }
      else if starts_with (codes "--lock-pairs=") arg
      then record o {
        lock_pairs = o.lock_pairs ++ split_semicolon_list (drop 13 arg);
        track_locking = true;
      }
      else if starts_with (codes "-j") arg
      then record o { max_threads = atoi (drop 2 arg) }
      else if str_eq arg (codes "--track-locking")
      then record o { track_locking = true }
      else if str_eq arg (codes "--silence-warnings")
      then record o { silence_warnings = true }
      else if str_eq arg (codes "--verbose")
      then record o { verbose = true }
      else if str_eq arg (codes "--help")
      then record o { help = true }
      else record o { extra_args = o.extra_args ++ arg ∷ [] }

  unfoldable pub process_all : List Str → Options → Options
  unfolding process_arg starts_with
  process_all [] o = o
  process_all (arg ∷ argv) o = process_all argv (process_arg arg o)

  -- `process_args`, on the arguments behind the program's name
  unfoldable pub process_args : List Str → Options → ProngError × Options
  unfolding process_all
  process_args argv o =
      let p : Options = process_all argv o in
      if length p.func_names == 0 || length p.file_names == 0 then (invalid_arg, p) else (ok, p)
