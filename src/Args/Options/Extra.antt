-- ===== src/Args/Options/Extra.antt =====
-- Which arguments are handed on to clang, and when the call is refused.
use prongc.Prelude.{
  ℕ, ◌≡◌, ◌≢◌, refl, ap, ◌∙◌, Bool, true, false, ◌||◌, List, [], ◌∷◌, ◌++◌, append-nil,
  append_assoc, Str, codes, str_eq, arith, if◌then◌else◌,
}
use prongc.DynAos.{ok}
use prongc.Args.Split.{GlobResult}
use prongc.Args.Options.{Options, starts_with, process_arg, process_all, process_args}

-- An argument that the program takes for itself.
abbrev pub is_own : Str → Bool
is_own arg =
    starts_with (codes "--files=") arg
    || (starts_with (codes "--functions=") arg
        || (starts_with (codes "--trace=") arg
            || (starts_with (codes "--compdb-dir=") arg
                || (starts_with (codes "--lock-pairs=") arg
                    || (starts_with (codes "-j") arg
                        || (str_eq arg (codes "--track-locking")
                            || (str_eq arg (codes "--silence-warnings")
                                || (str_eq arg (codes "--verbose")
                                    || str_eq arg (codes "--help")))))))))

abbrev pub not_own : List Str → List Str
not_own [] = []
not_own (arg ∷ argv) = if is_own arg then not_own argv else arg ∷ not_own argv

if-append :
    (own : Bool) (xs ys : List Str) (x : Str)
    → (if own then xs else xs ++ x ∷ []) ++ ys ≡ xs ++ (if own then ys else x ∷ ys)
if-append true xs ys x = refl
if-append false xs ys x = append_assoc xs (x ∷ []) ys

module _ (glob : Str → GlobResult) (atoi : Str → ℕ) where
  extra-process_arg :
      (arg : Str) (o : Options)
      → (process_arg glob atoi arg o).extra_args
        ≡ (if is_own arg then o.extra_args else o.extra_args ++ arg ∷ [])
  unfolding process_arg
  extra-process_arg arg o = ground arith

  extra-process_all :
      (argv : List Str) (o : Options)
      → (process_all glob atoi argv o).extra_args ≡ o.extra_args ++ not_own argv
  unfolding process_all
  extra-process_all [] o = rw append-nil
  extra-process_all (arg ∷ argv) o =
      extra-process_all argv (process_arg glob atoi arg o)
      ∙ (ap (λ xs. xs ++ not_own argv) (extra-process_arg arg o)
          ∙ if-append (is_own arg) o.extra_args (not_own argv) arg)

  -- The arguments that the program does not take for itself are collected for clang in their order,
  -- behind those that were there, whatever code is returned.
  pub extra-process_args :
      (argv : List Str) (o : Options)
      → (process_args glob atoi argv o).1.extra_args ≡ o.extra_args ++ not_own argv
  unfolding process_args
  extra-process_args argv o = ground (arith, extra-process_all argv o)

  -- ERR_OK is returned only if at least one function and one file were named.
  pub process_args-named :
      (argv : List Str) (o : Options)
      → (process_args glob atoi argv o).0 ≡ ok
      → ((process_args glob atoi argv o).1.func_names ≢ [])
        × ((process_args glob atoi argv o).1.file_names ≢ [])
  unfolding process_args
  process_args-named argv o e = ground arith
