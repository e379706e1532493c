-- ===== src/Tests/Arguments.antt =====
-- What is read from the command line.
use prongc.Prelude.{ℕ, ◌≡◌, refl, some, List, [], ◌∷◌, Str, codes, str_eq}
use prongc.DynAos.{ok}
use prongc.Args.Call.{parse_func_call, trim_end, skip_space, take_arg}
use prongc.Args.Call.RoundTrip.{print_call, parse-print}
use prongc.Args.Split.{
  GlobResult, paths, pieces, push_pieces, glob_pieces, skip_blank, split_comma_list,
  split_semicolon_list,
}
use prongc.Args.Options.{init_options, process_arg, process_all, process_args, starts_with}

parse-print_example :
    parse_func_call (some (print_call (codes "f") (codes "x" ∷ codes "yy" ∷ [])))
    ≡ (ok, codes "f" ∷ codes "x" ∷ codes "yy" ∷ [])
parse-print_example =
    parse-print b'f' [] (codes "x" ∷ codes "yy" ∷ []) (refl, tt)
      ((refl, tt), ((refl, (refl, tt)), tt))

-- as it stands on a command line, with blanks
parse_example :
    parse_func_call (some (codes "f ( x , yy )")) ≡ (ok, codes "f" ∷ codes "x" ∷ codes "yy" ∷ [])
unfolding parse_func_call trim_end skip_space take_arg
parse_example = refl

-- a file system in which each pattern names one file, and a thread count of 4
abbrev one_file : Str → GlobResult
one_file s = paths (s ∷ [])

abbrev four : Str → ℕ
four s = 4

abbrev args : List Str
args = codes "--functions=f;g" ∷ codes "-I." ∷ codes "--files=a.c" ∷ []

args-ok : (process_args one_file four args init_options).0 ≡ ok
unfolding process_args process_arg process_all starts_with split_semicolon_list split_comma_list
    pieces push_pieces glob_pieces skip_blank str_eq
args-ok = refl
