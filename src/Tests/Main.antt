-- ===== src/Tests/Main.antt =====
-- The main program on a small one.
use prongc.Prelude.{
  ℕ, ◌≡◌, ◌<◌, refl, true, false, none, some, List, [], ◌∷◌, Str, codes, str_eq, length,
}
use prongc.Args.Call.{parse_func_call, trim_end, skip_space, take_arg}
use prongc.VarAccess.{VarAccess, init_var_access, write, no_idx, va_is_placeholder_type}
use prongc.FuncInfo.{Func, FuncInfo, init_func_info}
use prongc.CursorStack.{
  cursors_are_equal, prong_is_system_header, get_cursor_offset_of_kind, get_binop_assignment_offset,
  operator_is_assignment,
}
use prongc.Walk.{Run, done, fault, out_of_fuel}
use prongc.Main.{
  Finding, Footprints, Mode, compared, walk_funcs, unwind_funcs, build_footprints, check_funcs,
  compare_all,
}
use prongc.Core.Overlap.{find_va_overlap}
use prongc.Main.Lessened.{Lessened, Done}
use prongc.Main.Accounts.{Accounted}
use prongc.Main.Reported.{Found}
use prongc.Main.Pairs.{AllNamed, compare_all-Returns}
use prongc.Main.Runs.{fits_all, check_funcs-returns}
use prongc.Tests.Tree.{small, files, start, worker, argument_usr}

abbrev texts : List Str
texts = codes "helper(shared)" ∷ codes "worker(shared)" ∷ []

abbrev helper : Func ℕ
helper =
    init_func_info 20 (some (codes "c:helper")) (some (codes "helper")) (some (codes "helper"))
      false true

-- neither --track-locking nor --trace
abbrev plain : Mode
plain = record {
  track_locking = false;
  trace_var_names = [];
  scan = find_va_overlap;
  same = λ va vb. false;
}

abbrev funcs : List (Func ℕ)
funcs = helper ∷ worker ∷ []

abbrev list_of : Run (List (FuncInfo ℕ)) → List (FuncInfo ℕ)
list_of (done fs) = fs
list_of fault = []
list_of out_of_fuel = []

walked : List (FuncInfo ℕ)
unfolding walk_funcs
walked = list_of (walk_funcs small argument_usr (λ s. true) plain files texts 3 funcs start)

walks : walk_funcs small argument_usr (λ s. true) plain files texts 3 funcs start ≡ done walked
unfolding walk_funcs walked cursors_are_equal prong_is_system_header str_eq
    get_cursor_offset_of_kind
walks = refl

walked_fits : fits_all texts 0 walked ≡ true
unfolding walked walk_funcs parse_func_call get_cursor_offset_of_kind cursors_are_equal
    prong_is_system_header str_eq trim_end skip_space take_arg get_binop_assignment_offset
    operator_is_assignment
walked_fits = refl

check_funcs-returns_example :
    (gs : List (FuncInfo ℕ)) × (fps : Footprints) × (found : List Finding) × (unwind_funcs small
        argument_usr
        (λ s. true)
        plain
        files
        texts
        0
        walked
      ≡ some gs)
    × (build_footprints gs ≡ some fps)
    × (check_funcs small argument_usr (λ s. true) plain files texts [] walked
        ≡ some (compared found))
    × Found fps found
check_funcs-returns_example =
    check_funcs-returns small argument_usr (λ s. true) (λ s. refl) plain files texts 3 funcs start
      [] walked refl refl (refl, (refl, tt)) walks walked_fits

-- both functions write `shared`, one reads it after that
abbrev to_shared : VarAccess
to_shared =
    init_var_access (some (codes "c:shared")) (some (codes "shared")) none none (some (codes "f"))
      no_idx 1 1 write false

abbrev two : Footprints
two = (to_shared ∷ to_shared ∷ []) ∷ (to_shared ∷ []) ∷ []

two-AllNamed : AllNamed two
unfolding init_var_access va_is_placeholder_type
two-AllNamed = ((refl, (refl, tt)), ((refl, tt), tt))

compare_all-Returns_example :
    (r : Footprints × List Finding) × (compare_all find_va_overlap two ≡ some r)
    × AllNamed r.0
    × (length r.0 ≡ length two)
    × Lessened two r.0
    × Accounted two r.0 r.1
    × ((i j : ℕ) → i < length two → j < length two → Done i j r.0)
    × Found two r.1
compare_all-Returns_example = compare_all-Returns two two-AllNamed
