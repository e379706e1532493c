-- ===== src/Main.antt =====
-- src/prong.c, `main` behind the parsing of the files: the functions are found, walked and unwound, and
-- traced or compared with each other.
pub mod Accounts
pub mod Lessened
pub mod Reported
pub mod Pairs
pub mod Locked
pub mod Runs
pub mod Ends
pub mod Program
use prongc.Prelude.{
  ℕ, zero, suc, ◌+◌, Bool, true, false, not, Option, none, some, List, [], ◌∷◌, ◌++◌, map, length,
  get_elem?, set, Str, ◌==◌, if◌then◌else◌, ◌>>=◌,
}
use prongc.VarAccess.{VarAccess}
use prongc.FuncInfo.{Func, FuncInfo, func_info, no_array}
use prongc.Args.Call.{parse_func_call}
use prongc.Clang.{Clang}
use prongc.Core.Footprint.{build_var_access_footprint}
use prongc.Core.Overlap.{Report, Scan}
use prongc.Core.Trace.{Traced, find_exclusive_va_names}
use prongc.Core.Unwind.{string_at, unwind_func_info}
use prongc.Walk.{Run, done, and_then, or_fault, State}
use prongc.Walk.Ast.{Gathered, process_tu_array}
use prongc.Walk.Visit.{process_func_info}

-- What is printed for two functions, by their indices.
pub record Finding : Type 0 where
  pub func_a : ℕ
  pub func_b : ℕ
  pub report : Report

-- The footprints are changed in place.
abbrev pub Footprints : Type 0
Footprints = List (List VarAccess)

abbrev pub tag : ℕ → ℕ → Report → Finding
tag i j r = record { func_a = i; func_b = j; report = r }

-- `scan` is the comparison of two footprints: `find_va_overlap`, or `find_unprotected_va`.
module _ (scan : List VarAccess → List VarAccess → Option Scan) where
  -- the body of the loop over pairs
  unfoldable pub compare_pair : ℕ → ℕ → Footprints → Option (Footprints × List Finding)
  compare_pair i j fps =
      if i == j
      then some (fps, [])
      else get_elem? fps i >>= λ a. get_elem? fps j >>= λ b.
          scan a b >>= λ s. some (set (set fps i s.vas_a) j s.vas_b, map (tag i j) s.found)

  -- the inner loop, with `n` functions left
  unfoldable pub compare_row : ℕ → ℕ → ℕ → Footprints → Option (Footprints × List Finding)
  unfolding compare_pair
  compare_row i j zero fps = some (fps, [])
  compare_row i j (suc n) fps =
      compare_pair i j fps >>= λ r. compare_row i (j + 1) n r.0 >>= λ s. some (s.0, r.1 ++ s.1)

  -- the outer loop over `size` functions, with `n` of them left
  unfoldable pub compare_rows : ℕ → ℕ → ℕ → Footprints → Option (Footprints × List Finding)
  unfolding compare_row
  compare_rows size i zero fps = some (fps, [])
  compare_rows size i (suc n) fps = compare_row i 0 size fps >>= λ r.
      compare_rows size (i + 1) n r.0 >>= λ s. some (s.0, r.1 ++ s.1)

  unfoldable pub compare_all : Footprints → Option (Footprints × List Finding)
  unfolding compare_rows
  compare_all fps = compare_rows (length fps) 0 (length fps) fps

-- the loop that builds the footprints
unfoldable pub build_footprints : {C : Type 0} → List (FuncInfo C) → Option Footprints
unfolding build_var_access_footprint
build_footprints [] = some []
build_footprints (f ∷ fs) =
    build_var_access_footprint f [] >>= λ r. build_footprints fs >>= λ rs. some (r ∷ rs)

-- The loop over `find_exclusive_va_names`: each function with its footprint.
unfoldable pub trace_funcs :
    {C : Type 0} (same : VarAccess → VarAccess → Bool) (global_usrs trace_var_names : List Str)
    → List (FuncInfo C)
    → Footprints
    → Option (List Traced)
unfolding find_exclusive_va_names
trace_funcs same global_usrs trace_var_names [] fps = some []
trace_funcs same global_usrs trace_var_names (f ∷ fs) [] = none
trace_funcs same global_usrs trace_var_names (f ∷ fs) (fp ∷ fps) =
    find_exclusive_va_names same f global_usrs trace_var_names fp >>= λ r.
    trace_funcs same global_usrs trace_var_names fs fps >>= λ rs. some (r.1 ++ rs)

-- What `main` comes to behind the parsing.
pub data Outcome : Type 0 where
  err_not_found : Outcome
  traced : List Traced → Outcome
  compared : List Finding → Outcome

-- What the arguments ask for. `scan` is the comparison that --track-locking chooses, and `same` is
-- `equal_var_access_structs`.
pub record Mode : Type 0 where
  pub track_locking : Bool
  pub trace_var_names : List Str
  pub scan : List VarAccess → List VarAccess → Option Scan
  pub same : VarAccess → VarAccess → Bool

module _ {C : Type 0} (clang : Clang C) (argument_usr : C → ℕ → Str) (room : Str → Bool)
    (mode : Mode) (file_names func_names : List Str) where
  -- the loop over `process_func_info`
  unfoldable pub walk_funcs : ℕ → List (Func C) → State C → Run (List (FuncInfo C))
  unfolding process_func_info
  walk_funcs fuel [] st = done []
  walk_funcs fuel (f ∷ fs) st =
      and_then
        (process_func_info clang mode.track_locking file_names fuel
          (record st { current_func = f; callees = no_array }))
        (λ t.
          and_then (walk_funcs fuel fs t) (λ gs. done (func_info t.current_func t.callees ∷ gs)))

  -- the loop over `unwind_func_info`, from the function with index `i` on
  unfoldable pub unwind_funcs : ℕ → List (FuncInfo C) → Option (List (FuncInfo C))
  unfolding parse_func_call unwind_func_info
  unwind_funcs i [] = some []
  unwind_funcs i (f ∷ fs) = string_at func_names i >>= λ func_call.
      unwind_func_info argument_usr room f (some (parse_func_call func_call).1) >>= λ g.
      unwind_funcs (i + 1) fs >>= λ gs. some (g ∷ gs)

  -- the loops behind the walks
  unfoldable pub check_funcs : List Str → List (FuncInfo C) → Option Outcome
  unfolding unwind_funcs build_footprints compare_all trace_funcs
  check_funcs global_usrs fs = unwind_funcs 0 fs >>= λ gs. build_footprints gs >>= λ fps.
      if not (length mode.trace_var_names == 0)
      then (trace_funcs mode.same global_usrs mode.trace_var_names gs fps >>= λ r. some (traced r))
      else compare_all mode.scan fps >>= λ r. some (compared r.1)

  -- `main` from `process_tu_array` on; `st` is what `prong_init_priv` sets.
  unfoldable pub run_checks : ℕ → State C → Run Outcome
  unfolding process_tu_array walk_funcs check_funcs
  run_checks fuel st =
      and_then
        (process_tu_array clang func_names (length file_names)
          (record { funcs = []; global_usrs = [] }))
        (λ p.
          if not (length p.funcs == length func_names)
          then done err_not_found
          else and_then (walk_funcs fuel p.funcs st)
              (λ fs. or_fault (check_funcs p.global_usrs fs)))
