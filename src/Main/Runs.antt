-- ===== src/Main/Runs.antt =====
-- From the walk to the reports.
use prongc.Prelude.{
  arith, ◌&&◌, ◌==◌, ◌>>=◌, not, length, if◌then◌else◌, ℕ, ◌+◌, ◌≡◌, refl, subst, inl, inr, Bool,
  true, false, Option, none, some, Option-cases, List, [], ◌∷◌, All, Str, Holds, of_Holds,
  bind-Holds, then-Holds,
}
use prongc.VarAccess.{VarAccess}
use prongc.Core.Overlap.Sound.{Named}
use prongc.Args.Call.{parse_func_call}
use prongc.FuncInfo.{Func, FuncInfo, func_info, no_array}
use prongc.Clang.{Clang}
use prongc.Core.Footprint.{build_var_access_footprint}
use prongc.Core.Footprint.Inline.{footprint-Returns}
use prongc.Core.Unwind.{string_at, unwind_func_info}
use prongc.Walk.{done, State}
use prongc.Walk.Post.{Post, and_then-Post}
use prongc.Walk.Visit.{process_func_info}
use prongc.Walk.Regular.{regular, matched-regular}
use prongc.Walk.Matched.{process-Post}
use prongc.Walk.Unwound.{unwind-regular}
use prongc.Walk.Total.{Total}
use prongc.Walk.Unwinds.{fits, params_of, unwind-returns}
use prongc.Walk.Named.{footprint-Named}
use prongc.Core.Overlap.{Scan, find_va_overlap}
use prongc.Core.Trace.{Traced}
use prongc.Main.{
  Finding, Footprints, Mode, build_footprints, trace_funcs, traced, compared, walk_funcs,
  unwind_funcs, check_funcs, compare_all,
}
use prongc.Main.Reported.{Found}
use prongc.Main.Pairs.{AllNamed, compare_all-Returns}

module _ {C : Type 0} where
  abbrev pub Regular : FuncInfo C → Type 0
  Regular f = regular f ≡ true

  abbrev pub Unwalked : Func C → Type 0
  Unwalked f = f.var_accesses ≡ none

  -- Where a text of `func_names` gives arguments, the function with its index has parameters, and
  -- there is such a text.
  abbrev pub fits_all : List Str → ℕ → List (FuncInfo C) → Bool
  fits_all func_names i [] = true
  fits_all func_names i (f ∷ fs) =
      elim (string_at func_names i) as (λ _. Bool) [
        | none ↦ false
        | some text ↦ fits (some (parse_func_call text).1) (params_of f)
      ]
      && fits_all func_names (i + 1) fs

  footprint-built :
      (g : FuncInfo C)
      → Regular g
      → (r : List VarAccess) × (build_var_access_footprint g [] ≡ some r) × All Named r
  footprint-built g h =
      let (r, e, k) = footprint-Returns g (matched-regular g h) in
      (r, e [], footprint-Named g [] r h tt (e []))

  build_footprints-Named :
      (gs : List (FuncInfo C))
      → All Regular gs
      → (fps : Footprints) × (build_footprints gs ≡ some fps) × AllNamed fps
  unfolding build_footprints
  build_footprints-Named [] h = ([], refl, tt)
  build_footprints-Named (g ∷ gs) h =
      let (r, e, n) = footprint-built g h.0 in
      let (rs, es, ns) = build_footprints-Named gs h.1 in (r ∷ rs, rw (e, es) refl, (n, ns))

module _ {C : Type 0} (clang : Clang C) (argument_usr : C → ℕ → Str) (room : Str → Bool)
    (has_room : (s : Str) → room s ≡ true) (mode : Mode) (file_names func_names : List Str) where
  walk_funcs-Regular :
      (fuel : ℕ) (fs : List (Func C)) (st : State C)
      → All Unwalked fs
      → Post
          (All Regular)
          Unit
          (walk_funcs clang argument_usr room mode file_names func_names fuel fs st)
  unfolding walk_funcs
  walk_funcs-Regular fuel [] st h = tt
  walk_funcs-Regular fuel (f ∷ fs) st h =
      and_then-Post {A = State C} {B = List (FuncInfo C)}
        (λ (t : State C). Regular (func_info t.current_func t.callees)) (All Regular) Unit
        (process_func_info clang mode.track_locking file_names fuel
          (record st { current_func = f; callees = no_array }))
        _
        (process-Post clang mode.track_locking file_names fuel
          (record st { current_func = f; callees = no_array }) h.0 refl)
        (λ t r.
          and_then-Post (All Regular) (All Regular) Unit
            (walk_funcs clang argument_usr room mode file_names func_names fuel fs t)
            (λ gs. done (func_info t.current_func t.callees ∷ gs))
            (walk_funcs-Regular fuel fs t h.1) (λ gs rs. (r, rs)))

  unwind-Holds :
      (f : FuncInfo C) (parsed : Option (List Str))
      → Regular f
      → Holds Regular (unwind_func_info argument_usr room f parsed)
  unwind-Holds f parsed h = elim (Option-cases (unwind_func_info argument_usr room f parsed)) [
    | inl e ↦ rw (e) tt
    | inr (g, e) ↦ rw (e) (unwind-regular argument_usr room has_room f g parsed h e)
  ]

  unwind_funcs-Regular :
      (i : ℕ) (fs : List (FuncInfo C))
      → All Regular fs
      → Holds (All Regular) (unwind_funcs clang argument_usr room mode file_names func_names i fs)
  unfolding unwind_funcs
  unwind_funcs-Regular i [] h = tt
  unwind_funcs-Regular i (f ∷ fs) h =
      then-Holds (All Regular) (string_at func_names i) _ (λ func_call.
        bind-Holds Regular (All Regular)
          (unwind_func_info argument_usr room f (some (parse_func_call func_call).1)) _
          (unwind-Holds f (some (parse_func_call func_call).1) h.0)
          (λ g r.
            bind-Holds (All Regular) (All Regular)
              (unwind_funcs clang argument_usr room mode file_names func_names (i + 1) fs)
              (λ gs. some (g ∷ gs)) (unwind_funcs-Regular (i + 1) fs h.1) (λ gs rs. (r, rs))))

  unwind_funcs-Total :
      (i : ℕ) (fs : List (FuncInfo C))
      → All Regular fs
      → fits_all func_names i fs ≡ true
      → Total (unwind_funcs clang argument_usr room mode file_names func_names i fs)
  unfolding unwind_funcs
  unwind_funcs-Total i [] h fit = ([], refl)
  unwind_funcs-Total i (f ∷ fs) h fit = elim (Option-cases (string_at func_names i)) [
    | inl e ↦ absurd (no_text (fits_all func_names (i + 1) fs) (rw (e) at fit))
    | inr (text, e) ↦
        let both = split (rw (e) at fit) in
        let (g, q) =
          unwind-returns argument_usr room has_room f (some (parse_func_call text).1) h.0 both.0 in
        let (gs, q') = unwind_funcs-Total (i + 1) fs h.1 both.1 in rw (e, q, q') (g ∷ gs, refl)
  ]
    where
      no_text : (b : Bool) → (false && b) ≡ true → ⊥
      no_text b e = cc

      split : {a b : Bool} → (a && b) ≡ true → (a ≡ true) × (b ≡ true)
      split e = (ground (arith, e), ground (arith, e))

  -- Without variables to trace and without --track-locking's comparison, where memory does not run out:
  -- if the walks return for functions that were not walked before, every function has its text in
  -- `func_names`, and no function without parameters is given arguments by its text, then the functions
  -- are unwound, their footprints are built, and every two functions are compared, none of which is
  -- undefined. Of every two accesses in footprints of different functions that overlap, a finding that
  -- comes out names one. The chains of calls printed with a finding are not a part of this.
  pub check_funcs-returns :
      (fuel : ℕ) (funcs : List (Func C)) (st : State C) (global_usrs : List Str)
      (fs : List (FuncInfo C))
      → mode.trace_var_names ≡ []
      → mode.scan ≡ find_va_overlap
      → All Unwalked funcs
      → walk_funcs clang argument_usr room mode file_names func_names fuel funcs st ≡ done fs
      → fits_all func_names 0 fs ≡ true
      → (gs : List (FuncInfo C)) × (fps : Footprints) × (found : List Finding) × (unwind_funcs clang
            argument_usr room mode file_names func_names 0 fs
          ≡ some gs)
        × (build_footprints gs ≡ some fps)
        × (check_funcs clang argument_usr room mode file_names func_names global_usrs fs
            ≡ some (compared found))
        × Found fps found
  unfolding check_funcs
  check_funcs-returns fuel funcs st global_usrs fs none_traced plain h w fit =
      let walked : All Regular fs =
        subst (Post (All Regular) Unit) w (walk_funcs-Regular fuel funcs st h) in
      let (gs, e) = unwind_funcs-Total 0 fs walked fit in
      let unwound : All Regular gs =
        of_Holds (All Regular)
          (unwind_funcs clang argument_usr room mode file_names func_names 0 fs) gs
          (unwind_funcs-Regular 0 fs walked) e in
      let (fps, b, n) = build_footprints-Named gs unwound in
      let (r, c, n', l, less, acc, d, found) = compare_all-Returns fps n in
      (
        gs,
        fps,
        r.1,
        e,
        b,
        rw (e, b)
            (behind mode.trace_var_names mode.scan
              (trace_funcs mode.same global_usrs mode.trace_var_names gs fps) fps r none_traced
              plain c),
        found,
      )
    where
      behind :
          (names : List Str) (scan : List VarAccess → List VarAccess → Option Scan)
          (tracing : Option (List Traced)) (fps : Footprints) (r : Footprints × List Finding)
          → names ≡ []
          → scan ≡ find_va_overlap
          → compare_all find_va_overlap fps ≡ some r
          → (if not (length names == 0)
              then (tracing >>= λ x. some (traced x))
              else compare_all scan fps >>= λ x. some (compared x.1))
            ≡ some (compared r.1)
      behind names scan tracing fps r e e' c = rw (e, e', c) refl
