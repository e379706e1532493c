-- ===== src/Walk/Unwinds.antt =====
-- When `unwind_func_info` returns: the tree of functions.
use prongc.Prelude.{
  ℕ, ◌≡◌, refl, sym, subst, Bool, true, false, not, ◌||◌, Option, none, some, List, [], ◌∷◌, All,
  Str, arith, if◌then◌else◌, ◌>>=◌, of_Holds,
}
use prongc.VarAccess.{VarAccess}
use prongc.FuncInfo.{Func, FuncInfo, func_info, FuncInfoArr, nil, cons, Callees, no_array, array}
use prongc.Core.Overlap.Sound.{has_usr}
use prongc.Core.Rename.{rename_access, rename_accesses, resolve_var_access_alias}
use prongc.Core.Unwind.{
  each_if_any, classify_access, map_parsed_call, calls_of, first_call, later_calls, resolve_caller,
  unwind, unwind_callees, unwind_each, unwind_func_info,
}
use prongc.Walk.Regular.{sound_if_any, in_step, regular, regular_callees, regular_each}
use prongc.Walk.Kept.{Keeps, map_parsed_call-Keeps, rename_accesses-each}
use prongc.Walk.Unwound.{resolve_caller-Keeps}
use prongc.Walk.Total.{
  Total, WithUsr, each_access-Total, each_if_any-Total, classify_access-Total, rename_access-Total,
  resolving_calls-Total, map_arguments-Total,
}

-- Arguments are only mapped for a function that has parameters.
abbrev pub fits : Option (List Str) → List Str → Bool
fits none params = true
fits (some []) params = true
fits (some (name ∷ [])) params = true
fits (some (name ∷ arg ∷ args)) [] = false
fits (some (name ∷ arg ∷ args)) (p ∷ ps) = true

map_parsed_call-Total :
    (room : Str → Bool) (parsed : Option (List Str)) (params : List Str)
    (o : Option (List VarAccess))
    → fits parsed params ≡ true
    → Total (map_parsed_call room parsed params o)
unfolding map_parsed_call
map_parsed_call-Total room none params o h = (o, refl)
map_parsed_call-Total room (some []) params o h = (o, refl)
map_parsed_call-Total room (some (name ∷ [])) params o h = (o, refl)
map_parsed_call-Total room (some (name ∷ arg ∷ args)) [] o h = cc
map_parsed_call-Total room (some (name ∷ arg ∷ args)) (p ∷ ps) o h =
    map_arguments-Total room p ps 0 (arg ∷ args) o

calls_of-Total :
    {C : Type 0} (o : Option (List VarAccess)) (cs : Callees C)
    → in_step o cs ≡ true
    → (rs : List (Option VarAccess)) × (calls_of o cs ≡ some rs) × All WithUsr rs
unfolding calls_of
calls_of-Total none cs h = ([], refl, tt)
calls_of-Total (some vas) no_array h = ([], refl, tt)
calls_of-Total (some vas) (array fs) h =
    resolving_calls-Total vas fs (ground (arith, h)) (ground (arith, h))

with-Total :
    {A B : Type 0} (m : Option A) (k : A → Option B) (a : A)
    → m ≡ some a
    → Total (k a)
    → Total (m >>= k)
with-Total m k a e t = rw (e) t

if-Total :
    {A : Type 0} (b : Bool) (a : A) (m : Option A) → Total m → Total (if b then some a else m)
if-Total true a m t = (a, refl)
if-Total false a m t = t

abbrev pub params_of : {C : Type 0} → FuncInfo C → List Str
params_of (func_info f cs) = f.params

first-WithUsr : (rs : List (Option VarAccess)) → All WithUsr rs → WithUsr (first_call rs)
first-WithUsr [] w = tt
first-WithUsr (r ∷ rs) w = w.0

later-WithUsr : (rs : List (Option VarAccess)) → All WithUsr rs → All WithUsr (later_calls rs)
later-WithUsr [] w = tt
later-WithUsr (r ∷ rs) w = w.1

module _ {C : Type 0} (argument_usr : C → ℕ → Str) (room : Str → Bool)
    (has_room : (s : Str) → room s ≡ true) where
  renamed-Total :
      (o : Option (List VarAccess)) (f : Func C) (rename : List VarAccess → Option (List VarAccess))
      → ((vas : List VarAccess) → o ≡ some vas → Total (rename vas))
      → (g : Func C) × ((elim o as (λ _. Option (Func C)) [
        | none ↦ some f
        | some vas ↦ rename vas >>= λ vs. some (record f { var_accesses = some vs })
      ])
          ≡ some g)
        × (g.params ≡ f.params)
  renamed-Total none f rename h = (f, refl, refl)
  renamed-Total (some vas) f rename h =
      let (vs, e) = h vas refl in (record f { var_accesses = some vs }, rw (e) refl, refl)

  resolve_alias-Total :
      (f : Func C) (va : VarAccess)
      → has_usr va.usr ≡ true
      → sound_if_any f.var_accesses ≡ true
      → (g : Func C) × (resolve_var_access_alias argument_usr f va ≡ some g) × (g.params ≡ f.params)
  unfolding resolve_var_access_alias
  resolve_alias-Total f va h s =
      let param : Str = argument_usr f.cursor va.esc_param_idx in
      renamed-Total f.var_accesses f (rename_accesses param va.usr) (λ vas e.
        subst Total (sym (rename_accesses-each param va.usr vas)) (
          each_access-Total (rename_access param va.usr)
            (λ w k. rename_access-Total param va.usr w h k) vas
            (subst (λ o. sound_if_any o ≡ true) e s)))

  resolve_caller-Total :
      (caller : Option VarAccess) (f : Func C)
      → WithUsr caller
      → sound_if_any f.var_accesses ≡ true
      → (g : Func C) × (resolve_caller argument_usr caller f ≡ some g) × (g.params ≡ f.params)
  unfolding resolve_caller
  resolve_caller-Total none f w s = (f, refl, refl)
  resolve_caller-Total (some va) f w s = resolve_alias-Total f va w s

  mutual
    unfolding unwind regular

    unwind-Total :
        (caller : Option VarAccess) (parsed : Option (List Str)) (f : FuncInfo C)
        → WithUsr caller
        → regular f ≡ true
        → fits parsed (params_of f) ≡ true
        → Total (unwind argument_usr room caller parsed f)
    unwind-Total caller parsed (func_info g cs) w r fit =
        let own : in_step g.var_accesses cs ≡ true = ground (arith, r) in
        let below : regular_callees cs ≡ true = ground (arith, r) in
        let (f, e, same) = resolve_caller-Total caller g w (ground (arith, own)) in
        let kept : in_step f.var_accesses cs ≡ true =
          of_Holds (λ (f : Func C). Keeps C g.var_accesses f.var_accesses)
            (resolve_caller argument_usr caller g) f
            (resolve_caller-Keeps argument_usr room has_room caller g) e cs own in
        let (mapped, q) = map_parsed_call-Total room parsed f.params f.var_accesses (rw same fit) in
        let keptm : in_step mapped cs ≡ true =
          of_Holds (Keeps C f.var_accesses) (map_parsed_call room parsed f.params f.var_accesses)
            mapped (map_parsed_call-Keeps C room has_room parsed f.params f.var_accesses) q cs
            kept in
        let (rs, c, ws) = calls_of-Total mapped cs keptm in
        let (vas, v) =
          each_if_any-Total (classify_access f.locals f.params)
            (λ va s. classify_access-Total f.locals f.params va s) mapped (ground (arith, keptm)) in
        let (ds, d) = callees-Total rs cs ws below in
        with-Total (resolve_caller argument_usr caller g) _ f e (
          if-Total (f.in_system_header || not f.has_definition) (func_info f cs) _ (
            with-Total (map_parsed_call room parsed f.params f.var_accesses) _ mapped q (
              with-Total (calls_of mapped cs) _ rs c (
                with-Total (each_if_any (classify_access f.locals f.params) mapped) _ vas v (
                  with-Total (unwind_callees argument_usr room rs cs) _ ds d
                    (func_info (record f { var_accesses = vas }) ds, refl))))))

    callees-Total :
        (rs : List (Option VarAccess)) (cs : Callees C)
        → All WithUsr rs
        → regular_callees cs ≡ true
        → Total (unwind_callees argument_usr room rs cs)
    callees-Total rs no_array w r = (no_array, refl)
    callees-Total rs (array fs) w r = let (gs, e) = each-Total rs fs w r in (array gs, rw (e) refl)

    each-Total :
        (rs : List (Option VarAccess)) (fs : FuncInfoArr C)
        → All WithUsr rs
        → regular_each fs ≡ true
        → Total (unwind_each argument_usr room rs fs)
    each-Total rs nil w r = (nil, refl)
    each-Total rs (cons f fs) w r =
        let (g, e) =
          unwind-Total (first_call rs) none f (first-WithUsr rs w) (ground (arith, r)) refl in
        let (gs, e') = each-Total (later_calls rs) fs (later-WithUsr rs w) (ground (arith, r)) in
        (cons g gs, rw (e, e') refl)

  -- Where memory does not run out, `unwind_func_info` returns for a tree of functions in which no
  -- function has more call markers than callees, a call marker has a USR and no argument, and what has
  -- no USR is a placeholder without an argument; but arguments must not be given to a root function
  -- without parameters.
  pub unwind-returns :
      (f : FuncInfo C) (parsed_func_call : Option (List Str))
      → regular f ≡ true
      → fits parsed_func_call (params_of f) ≡ true
      → (g : FuncInfo C) × (unwind_func_info argument_usr room f parsed_func_call ≡ some g)
  unfolding unwind_func_info
  unwind-returns f parsed r fit = unwind-Total none parsed f tt r fit
