-- ===== src/Walk/Unwound.antt =====
-- `unwind_func_info` on a tree that the walk built.
use prongc.Prelude.{
  ℕ, ◌+◌, ◌≡◌, refl, ap, inl, inr, Bool, true, not, ◌||◌, Bool-cases, Option-cases, Option, none,
  some, List, Str, arith, Holds, of_Holds, bind-Holds, then-Holds,
}
use prongc.VarAccess.{VarAccess}
use prongc.FuncInfo.{Func, FuncInfo, func_info, Callees, no_array, array, FuncInfoArr, nil, cons}
use prongc.Core.Footprint.Inline.{calls, count}
use prongc.Core.Rename.{rename_access, resolve_var_access_alias}
use prongc.Core.Unwind.{
  each_access, calls_of, first_call, later_calls, resolve_caller, unwind, unwind_callees,
  unwind_each, unwind_func_info,
}
use prongc.Walk.Regular.{sound, in_step, regular, regular_callees, regular_each}
use prongc.Walk.Kept.{
  Keeps, some-Keeps, each_if_any-Keeps, map_parsed_call-Keeps, rename_accesses-each,
  each_access-Same,
}
use prongc.Walk.Same.{rename_access-Same, classify_access-Same}

in_step-count :
    {C : Type 0} (fs gs : FuncInfoArr C)
    → count gs ≡ count fs
    → (o : Option (List VarAccess)) → in_step o (array fs) ≡ true
    → in_step o (array gs) ≡ true
in_step-count fs gs e none h = h
in_step-count fs gs e (some vas) h = rw (e) h

module _ {C : Type 0} (argument_usr : C → ℕ → Str) (room : Str → Bool)
    (has_room : (s : Str) → room s ≡ true) where
  resolve_alias-Keeps :
      (f : Func C) (va : VarAccess)
      → Holds
          (λ (g : Func C). Keeps C f.var_accesses g.var_accesses)
          (resolve_var_access_alias argument_usr f va)
  unfolding resolve_var_access_alias
  resolve_alias-Keeps f va = elim (Option-cases f.var_accesses) [
    | inl e ↦ rw (e) (λ cs s. s)
    | inr (vas, e) ↦
        let param : Str = argument_usr f.cursor va.esc_param_idx in
        rw (e, rename_accesses-each param va.usr vas)
          (bind-Holds {B = Func C}
            (λ ws. sound vas ≡ true → (calls ws ≡ calls vas) × (sound ws ≡ true))
            (λ (g : Func C). Keeps C (some vas) g.var_accesses)
            (each_access (rename_access param va.usr) vas)
            (λ vs. some (record f { var_accesses = some vs }))
            (each_access-Same (rename_access param va.usr) (rename_access-Same param va.usr) vas)
            (λ ws k. some-Keeps C vas ws k))
  ]

  pub resolve_caller-Keeps :
      (caller : Option VarAccess) (f : Func C)
      → Holds
          (λ (g : Func C). Keeps C f.var_accesses g.var_accesses)
          (resolve_caller argument_usr caller f)
  unfolding resolve_caller
  resolve_caller-Keeps none f = λ cs s. s
  resolve_caller-Keeps (some va) f = resolve_alias-Keeps f va

  abbrev Regular : FuncInfo C → Type 0
  Regular f = regular f ≡ true

  -- the callees after, for the callees before
  abbrev KeptCallees : Callees C → Callees C → Type 0
  KeptCallees cs ds =
      (regular_callees ds ≡ true)
      × ((o : Option (List VarAccess)) → in_step o cs ≡ true → in_step o ds ≡ true)

  abbrev KeptEach : FuncInfoArr C → FuncInfoArr C → Type 0
  KeptEach fs gs = (regular_each gs ≡ true) × (count gs ≡ count fs)

  array-Kept : (fs gs : FuncInfoArr C) → KeptEach fs gs → KeptCallees (array fs) (array gs)
  unfolding regular_callees
  array-Kept fs gs h = (h.0, in_step-count fs gs h.1)

  mutual
    unfolding unwind regular

    unwind-Regular :
        (caller : Option VarAccess) (parsed : Option (List Str)) (f : FuncInfo C)
        → regular f ≡ true
        → Holds Regular (unwind argument_usr room caller parsed f)
    unwind-Regular caller parsed (func_info g callees) h =
        let below : regular_callees callees ≡ true = ground (arith, h) in
        bind-Holds {B = FuncInfo C} (λ (f : Func C). Keeps C g.var_accesses f.var_accesses) Regular
          _ _ (resolve_caller-Keeps caller g)
          (λ f k.
            let own : in_step f.var_accesses callees ≡ true = k callees (ground (arith, h)) in
            elim (Bool-cases (f.in_system_header || not f.has_definition)) [
              | inl e ↦ rw (e, own, below) refl
              | inr e ↦ rw (e) (
                  bind-Holds (Keeps C f.var_accesses) Regular _ _
                    (map_parsed_call-Keeps C room has_room parsed f.params f.var_accesses)
                    (λ mapped m. then-Holds Regular (calls_of mapped callees) _ (λ cs.
                      bind-Holds (Keeps C mapped) Regular _ _
                        (each_if_any-Keeps C _ (classify_access-Same f.locals f.params) mapped)
                        (λ vas v.
                          bind-Holds (KeptCallees callees) Regular _ _
                            (callees-Regular cs callees below)
                            (λ ds d. rw (d.1 vas (v callees (m callees own)), d.0) refl)))))
            ])

    callees-Regular :
        (cs : List (Option VarAccess)) (callees : Callees C)
        → regular_callees callees ≡ true
        → Holds (KeptCallees callees) (unwind_callees argument_usr room cs callees)
    callees-Regular cs no_array h = (refl, λ o s. s)
    callees-Regular cs (array fs) h =
        bind-Holds (KeptEach fs) (KeptCallees (array fs)) (unwind_each argument_usr room cs fs)
          (λ gs. some (array gs)) (each-Regular cs fs h) (λ gs k. array-Kept fs gs k)

    each-Regular :
        (cs : List (Option VarAccess)) (fs : FuncInfoArr C)
        → regular_each fs ≡ true
        → Holds (KeptEach fs) (unwind_each argument_usr room cs fs)
    each-Regular cs nil h = (refl, refl)
    each-Regular cs (cons f fs) h =
        bind-Holds Regular (KeptEach (cons f fs)) _ _
          (unwind-Regular (first_call cs) none f (ground arith))
          (λ g r.
            bind-Holds (KeptEach fs) (KeptEach (cons f fs)) _ _
              (each-Regular (later_calls cs) fs (ground arith))
              (λ gs k. (rw (r, k.0) refl, ap (λ n. 1 + n) k.1)))

  -- Where memory does not run out, `unwind_func_info` keeps a tree of functions in which no function
  -- has more call markers than callees, a call marker has a USR and no argument, and what has no USR is
  -- a placeholder without an argument: where it returns, the tree that it leaves is one.
  pub unwind-regular :
      (f g : FuncInfo C) (parsed_func_call : Option (List Str))
      → regular f ≡ true
      → unwind_func_info argument_usr room f parsed_func_call ≡ some g
      → regular g ≡ true
  unfolding unwind_func_info
  unwind-regular f g parsed h e =
      of_Holds Regular (unwind argument_usr room none parsed f) g (unwind-Regular none parsed f h) e
