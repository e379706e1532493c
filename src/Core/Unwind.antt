-- ===== src/Core/Unwind.antt =====
-- src/core.c, `unwind_func_info`: which accesses of a function can reach another thread.
pub mod Irrelevant
use prongc.Prelude.{
  ℕ, zero, suc, ◌+◌, Bool, true, false, not, ◌||◌, ◌&&◌, Option, none, some, List, [], ◌∷◌, ◌++◌,
  length, get_elem?, Str, str_eq, ltb, ◌==◌, if◌then◌else◌, ◌>>=◌,
}
use prongc.VarAccess.{
  VarAccess, VarAccessType, null, read, write, escape, call, type_code, va_is_placeholder_type,
  nullify,
}
use prongc.FuncInfo.{Func, FuncInfo, func_info, Callees, no_array, array, FuncInfoArr, nil, cons}
use prongc.LockTracking.Pairs.{lock_primitive_type}
use prongc.Args.Options.{starts_with}
use prongc.Core.Rename.{generate_artificial_param_usr, resolve_var_access_alias}

abbrev pub has_type : VarAccessType → VarAccess → Bool
has_type t va = type_code va.type == type_code t

-- `aos_string_at` on the strings held: `none` is the read that an empty array does not refuse, and
-- `some none` NULL.
abbrev pub string_at : List Str → ℕ → Option (Option Str)
string_at [] i = none
string_at (s ∷ ss) i = some (get_elem? (s ∷ ss) i)

-- `aos_contains_string` on the strings held; `strcmp` faults at NULL
abbrev pub contains : List Str → Option Str → Option Bool
contains [] needle = some false
contains (s ∷ ss) needle = needle >>= λ n. contains ss needle >>= λ rest. some (str_eq s n || rest)

-- The third loop's tests behind the one for lock functions: an access to a local variable that never
-- escapes, and a plain access to a parameter.
unfoldable pub null_local : List Str → VarAccess → Option VarAccess
null_local locals va =
    if not va.is_ptr_type && (not (has_type escape va) && not (va_is_placeholder_type va.type))
    then (contains locals va.usr >>= λ local. some (if local then nullify va else va))
    else some va

unfoldable pub null_param : List Str → VarAccess → Option VarAccess
null_param params va =
    if has_type read va || has_type write va
    then (contains params va.usr >>= λ param. some (if param then nullify va else va))
    else some va

-- what `lock_primitive_type` says of an access that is the first argument of a call
unfoldable pub lock_kind : VarAccess → Option VarAccessType
lock_kind va = elim va.esc_func_spelling [
  | none ↦ some null
  | some spelling ↦ if va.esc_param_idx == 0 then lock_primitive_type spelling else some null
]

-- the body of the third loop
unfoldable pub classify_access : List Str → List Str → VarAccess → Option VarAccess
unfolding null_local null_param lock_kind
classify_access locals params va = lock_kind va >>= λ va_lock_type.
    if not (type_code va_lock_type == type_code null)
    then some (record va { type = va_lock_type })
    else null_local locals va >>= null_param params

unfoldable pub each_access :
    (VarAccess → Option VarAccess) → List VarAccess → Option (List VarAccess)
each_access f [] = some []
each_access f (va ∷ vas) = f va >>= λ v. each_access f vas >>= λ vs. some (v ∷ vs)

unfoldable pub each_if_any :
    (VarAccess → Option VarAccess) → Option (List VarAccess) → Option (Option (List VarAccess))
unfolding each_access
each_if_any f none = some none
each_if_any f (some vas) = each_access f vas >>= λ vs. some (some vs)

-- `room usr` says whether `malloc` finds memory for the name that replaces `usr`.
module _ (room : Str → Bool) where
  -- the body of the loop over the accesses, for one argument of the parsed call
  unfoldable pub map_argument : Str → Option Str → VarAccess → VarAccess
  unfolding starts_with
  map_argument param_usr parsed_arg va =
      if not (va_is_placeholder_type va.type)
      then elim va.usr [
        | none ↦ va
        | some usr ↦
            if starts_with param_usr usr
            then record va { usr = generate_artificial_param_usr (room usr) parsed_arg usr }
            else va
      ]
      else va

  -- the first loop: the arguments behind the function's name, from number `i`
  unfoldable pub map_arguments :
      List Str → ℕ → List Str → Option (List VarAccess) → Option (Option (List VarAccess))
  unfolding map_argument each_if_any
  map_arguments params i [] vas = some vas
  map_arguments params i (arg ∷ args) vas = string_at params i >>= λ param_usr.
      (elim param_usr [
        | none ↦ some vas
        | some usr ↦ each_if_any (λ va. some (map_argument usr (some arg) va)) vas
      ])
      >>= λ vs. map_arguments params (i + 1) args vs

  -- `parsed_func_call` is NULL, or the function's name and its arguments
  unfoldable pub map_parsed_call :
      Option (List Str) → List Str → Option (List VarAccess) → Option (Option (List VarAccess))
  unfolding map_arguments
  map_parsed_call none params vas = some vas
  map_parsed_call (some []) params vas = some vas
  map_parsed_call (some (name ∷ args)) params vas = map_arguments params 0 args vas

-- The second loop: the call that each callee's parameters are resolved from. `next_callee` stays at a
-- callee inside of a system header; a call with no callee left reads outside of the array.
module _ {C : Type 0} where
  unfoldable pub resolving_calls : List VarAccess → FuncInfoArr C → Option (List (Option VarAccess))
  resolving_calls [] fs = some []
  resolving_calls (va ∷ vas) nil =
      let rest = resolving_calls vas nil in if has_type call va then none else rest
  resolving_calls (va ∷ vas) (cons (func_info f callees) fs) =
      let next = resolving_calls vas fs in
      let same = resolving_calls vas (cons (func_info f callees) fs) in
      if has_type call va
      then (if f.in_system_header then same else next >>= λ calls. some (some va ∷ calls))
      else same

abbrev pub first_call : List (Option VarAccess) → Option VarAccess
first_call [] = none
first_call (c ∷ cs) = c

abbrev pub later_calls : List (Option VarAccess) → List (Option VarAccess)
later_calls [] = []
later_calls (c ∷ cs) = cs

unfoldable pub resolve_caller :
    {C : Type 0} → (C → ℕ → Str) → Option VarAccess → Func C → Option (Func C)
unfolding resolve_var_access_alias
resolve_caller argument_usr none f = some f
resolve_caller argument_usr (some va) f = resolve_var_access_alias argument_usr f va

-- where `callees` or `var_accesses` is NULL there is no second loop
unfoldable pub calls_of :
    {C : Type 0} → Option (List VarAccess) → Callees C → Option (List (Option VarAccess))
unfolding resolving_calls
calls_of none callees = some []
calls_of (some vas) no_array = some []
calls_of (some vas) (array fs) = resolving_calls vas fs

-- `unwind_func_info`. The second loop rewrites the accesses of the callees before the recursion goes
-- into them; here the call to resolve from is handed down instead, and the callee's accesses are
-- rewritten on the way in.
module _ {C : Type 0} (argument_usr : C → ℕ → Str) (room : Str → Bool) where
  unfoldable mutual
    unfolding resolve_caller map_parsed_call calls_of each_if_any classify_access

    pub unwind : Option VarAccess → Option (List Str) → FuncInfo C → Option (FuncInfo C)
    unwind caller parsed_func_call (func_info g callees) =
        resolve_caller argument_usr caller g >>= λ f.
        if f.in_system_header || not f.has_definition
        then some (func_info f callees)
        else map_parsed_call room parsed_func_call f.params f.var_accesses >>= λ mapped.
            calls_of mapped callees >>= λ calls.
            each_if_any (classify_access f.locals f.params) mapped >>= λ vas.
            unwind_callees calls callees >>= λ cs.
            some (func_info (record f { var_accesses = vas }) cs)

    pub unwind_callees : List (Option VarAccess) → Callees C → Option (Callees C)
    unwind_callees calls no_array = some no_array
    unwind_callees calls (array fs) = unwind_each calls fs >>= λ gs. some (array gs)

    pub unwind_each : List (Option VarAccess) → FuncInfoArr C → Option (FuncInfoArr C)
    unwind_each calls nil = some nil
    unwind_each calls (cons f fs) = unwind (first_call calls) none f >>= λ g.
        unwind_each (later_calls calls) fs >>= λ gs. some (cons g gs)

  unfoldable pub unwind_func_info : FuncInfo C → Option (List Str) → Option (FuncInfo C)
  unfolding unwind
  unwind_func_info f parsed_func_call = unwind none parsed_func_call f
