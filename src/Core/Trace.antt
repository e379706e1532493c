-- ===== src/Core/Trace.antt =====
-- src/core.c, `trace_va_overlap` and `find_exclusive_va_names`: the chains of calls that are printed.
pub mod Chains
use prongc.Prelude.{
  Bool, true, false, not, ◌||◌, Option, none, some, List, [], ◌∷◌, ◌++◌, Str, if◌then◌else◌, ◌>>=◌,
}
use prongc.VarAccess.{VarAccess, strcmp_eq, nullify}
use prongc.FuncInfo.{Func, FuncInfo, func_info, Callees, no_array, array, FuncInfoArr, nil, cons}
use prongc.Args.Split.{mark_postfix_func_name}
use prongc.Core.Unwind.{contains}

-- `same` is `equal_var_access_structs`, which compares the bytes of two structures.
module _ (same : VarAccess → VarAccess → Bool) where
  -- the loop over the accesses of one function
  unfoldable pub has_access : VarAccess → Option (List VarAccess) → Bool
  has_access va none = false
  has_access va (some []) = false
  has_access va (some (w ∷ ws)) = same va w || has_access va (some ws)

  -- `trace_va_overlap`; what `print_call_trace` prints is the chain of the functions' names.
  unfoldable mutual
    unfolding has_access

    pub trace_va_overlap :
        {C : Type 0} → VarAccess → List Str → FuncInfo C → Option (List (List Str))
    trace_va_overlap va call_trace (func_info f callees) = f.name >>= λ name.
        let chain = call_trace ++ name ∷ [] in
        let below = trace_callees va chain callees in
        if f.in_system_header || not f.has_definition
        then some []
        else if has_access va f.var_accesses
        then some (chain ∷ [])
        else below

    pub trace_callees : {C : Type 0} → VarAccess → List Str → Callees C → Option (List (List Str))
    trace_callees va chain no_array = some []
    trace_callees va chain (array fs) = trace_each va chain fs

    pub trace_each : {C : Type 0} → VarAccess → List Str → FuncInfoArr C → Option (List (List Str))
    trace_each va chain nil = some []
    trace_each va chain (cons f fs) =
        trace_va_overlap va chain f >>= λ xs. trace_each va chain fs >>= λ ys. some (xs ++ ys)

-- The tests for one access and one argument of --trace; `strcmp` faults at NULL.
unfoldable pub is_traced : List Str → Str → VarAccess → Option Bool
unfolding mark_postfix_func_name strcmp_eq
is_traced global_usrs postfix va = elim (mark_postfix_func_name postfix) [
  | some (split_postfix, arg_name) ↦ strcmp_eq (some split_postfix) va.parent_func_name >>= λ here.
      if here then strcmp_eq (some arg_name) va.name else some false
  | none ↦ strcmp_eq (some postfix) va.name >>= λ named.
      if named then contains global_usrs va.usr else some false
]

-- What is printed for one access: the argument, and the chains.
pub record Traced : Type 0 where
  pub postfix : Str
  pub chains : List (List Str)

module _ {C : Type 0} (same : VarAccess → VarAccess → Bool) (func : FuncInfo C)
    (global_usrs : List Str) where
  -- the inner loop, with what it leaves of the access
  unfoldable pub trace_access : List Str → VarAccess → Option (VarAccess × List Traced)
  unfolding is_traced trace_va_overlap
  trace_access [] va = some (va, [])
  trace_access (postfix ∷ names) va =
      let keep = trace_access names va in
      let spend = trace_access names (nullify va) in
      is_traced global_usrs postfix va >>= λ traced.
      if traced
      then (trace_va_overlap same va [] func >>= λ chains.
          spend >>= λ r. some (r.0, record { postfix = postfix; chains = chains } ∷ r.1))
      else keep

  unfoldable pub find_exclusive_va_names :
      List Str → List VarAccess → Option (List VarAccess × List Traced)
  unfolding trace_access
  find_exclusive_va_names names [] = some ([], [])
  find_exclusive_va_names names (va ∷ vas) = trace_access names va >>= λ r.
      find_exclusive_va_names names vas >>= λ s. some (r.0 ∷ s.0, r.1 ++ s.1)
