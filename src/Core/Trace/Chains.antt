-- ===== src/Core/Trace/Chains.antt =====
-- Which chains are printed, and when none can be.
use prongc.Prelude.{
  ◌≡◌, refl, ◌∙◌, inl, inr, Bool, true, false, not, ◌||◌, ◌&&◌, Bool-cases, Option, none, some,
  Option-cases, List, [], ◌∷◌, ◌++◌, append_assoc, All, All-append, Str, arith, if◌then◌else◌,
}
use prongc.VarAccess.{VarAccess, strcmp_eq}
use prongc.FuncInfo.{FuncInfo, func_info, Callees, no_array, array, FuncInfoArr, nil, cons}
use prongc.Args.Split.{mark_postfix_func_name}
use prongc.Core.Trace.{
  has_access, trace_va_overlap, trace_callees, trace_each, is_traced, trace_access,
  find_exclusive_va_names,
}

abbrev has_name : Option Str → Bool
has_name none = false
has_name (some s) = true

abbrev pub nonempty : List (List Str) → Bool
nonempty [] = false
nonempty (c ∷ cs) = true

no_name : (o : Option Str) → o ≡ none → has_name o ≡ true → ⊥
no_name none e h = cc
no_name (some s) e h = cc

-- every function has a name
unfoldable mutual
  pub named : {C : Type 0} → FuncInfo C → Bool
  named (func_info f callees) = has_name f.name && named_callees callees

  pub named_callees : {C : Type 0} → Callees C → Bool
  named_callees no_array = true
  named_callees (array fs) = named_each fs

  pub named_each : {C : Type 0} → FuncInfoArr C → Bool
  named_each nil = true
  named_each (cons f fs) = named f && named_each fs

module _ (same : VarAccess → VarAccess → Bool) (va : VarAccess) where
  -- a function that is gone into has the access
  unfoldable mutual
    pub present : {C : Type 0} → FuncInfo C → Bool
    present (func_info f callees) =
        let below = present_callees callees in
        if f.in_system_header || not f.has_definition
        then false
        else has_access same va f.var_accesses || below

    pub present_callees : {C : Type 0} → Callees C → Bool
    present_callees no_array = false
    present_callees (array fs) = present_each fs

    pub present_each : {C : Type 0} → FuncInfoArr C → Bool
    present_each nil = false
    present_each (cons f fs) = present f || present_each fs

  -- a chain that goes on from another
  abbrev pub Extends : List Str → List Str → Type 0
  Extends front chain = (rest : List Str) × (chain ≡ front ++ rest)

  -- the chains that come out: there are some exactly if `here`, and each goes on from `front`
  abbrev pub Chains : List Str → Bool → Option (List (List Str)) → Type 0
  Chains front here m =
      (cs : List (List Str)) × (m ≡ some cs) × (nonempty cs ≡ here) × All (Extends front) cs

  shorter :
      (front : List Str) (n : Str) (cs : List (List Str))
      → All (Extends (front ++ n ∷ [])) cs
      → All (Extends front) cs
  shorter front n [] h = tt
  shorter front n (c ∷ cs) ((rest, e), hs) =
      ((n ∷ rest, e ∙ append_assoc front (n ∷ []) rest), shorter front n cs hs)

  nonempty-append : (xs ys : List (List Str)) → nonempty (xs ++ ys) ≡ (nonempty xs || nonempty ys)
  nonempty-append [] ys = refl
  nonempty-append (x ∷ xs) ys = refl

  mutual
    unfolding trace_va_overlap named present

    trace-Chains :
        {C : Type 0} (front : List Str) (f : FuncInfo C)
        → named f ≡ true
        → Chains front (present f) (trace_va_overlap same va front f)
    trace-Chains front (func_info f callees) h = elim (Option-cases f.name) [
      | inl e ↦ absurd (no_name f.name e (ground (arith, h)))
      | inr (name, e) ↦ elim (Bool-cases (f.in_system_header || not f.has_definition)) [
        | inl g ↦ rw (e, g) ([], refl, refl, tt)
        | inr g ↦ elim (Bool-cases (has_access same va f.var_accesses)) [
          | inl a ↦ rw (e, g, a) ((front ++ name ∷ []) ∷ [], refl, refl, ((name ∷ [], refl), tt))
          | inr a ↦
              let (cs, q, n, k) = callees-Chains (front ++ name ∷ []) callees (ground (arith, h)) in
              rw (e, g, a) (cs, q, n, shorter front name cs k)
        ]
      ]
    ]

    callees-Chains :
        {C : Type 0} (front : List Str) (cs : Callees C)
        → named_callees cs ≡ true
        → Chains front (present_callees cs) (trace_callees same va front cs)
    callees-Chains front no_array h = ([], refl, refl, tt)
    callees-Chains front (array fs) h = each-Chains front fs h

    each-Chains :
        {C : Type 0} (front : List Str) (fs : FuncInfoArr C)
        → named_each fs ≡ true
        → Chains front (present_each fs) (trace_each same va front fs)
    each-Chains front nil h = ([], refl, refl, tt)
    each-Chains front (cons f fs) h =
        let (xs, e, n, k) = trace-Chains front f (ground (arith, h)) in
        let (ys, e', n', k') = each-Chains front fs (ground (arith, h)) in
        (
          xs ++ ys,
          rw (e, e') refl,
          rw (nonempty-append xs ys, n, n') refl,
          All-append (Extends front) xs ys k k',
        )

  -- In a tree of functions that all have a name, `trace_va_overlap` prints a chain of calls for an
  -- access exactly if a function that is gone into has that access, and every chain goes on from the
  -- one it was given.
  pub trace-present :
      {C : Type 0} (call_trace : List Str) (f : FuncInfo C)
      → named f ≡ true
      → Chains call_trace (present f) (trace_va_overlap same va call_trace f)
  trace-present call_trace f h = trace-Chains call_trace f h

unnamed-is_traced :
    (global_usrs : List Str) (postfix : Str) (va : VarAccess)
    → mark_postfix_func_name postfix ≡ none
    → va.name ≡ none
    → is_traced global_usrs postfix va ≡ none
unfolding is_traced strcmp_eq
unnamed-is_traced global_usrs postfix va m n = rw (m, n, is_traced) refl

module _ {C : Type 0} (same : VarAccess → VarAccess → Bool) (func : FuncInfo C)
    (global_usrs : List Str) where
  unnamed-access :
      (postfix : Str) (names : List Str) (va : VarAccess)
      → mark_postfix_func_name postfix ≡ none
      → va.name ≡ none
      → trace_access same func global_usrs (postfix ∷ names) va ≡ none
  unfolding trace_access
  unnamed-access postfix names va m n =
      rw (unnamed-is_traced global_usrs postfix va m n, trace_access) refl

  -- If the first variable to trace is a global one, then `find_exclusive_va_names` reads through NULL
  -- at every access without a name, such as the markers that --track-locking puts at the branches.
  pub exclusive-unnamed :
      (postfix : Str) (names : List Str) (front : List VarAccess) (va : VarAccess)
      (back : List VarAccess)
      → mark_postfix_func_name postfix ≡ none
      → va.name ≡ none
      → find_exclusive_va_names same func global_usrs (postfix ∷ names) (front ++ va ∷ back) ≡ none
  unfolding find_exclusive_va_names
  exclusive-unnamed postfix names [] va back m n = rw (unnamed-access postfix names va m n) refl
  exclusive-unnamed postfix names (w ∷ front) va back m n =
      elim (Option-cases (trace_access same func global_usrs (postfix ∷ names) w)) [
        | inl e ↦ rw (e) refl
        | inr (r, e) ↦ rw (e, exclusive-unnamed postfix names front va back m n) refl
      ]
