-- ===== src/Core/Footprint/Inline.antt =====
-- What a footprint is made of.
use prongc.Prelude.{
  ℕ, ◌+◌, ◌≤◌, ◌≡◌, refl, inl, inr, Bool, true, false, not, ◌||◌, ◌&&◌, Bool-cases, Option, none,
  some, List, [], ◌∷◌, ◌++◌, length, All, All-append, append_assoc, append-nil, arith, leb,
  if◌then◌else◌, ◌>>=◌,
}
use prongc.VarAccess.{VarAccess, null, call}
use prongc.FuncInfo.{FuncInfo, func_info, Callees, no_array, array, FuncInfoArr, nil, cons}
use prongc.Core.Footprint.{
  Collect, is_type, collect_flat, collect_calls, collect, build_var_access_footprint, footprints,
  footprint_each,
}

-- neither nullified nor the marker of a call
abbrev pub Kept : VarAccess → Type 0
Kept va = (is_type null va ≡ false) × (is_type call va ≡ false)

-- A pass that ends, and puts a list of its own behind what is there, whatever that is.
abbrev pub Returns : Collect → Type 0
Returns f = (r : List VarAccess) × ((acc : List VarAccess) → f acc ≡ some (acc ++ r)) × All Kept r

abbrev pub calls : List VarAccess → ℕ
calls [] = 0
calls (va ∷ vas) = (if is_type call va then 1 else 0) + calls vas

abbrev pub AllReturn : List Collect → Type 0
AllReturn [] = Unit
AllReturn (f ∷ fs) = Returns f × AllReturn fs

abbrev pub count : {C : Type 0} → FuncInfoArr C → ℕ
count nil = 0
count (cons f fs) = 1 + count fs

abbrev pub enough : {C : Type 0} → Option (List VarAccess) → Callees C → Bool
enough none callees = true
enough (some vas) no_array = true
enough (some vas) (array fs) = leb (calls vas) (count fs)

and_true : (b : Bool) → b && true ≡ b
and_true true = refl
and_true false = refl

put_one :
    (va : VarAccess) (f : Collect)
    → is_type call va ≡ false
    → Returns f
    → Returns (λ acc. f (if not (is_type null va) then acc ++ va ∷ [] else acc))
put_one va f h (r, e, k) = elim (Bool-cases (is_type null va)) [
  | inl n ↦ (r, (λ acc. rw (n, e acc)), k)
  | inr n ↦ (va ∷ r, (λ acc. rw (n, e (acc ++ va ∷ []), append_assoc acc (va ∷ []) r)), ((n, h), k))
]

collect_flat-Returns : (vas : List VarAccess) → Returns (collect_flat vas)
unfolding collect_flat
collect_flat-Returns [] = ([], (λ acc. rw (append-nil acc)), tt)
collect_flat-Returns (va ∷ vas) = elim (Bool-cases (is_type call va)) [
  | inl c ↦
      let (r, e, k) = collect_flat-Returns vas in
      (
        r,
        (λ acc. elim (Bool-cases (is_type null va)) [
          | inl n ↦ rw (c, n, e acc)
          | inr n ↦ rw (c, n, e acc)
        ]),
        k,
      )
  | inr c ↦
      let (r, e, k) = put_one va (collect_flat vas) c (collect_flat-Returns vas) in
      (r, (λ acc. rw (c, and_true (not (is_type null va))) (e acc)), k)
]

-- the callee first, and then the rest
after_call : (f g : Collect) → Returns f → Returns g → Returns (λ acc. f acc >>= g)
after_call f g (r, e, k) (r', e', k') = (
  r ++ r',
  (λ acc. rw (e acc, e' (acc ++ r), append_assoc acc r r')),
  All-append (λ va. Kept va) r r' k k',
)

collect_calls-Returns :
    (vas : List VarAccess) (fs : List Collect)
    → AllReturn fs
    → calls vas ≤ length fs
    → Returns (collect_calls vas fs)
unfolding collect_calls
collect_calls-Returns [] fs h le = ([], (λ acc. rw (append-nil acc)), tt)
collect_calls-Returns (va ∷ vas) [] h le = elim (Bool-cases (is_type call va)) [
  | inl c ↦ absurd (ground arith)
  | inr c ↦
      let (r, e, k) =
        put_one va (collect_calls vas []) c (collect_calls-Returns vas [] tt (ground arith)) in
      (r, (λ acc. rw (c) (e acc)), k)
]
collect_calls-Returns (va ∷ vas) (f ∷ fs) h le = elim (Bool-cases (is_type call va)) [
  | inl c ↦
      let (r, e, k) =
        after_call f (collect_calls vas fs) h.0 (collect_calls-Returns vas fs h.1 (ground arith)) in
      (r, (λ acc. rw (c) (e acc)), k)
  | inr c ↦
      let (r, e, k) =
        put_one va (collect_calls vas (f ∷ fs)) c
          (collect_calls-Returns vas (f ∷ fs) h (ground arith)) in
      (r, (λ acc. rw (c) (e acc)), k)
]

-- Every call marker has a callee, in every function that is gone into.
unfoldable mutual
  pub matched : {C : Type 0} → FuncInfo C → Bool
  matched (func_info f callees) =
      let rest = enough f.var_accesses callees && matched_callees callees in
      if f.in_system_header || not f.has_definition then true else rest

  pub matched_callees : {C : Type 0} → Callees C → Bool
  matched_callees no_array = true
  matched_callees (array fs) = matched_each fs

  pub matched_each : {C : Type 0} → FuncInfoArr C → Bool
  matched_each nil = true
  matched_each (cons f fs) = matched f && matched_each fs

length-footprint_each : {C : Type 0} (fs : FuncInfoArr C) → length (footprint_each fs) ≡ count fs
unfolding footprint_each
length-footprint_each nil = refl
length-footprint_each (cons f fs) = omega (arith, length-footprint_each fs)

abbrev AllReturnIn : {C : Type 0} → Callees C → Type 0
AllReturnIn no_array = Unit
AllReturnIn (array fs) = AllReturn (footprint_each fs)

collect-Returns :
    {C : Type 0} (vas : Option (List VarAccess)) (callees : Callees C)
    → (enough vas callees ≡ true)
    → AllReturnIn callees
    → Returns (collect vas (footprints callees))
unfolding collect footprints
collect-Returns none callees h each = ([], (λ acc. rw (append-nil acc)), tt)
collect-Returns (some vas) no_array h each = collect_flat-Returns vas
collect-Returns (some vas) (array fs) h each =
    collect_calls-Returns vas (footprint_each fs) each (ground (arith, length-footprint_each fs))

mutual
  unfolding matched build_var_access_footprint

  build-Returns :
      {C : Type 0} (f : FuncInfo C) → matched f ≡ true → Returns (build_var_access_footprint f)
  build-Returns (func_info f callees) h =
      elim (Bool-cases (f.in_system_header || not f.has_definition)) [
        | inl e ↦ ([], (λ acc. rw (e, append-nil acc)), tt)
        | inr e ↦
            let (r, q, k) =
              collect-Returns f.var_accesses callees (ground arith)
                (callees-Returns callees (ground arith)) in
            (r, (λ acc. rw (e) (q acc)), k)
      ]

  callees-Returns :
      {C : Type 0} (callees : Callees C) → matched_callees callees ≡ true → AllReturnIn callees
  callees-Returns no_array h = tt
  callees-Returns (array fs) h = each-Returns fs h

  each-Returns :
      {C : Type 0} (fs : FuncInfoArr C) → matched_each fs ≡ true → AllReturn (footprint_each fs)
  each-Returns nil h = tt
  each-Returns (cons f fs) h = (build-Returns f (ground arith), each-Returns fs (ground arith))

-- Where every call marker of a function that is gone into has its callee, `build_var_access_footprint`
-- returns: it appends a list of accesses to the footprint, the same one whatever was there before,
-- and none of them is nullified or the marker of a call.
pub footprint-Returns :
    {C : Type 0} (f : FuncInfo C)
    → matched f ≡ true
    → (r : List VarAccess) × ((acc : List VarAccess)
        → build_var_access_footprint f acc ≡ some (acc ++ r))
      × All Kept r
footprint-Returns f h = build-Returns f h
