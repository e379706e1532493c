-- ===== src/Walk/Total.antt =====
-- When `unwind_func_info` returns: its loops over the accesses of one function.
use prongc.Prelude.{
  ℕ, ◌+◌, ◌≤◌, ◌≡◌, refl, inl, inr, Bool, true, false, not, Bool-cases, Option, none, some,
  none_ne_some, str_eq, List, [], ◌∷◌, get_elem?, All, Str, arith, ◌==◌, if◌then◌else◌, ◌>>=◌,
  of_Holds,
}
use prongc.VarAccess.{VarAccess, call, type_code, nullify, va_is_placeholder_type, strcmp_eq}
use prongc.FuncInfo.{func_info, FuncInfoArr, nil, cons}
use prongc.Core.Footprint.{is_type}
use prongc.Core.Footprint.Inline.{calls, count}
use prongc.Core.Overlap.Sound.{has_usr}
use prongc.Core.Rename.{rename_access}
use prongc.Core.Unwind.{
  contains, null_local, null_param, lock_kind, classify_access, each_access, each_if_any,
  map_argument, map_arguments, resolving_calls,
}
use prongc.Core.Unwind.Irrelevant.{contains_usr, lock_kind-some}
use prongc.Walk.Regular.{sound_one, sound, sound_if_any}
use prongc.Walk.Same.{Same, null_local-Same}

-- a call that returns
abbrev pub Total : {A : Type 0} → Option A → Type 0
Total {A} m = (a : A) × (m ≡ some a)

pub bind-Total :
    {A B : Type 0} (m : Option A) (k : A → Option B)
    → Total m
    → ((a : A) → m ≡ some a → Total (k a))
    → Total (m >>= k)
bind-Total none k (a, e) h = cc
bind-Total (some b) k (a, e) h = h b refl

pub some_usr : (o : Option Str) → has_usr o ≡ true → (n : Str) × (o ≡ some n)
some_usr none h = cc
some_usr (some n) h = (n, refl)

nulled-Total :
    (b : Bool) (ss : List Str) (va : VarAccess)
    → (b ≡ true → has_usr va.usr ≡ true)
    → Total
        (if b then (contains ss va.usr >>= λ y. some (if y then nullify va else va)) else some va)
nulled-Total false ss va h = (va, refl)
nulled-Total true ss va h =
    let (y, e) = contains_usr ss va (some_usr va.usr (h refl)) in
    ((if y then nullify va else va), rw (e) refl)

null_local-Total :
    (locals : List Str) (va : VarAccess) → sound_one va ≡ true → Total (null_local locals va)
unfolding null_local
null_local-Total locals va s = nulled-Total _ locals va (λ h. ground (arith, s, h))

null_param-Total :
    (params : List Str) (va : VarAccess) → sound_one va ≡ true → Total (null_param params va)
unfolding null_param va_is_placeholder_type
null_param-Total params va s = nulled-Total _ params va (λ h. ground (arith, s, h))

pub classify_access-Total :
    (locals params : List Str) (va : VarAccess)
    → sound_one va ≡ true
    → Total (classify_access locals params va)
unfolding classify_access
classify_access-Total locals params va s = bind-Total (lock_kind va) _ (lock_kind-some va) (λ t k.
    elim (Bool-cases (type_code t == 0)) [
      | inr z ↦ rw (z) (record va { type = t }, refl)
      | inl z ↦ rw (z) (
          bind-Total (null_local locals va) (null_param params) (null_local-Total locals va s)
            (λ u e.
              null_param-Total params u
                (of_Holds (Same va) (null_local locals va) u (null_local-Same locals va) e s).1))
    ])

strcmp-Total : (o : Option Str) (t : Str) → has_usr o ≡ true → Total (strcmp_eq o (some t))
unfolding strcmp_eq
strcmp-Total none t h = cc
strcmp-Total (some u) t h = (str_eq u t, refl)

renamed-Total :
    (b : Bool) (m : Option Bool) (usr : Option Str) (va : VarAccess)
    → (b ≡ true → Total m)
    → has_usr usr ≡ true
    → Total (
        if b
        then (m >>= λ same.
            if same then (usr >>= λ u. some (record va { usr = some u })) else some va)
        else some va)
renamed-Total false m usr va t h = (va, refl)
renamed-Total true none usr va t h = absurd (none_ne_some (t refl).1)
renamed-Total true (some true) none va t h = cc
renamed-Total true (some true) (some u) va t h = (record va { usr = some u }, refl)
renamed-Total true (some false) usr va t h = (va, refl)

pub rename_access-Total :
    (param : Str) (usr : Option Str) (va : VarAccess)
    → has_usr usr ≡ true
    → sound_one va ≡ true
    → Total (rename_access param usr va)
unfolding rename_access
rename_access-Total param usr va h s =
    renamed-Total (not (va_is_placeholder_type va.type)) (strcmp_eq va.usr (some param)) usr va
      (λ p. strcmp-Total va.usr param (ground (arith, s, p))) h

pub each_access-Total :
    (f : VarAccess → Option VarAccess)
    → ((va : VarAccess) → sound_one va ≡ true → Total (f va))
    → (vas : List VarAccess) → sound vas ≡ true
    → Total (each_access f vas)
unfolding each_access
each_access-Total f h [] s = ([], refl)
each_access-Total f h (va ∷ vas) s =
    let (v, e) = h va (ground (arith, s)) in
    let (vs, e') = each_access-Total f h vas (ground (arith, s)) in (v ∷ vs, rw (e, e') refl)

pub each_if_any-Total :
    (f : VarAccess → Option VarAccess)
    → ((va : VarAccess) → sound_one va ≡ true → Total (f va))
    → (o : Option (List VarAccess)) → sound_if_any o ≡ true
    → Total (each_if_any f o)
unfolding each_if_any
each_if_any-Total f h none s = (none, refl)
each_if_any-Total f h (some vas) s =
    let (ws, e) = each_access-Total f h vas s in (some ws, rw (e) refl)

-- The calls that the callees are resolved from, each with a USR.
abbrev pub WithUsr : Option VarAccess → Type 0
WithUsr none = Unit
WithUsr (some va) = has_usr va.usr ≡ true

abbrev Resolved : Option (List (Option VarAccess)) → Type 0
Resolved m = (cs : List (Option VarAccess)) × (m ≡ some cs) × All WithUsr cs

one_call :
    (in_header : Bool) (va : VarAccess) (stay next : Option (List (Option VarAccess)))
    → Resolved stay
    → Resolved next
    → has_usr va.usr ≡ true
    → Resolved (if in_header then stay else (next >>= λ calls. some (some va ∷ calls)))
one_call true va stay next p q u = p
one_call false va stay next p (cs, e, w) u = (some va ∷ cs, rw (e) refl, (u, w))

pub resolving_calls-Total :
    {C : Type 0} (vas : List VarAccess) (fs : FuncInfoArr C)
    → sound vas ≡ true
    → calls vas ≤ count fs
    → (cs : List (Option VarAccess)) × (resolving_calls vas fs ≡ some cs) × All WithUsr cs
unfolding resolving_calls
resolving_calls-Total {C = C} [] fs s h = ([], refl, tt)
resolving_calls-Total {C = C} (va ∷ vas) nil s h = elim (Bool-cases (is_type call va)) [
  | inl c ↦ absurd (ground (arith, h, c))
  | inr c ↦
      let (cs, e, w) =
        resolving_calls-Total {C = C} vas nil (ground (arith, s)) (ground (arith, h, c)) in
      (cs, rw (c) e, w)
]
resolving_calls-Total {C = C} (va ∷ vas) (cons (func_info f callees) fs) s h =
    let s' : sound vas ≡ true = ground (arith, s) in
    elim (Bool-cases (is_type call va)) [
      | inr c ↦
          let (cs, e, w) =
            resolving_calls-Total vas (cons (func_info f callees) fs) s' (ground (arith, h, c)) in
          (cs, rw (c) e, w)
      | inl c ↦ rw (c) (
          one_call f.in_system_header va (resolving_calls vas (cons (func_info f callees) fs))
            (resolving_calls vas fs)
            (resolving_calls-Total vas (cons (func_info f callees) fs) s' (ground (arith, h, c)))
            (resolving_calls-Total vas fs s' (ground (arith, h, c))) (ground (arith, s, c)))
    ]

pure_access-Total :
    (f : VarAccess → VarAccess) (vas : List VarAccess) → Total (each_access (λ va. some (f va)) vas)
unfolding each_access
pure_access-Total f [] = ([], refl)
pure_access-Total f (va ∷ vas) = let (vs, e) = pure_access-Total f vas in (f va ∷ vs, rw (e) refl)

pure-Total :
    (f : VarAccess → VarAccess) (o : Option (List VarAccess))
    → Total (each_if_any (λ va. some (f va)) o)
unfolding each_if_any
pure-Total f none = (none, refl)
pure-Total f (some vas) = let (ws, e) = pure_access-Total f vas in (some ws, rw (e) refl)

one_argument-Total :
    (room : Str → Bool) (arg : Str) (param_usr : Option Str) (o : Option (List VarAccess))
    → Total (elim param_usr as (λ _. Option (Option (List VarAccess))) [
      | none ↦ some o
      | some usr ↦ each_if_any (λ va. some (map_argument room usr (some arg) va)) o
    ])
one_argument-Total room arg none o = (o, refl)
one_argument-Total room arg (some usr) o = pure-Total (map_argument room usr (some arg)) o

pub map_arguments-Total :
    (room : Str → Bool) (p : Str) (ps : List Str) (i : ℕ) (args : List Str)
    (o : Option (List VarAccess))
    → Total (map_arguments room (p ∷ ps) i args o)
unfolding map_arguments
map_arguments-Total room p ps i [] o = (o, refl)
map_arguments-Total room p ps i (arg ∷ args) o =
    bind-Total _ (map_arguments room (p ∷ ps) (i + 1) args)
      (one_argument-Total room arg (get_elem? (p ∷ ps) i) o)
      (λ vs e. map_arguments-Total room p ps (i + 1) args vs)
