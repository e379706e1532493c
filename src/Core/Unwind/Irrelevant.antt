-- ===== src/Core/Unwind/Irrelevant.antt =====
-- What is left of the accesses to local variables and parameters.
use prongc.Prelude.{
  ◌≡◌, ◌⊎◌, refl, sym, ap, ◌∙◌, subst, inl, inr, Bool, true, false, not, ◌||◌, ◌&&◌, Bool-cases,
  some_inj, bind_some, Option, none, some, List, [], ◌∷◌, All, Str, str_eq, arith, ◌==◌,
  if◌then◌else◌, ◌>>=◌,
}
use prongc.VarAccess.{
  VarAccess, VarAccessType, null, read, write, escape, lock_acquire, lock_release, type_code,
  va_is_placeholder_type, nullify,
}
use prongc.LockTracking.Pairs.{default_lock_pairs, lock_primitive_type}
use prongc.LockTracking.Pairs.Classify.{is_lock, is_unlock, lock_type-default}
use prongc.Core.Unwind.{
  has_type, contains, null_local, null_param, lock_kind, classify_access, each_access,
}

-- a plain read or write
abbrev pub plain : VarAccess → Bool
plain va = has_type read va || has_type write va

-- A plain access that is left is not to a parameter, and to no local variable either unless its type
-- is a pointer.
abbrev pub Shared : List Str → List Str → VarAccess → Type 0
Shared locals params va =
    plain va ≡ true
    → (contains params va.usr ≡ some false)
      × (va.is_ptr_type ≡ false → contains locals va.usr ≡ some false)

-- a test for nullifying, with what it leaves
pub nulled-cases :
    (b : Bool) (m : Option Bool) (va v : VarAccess)
    → (if b then (m >>= λ y. some (if y then nullify va else va)) else some va) ≡ some v
    → (v.type ≡ null) ⊎ ((v ≡ va) × (b ≡ true → m ≡ some false))
nulled-cases true none va v e = cc
nulled-cases true (some true) va v e = inl (ap (λ x. x.type) (sym (some_inj e)))
nulled-cases true (some false) va v e = inr (sym (some_inj e), λ _. refl)
nulled-cases false m va v e = inr (sym (some_inj e), λ f. cc)

not_plain : (va : VarAccess) → va.type ≡ null → plain va ≡ true → ⊥
not_plain va e h = ground (arith, ap type_code e)

null_local-Shared :
    (locals : List Str) (va v : VarAccess)
    → null_local locals va ≡ some v
    → plain v ≡ true
    → (v ≡ va) × (va.is_ptr_type ≡ false → contains locals va.usr ≡ some false)
unfolding null_local va_is_placeholder_type
null_local-Shared locals va v e h = elim (nulled-cases _ (contains locals va.usr) va v e) [
  | inl n ↦ absurd (not_plain v n h)
  | inr (q, k) ↦ (q, λ p. k (ground (arith, subst (λ x. plain x ≡ true) q h)))
]

null_param-Shared :
    (params : List Str) (va v : VarAccess)
    → null_param params va ≡ some v
    → plain v ≡ true
    → (v ≡ va) × (contains params va.usr ≡ some false)
unfolding null_param
null_param-Shared params va v e h = elim (nulled-cases _ (contains params va.usr) va v e) [
  | inl n ↦ absurd (not_plain v n h)
  | inr (q, k) ↦ (q, k (subst (λ x. plain x ≡ true) q h))
]

kind_of-lock :
    (b c : Bool) (t : VarAccessType)
    → t ≡ (if b then lock_acquire else if c then lock_release else null)
    → (type_code t ≡ 0) ⊎ ((type_code t ≡ 6) ⊎ (type_code t ≡ 7))
kind_of-lock true c t e = inr (inl (ap type_code e))
kind_of-lock false true t e = inr (inr (ap type_code e))
kind_of-lock false false t e = inl (ap type_code e)

spelling-cases :
    (o : Option Str) (b : Bool) (t : VarAccessType)
    → (elim o [ none ↦ some null | some s ↦ if b then lock_primitive_type s else some null ])
      ≡ some t
    → (type_code t ≡ 0) ⊎ ((type_code t ≡ 6) ⊎ (type_code t ≡ 7))
spelling-cases none b t e = inl (sym (ap type_code (some_inj e)))
spelling-cases (some s) false t e = inl (sym (ap type_code (some_inj e)))
spelling-cases (some s) true t e =
    kind_of-lock (is_lock default_lock_pairs s) (is_unlock default_lock_pairs s) t
      (some_inj (sym e ∙ lock_type-default s))

pub lock_kind-cases :
    (va : VarAccess) (t : VarAccessType)
    → lock_kind va ≡ some t
    → (type_code t ≡ 0) ⊎ ((type_code t ≡ 6) ⊎ (type_code t ≡ 7))
unfolding lock_kind
lock_kind-cases va t e = spelling-cases va.esc_func_spelling (va.esc_param_idx == 0) t e

not_lock_type :
    (va : VarAccess) (t : VarAccessType)
    → (type_code t ≡ 0) ⊎ ((type_code t ≡ 6) ⊎ (type_code t ≡ 7))
    → plain (record va { type = t }) ≡ true
    → ⊥
not_lock_type va t c h = ground (arith)

tests-Shared :
    (locals params : List Str) (va v : VarAccess)
    → (null_local locals va >>= null_param params) ≡ some v
    → Shared locals params v
tests-Shared locals params va v e h =
    let (u, l, p) = bind_some (null_local locals va) (null_param params) e in
    let (q, c) = null_param-Shared params u v p h in
    let (q', c') = null_local-Shared locals va u l (subst (λ x. plain x ≡ true) q h) in
    (rw (q) c, λ ptr. rw (q, q') (c' (rw (← q', ← q) ptr)))

either :
    {A : Type 0} (b : Bool) (w v : A) (m : Option A)
    → (if not b then some w else m) ≡ some v
    → (w ≡ v) ⊎ (m ≡ some v)
either true w v m e = inr e
either false w v m e = inl (some_inj e)

classify-Shared :
    (locals params : List Str) (va v : VarAccess)
    → classify_access locals params va ≡ some v
    → Shared locals params v
unfolding classify_access
classify-Shared locals params va v e =
    let (t, k, e') = bind_some (lock_kind va) _ e in
    elim (either (type_code t == type_code null) (record va { type = t }) v _ e') [
      | inl q ↦ λ h.
          absurd
            (not_lock_type va t (lock_kind-cases va t k) (subst (λ x. plain x ≡ true) (sym q) h))
      | inr q ↦ tests-Shared locals params va v q
    ]

abbrev pub HasUsr : VarAccess → Type 0
HasUsr va = (n : Str) × (va.usr ≡ some n)

contains-some : (ss : List Str) (n : Str) → (b : Bool) × (contains ss (some n) ≡ some b)
contains-some [] n = (false, refl)
contains-some (s ∷ ss) n = let (b, e) = contains-some ss n in (str_eq s n || b, rw (e) refl)

pub contains_usr :
    (ss : List Str) (va : VarAccess) → HasUsr va → (b : Bool) × (contains ss va.usr ≡ some b)
contains_usr ss va (n, e) = let (b, h) = contains-some ss n in (b, rw (e) h)

pub lock_kind-some : (va : VarAccess) → (t : VarAccessType) × (lock_kind va ≡ some t)
unfolding lock_kind
lock_kind-some va = go va.esc_func_spelling (va.esc_param_idx == 0)
  where
    go :
        (o : Option Str) (b : Bool)
        → (t : VarAccessType) × ((elim o [
          | none ↦ some null
          | some s ↦ if b then lock_primitive_type s else some null
        ])
            ≡ some t)
    go none b = (null, refl)
    go (some s) false = (null, refl)
    go (some s) true = (_, lock_type-default s)

nulled-some :
    (b : Bool) (m : Option Bool) (va : VarAccess)
    → (y : Bool) × (m ≡ some y)
    → HasUsr va
    → (v : VarAccess) × ((if b then (m >>= λ y. some (if y then nullify va else va)) else some va)
        ≡ some v)
      × HasUsr v
nulled-some false m va r h = (va, refl, h)
nulled-some true m va (true, e) h = (nullify va, rw (e) refl, h)
nulled-some true m va (false, e) h = (va, rw (e) refl, h)

classify-some :
    (locals params : List Str) (va : VarAccess)
    → HasUsr va
    → (v : VarAccess) × (classify_access locals params va ≡ some v)
unfolding classify_access null_local null_param
classify-some locals params va h =
    let (t, k) = lock_kind-some va in
    elim (Bool-cases (type_code t == type_code null)) [
      | inr e ↦ (record va { type = t }, rw (k, e) refl)
      | inl e ↦
          let (v, l, h') =
            nulled-some
              (not va.is_ptr_type
                && (not (has_type escape va) && not (va_is_placeholder_type va.type)))
              (contains locals va.usr) va (contains_usr locals va h) h in
          let (w, l', _) =
            nulled-some (plain v) (contains params v.usr) v (contains_usr params v h') h' in
          (w, rw (k, e, l) l')
    ]

-- Where every access has a USR, the third loop of `unwind_func_info` returns, and in what it leaves a
-- plain read or write is not to a parameter of the function, and it is to a local variable only if
-- its type is a pointer.
pub each_access-Shared :
    (locals params : List Str) (vas : List VarAccess)
    → All HasUsr vas
    → (vs : List VarAccess) × (each_access (classify_access locals params) vas ≡ some vs)
      × All (Shared locals params) vs
unfolding each_access
each_access-Shared locals params [] h = ([], refl, tt)
each_access-Shared locals params (va ∷ vas) (h, hs) =
    let (v, e) = classify-some locals params va h in
    let (vs, e', k) = each_access-Shared locals params vas hs in
    (v ∷ vs, rw (e, e') refl, (classify-Shared locals params va v e, k))
