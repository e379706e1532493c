-- ===== src/Core/Rename/Alias.antt =====
-- What is resolved from a call.
use prongc.Prelude.{
  ℕ, ◌≡◌, refl, inl, inr, Bool-cases, Option, none, some, List, [], ◌∷◌, All, Str, str_eq,
}
use prongc.VarAccess.{VarAccess, strcmp_eq, va_is_placeholder_type, no_idx}
use prongc.FuncInfo.{Func}
use prongc.Core.Rename.{rename_access, rename_accesses, resolve_var_access_alias}

-- a USR that is not empty
abbrev pub Named : VarAccess → Type 0
Named va = (c : ℕ) × (s : Str) × (va.usr ≡ some (c ∷ s))

abbrev pub AllNamed : Option (List VarAccess) → Type 0
AllNamed none = Unit
AllNamed (some vas) = All Named vas

rename_access-empty :
    (usr : Option Str) (va : VarAccess) → Named va → rename_access [] usr va ≡ some va
unfolding rename_access strcmp_eq
rename_access-empty usr va (c, s, e) = elim (Bool-cases (va_is_placeholder_type va.type)) [
  | inl p ↦ rw (p) refl
  | inr p ↦ rw (p, e) (unfold str_eq in refl)
]

rename_accesses-empty :
    (usr : Option Str) (vas : List VarAccess)
    → All Named vas
    → rename_accesses [] usr vas ≡ some vas
unfolding rename_accesses
rename_accesses-empty usr [] h = refl
rename_accesses-empty usr (va ∷ vas) (h, hs) =
    rw (rename_access-empty usr va h, rename_accesses-empty usr vas hs) refl

resolve_each :
    {C : Type 0} (argument_usr : C → ℕ → Str) (f : Func C) (va : VarAccess)
    (o : Option (List VarAccess))
    → f.var_accesses ≡ o
    → argument_usr f.cursor va.esc_param_idx ≡ []
    → AllNamed o
    → resolve_var_access_alias argument_usr f va ≡ some (record f { var_accesses = o })
unfolding resolve_var_access_alias
resolve_each argument_usr f va none q e h = rw (q) refl
resolve_each argument_usr f va (some vas) q e h = rw (q, e, rename_accesses-empty va.usr vas h) refl

-- Calls carry the index NO_IDX. If libclang has no argument there, that is, gives the empty USR, then
-- resolving a function's parameters from a call changes none of its accesses, whatever the USR of the
-- call is, as long as the function's accesses have USRs that are not empty.
pub resolve-no_idx :
    {C : Type 0} (argument_usr : C → ℕ → Str) (f : Func C) (va : VarAccess)
    → argument_usr f.cursor no_idx ≡ []
    → va.esc_param_idx ≡ no_idx
    → AllNamed f.var_accesses
    → resolve_var_access_alias argument_usr f va ≡ some f
resolve-no_idx argument_usr f va gone e h =
    resolve_each argument_usr f va f.var_accesses refl (rw (e) gone) h
