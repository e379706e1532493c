-- ===== src/Core/Rename.antt =====
-- src/core.c: the identities given to the arguments of the root function and to what is passed on,
-- `generate_artificial_param_usr` and `resolve_var_access_alias`.
pub mod Artificial
pub mod Alias
use prongc.Prelude.{
  ℕ, zero, suc, ◌+◌, ◌*◌, ◌/◌, ◌%◌, ◌^◌, Bool, not, Option, none, some, List, [], ◌∷◌, ◌++◌, length,
  take, Str, codes, ltb, ◌==◌, if◌then◌else◌, ◌>>=◌,
}
use prongc.VarAccess.{VarAccess, strcmp_eq, va_is_placeholder_type}
use prongc.FuncInfo.{Func}

-- the digits that "%u" and "%zu" print, of a number below 10 ^ (k + 1)
unfoldable pub digits : ℕ → ℕ → Str
digits zero n = (48 + n % 10) ∷ []
digits (suc k) n =
    let front = digits k (n / 10) in
    if ltb n 10 then (48 + n % 10) ∷ [] else front ++ (48 + n % 10) ∷ []

-- the loop over the name, on 32-bit numbers
unfoldable pub usr_hash : ℕ → Str → ℕ
usr_hash hash [] = hash
usr_hash hash (c ∷ s) = usr_hash ((((hash * 2 ^ 5) % 2 ^ 32 + hash) % 2 ^ 32 + c) % 2 ^ 32) s

-- `strstr(old_usr, "::")`
unfoldable pub field_access : Str → Str
field_access [] = []
field_access (c ∷ []) = []
field_access (c ∷ d ∷ s) =
    let rest = field_access (d ∷ s) in
    if c == b':' then (if d == b':' then c ∷ d ∷ s else rest) else rest

-- what is printed where the name is not empty
unfoldable pub print_usr : Str → Str → Str
print_usr name field =
    codes "p:"
    ++ (digits 9 (usr_hash 5381 name) ++ b':' ∷ (digits 19 (length name) ++ b':' ∷ (name ++ field)))

-- `generate_artificial_param_usr`: NULL where `malloc` finds nothing (`found`), and else what
-- `snprintf` puts into a buffer of 64 bytes and the name's length.
unfoldable pub generate_artificial_param_usr : Bool → Option Str → Str → Option Str
generate_artificial_param_usr found name old_usr =
    let safe_name : Str = elim name [ none ↦ [] | some s ↦ s ] in
    if not found
    then none
    else if ltb 0 (length safe_name)
    then some (take (63 + length safe_name) (print_usr safe_name (field_access old_usr)))
    else some (codes "p:null:unnamed")

-- the body of the loop of `resolve_var_access_alias`; `strdup` of NULL is a fault
unfoldable pub rename_access : Str → Option Str → VarAccess → Option VarAccess
unfolding strcmp_eq va_is_placeholder_type
rename_access param_usr usr working_va =
    if not (va_is_placeholder_type working_va.type)
    then (strcmp_eq working_va.usr (some param_usr) >>= λ same.
        if same then (usr >>= λ u. some (record working_va { usr = some u })) else some working_va)
    else some working_va

unfoldable pub rename_accesses : Str → Option Str → List VarAccess → Option (List VarAccess)
unfolding rename_access
rename_accesses param_usr usr [] = some []
rename_accesses param_usr usr (va ∷ vas) = rename_access param_usr usr va >>= λ v.
    rename_accesses param_usr usr vas >>= λ vs. some (v ∷ vs)

-- `resolve_var_access_alias`, on an element of an array of functions: that is never the one null
-- function that `func_info_is_null` tells by its address. `argument_usr` is libclang's USR of a
-- function's argument.
module _ {C : Type 0} (argument_usr : C → ℕ → Str) where
  unfoldable pub resolve_var_access_alias : Func C → VarAccess → Option (Func C)
  unfolding rename_accesses
  resolve_var_access_alias esc_func_info var_access = elim esc_func_info.var_accesses [
    | none ↦ some esc_func_info
    | some vas ↦
        rename_accesses (argument_usr esc_func_info.cursor var_access.esc_param_idx) var_access.usr
          vas
        >>= λ vs. some (record esc_func_info { var_accesses = some vs })
  ]
