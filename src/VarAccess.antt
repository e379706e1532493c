-- ===== src/VarAccess.antt =====
-- src/var_access.c, and its types in inc/types.h: one access to a variable, or a marker.
pub mod Kinds
use prongc.Prelude.{
  ℕ, ◌-◌, ◌^◌, Bool, ◌||◌, ◌&&◌, Option, some, Str, str_eq, leb, ◌==◌, if◌then◌else◌, ◌>>=◌,
}

-- `VarAccessType`
pub data VarAccessType : Type 0 where
  null read write ptr_read ptr_write escape : VarAccessType
  lock_acquire lock_release call if_stmt then_block else_stmt end_if : VarAccessType

-- the numbers that the enumeration gives them
abbrev pub type_code : VarAccessType → ℕ
type_code null = 0
type_code read = 1
type_code write = 2
type_code ptr_read = 3
type_code ptr_write = 4
type_code escape = 5
type_code lock_acquire = 6
type_code lock_release = 7
type_code call = 8
type_code if_stmt = 9
type_code then_block = 10
type_code else_stmt = 11
type_code end_if = 12

-- A pointer to a string is `none` where it is NULL.
pub record VarAccess : Type 0 where
  pub usr : Option Str
  pub name : Option Str
  pub parent_func_name : Option Str
  pub esc_func_spelling : Option Str
  pub esc_func_usr : Option Str
  pub esc_param_idx : ℕ
  pub line : ℕ
  pub column : ℕ
  pub type : VarAccessType
  pub is_ptr_type : Bool

-- UINT_MAX
abbrev pub no_idx : ℕ
no_idx = 2 ^ 32 - 1

-- `init_var_access`: a call is named by the function that it calls.
unfoldable pub init_var_access :
    (usr name esc_func_spelling esc_func_usr : Option Str) (parent_func_name : Option Str)
    (esc_param_idx line column : ℕ) (type : VarAccessType) (is_ptr_type : Bool)
    → VarAccess
init_var_access usr name esc_func_spelling esc_func_usr parent esc_param_idx line column type ptr =
    let is_call : Bool = type_code type == type_code call in
    record {
      usr = if is_call then esc_func_usr else usr;
      name = if is_call then esc_func_spelling else name;
      parent_func_name = parent;
      esc_func_spelling = esc_func_spelling;
      esc_func_usr = esc_func_usr;
      esc_param_idx = esc_param_idx;
      line = line;
      column = column;
      type = type;
      is_ptr_type = ptr;
    }

-- `strcmp(a, b) == 0`, which is undefined at NULL
unfoldable pub strcmp_eq : Option Str → Option Str → Option Bool
strcmp_eq a b = a >>= λ s. b >>= λ t. some (str_eq s t)

unfoldable pub equal_var_accesses : VarAccess → VarAccess → Option Bool
unfolding strcmp_eq
equal_var_accesses va_a va_b = strcmp_eq va_a.usr va_b.usr

unfoldable pub va_is_placeholder_type : VarAccessType → Bool
va_is_placeholder_type t =
    type_code t == type_code null
    || (leb (type_code call) (type_code t) && leb (type_code t) (type_code end_if))

-- the assignment `va->type = VarAccess_Null`
abbrev pub nullify : VarAccess → VarAccess
nullify va = record va { type = null }
