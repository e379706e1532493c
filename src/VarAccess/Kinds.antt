-- ===== src/VarAccess/Kinds.antt =====
-- Which accesses count as accesses to data.
use prongc.Prelude.{Bool, true, false, ◌≡◌, refl, if◌then◌else◌}
use prongc.VarAccess.{
  VarAccessType, null, read, write, ptr_read, ptr_write, escape, lock_acquire, lock_release,
  va_is_placeholder_type,
}

-- The types that stand for an access: the five kinds of use of a variable, and the two lock events.
abbrev pub is_access : VarAccessType → Bool
is_access read = true
is_access write = true
is_access ptr_read = true
is_access ptr_write = true
is_access escape = true
is_access lock_acquire = true
is_access lock_release = true
is_access _ = false

-- `va_is_placeholder_type` holds of null, of calls and of the four branch markers, and of nothing
-- else: acquiring and releasing a lock are no placeholders.
placeholder-not_access :
    (t : VarAccessType) → va_is_placeholder_type t ≡ (if is_access t then false else true)
unfolding va_is_placeholder_type
placeholder-not_access null = refl
placeholder-not_access _ = refl
