-- ===== src/LockTracking/Fields.antt =====
-- src/lock_tracking.c: the array of lock protection fields, and what changes it.
-- A pointer to a field is the address of the array's block with the field's index. Reading or writing
-- through a pointer into a block that `reallocarray` has given up is a fault, `none`.
pub mod Closed
pub mod Ends
pub mod Copy
pub mod Stale
pub mod Alone
use prongc.Prelude.{
  ℕ, zero, suc, ◌+◌, ◌-◌, ◌*◌, ◌%◌, ◌^◌, Bool, true, false, not, ◌&&◌, Option, none, some, List, [],
  ◌∷◌, ◌++◌, map, length, get_elem?, set, Str, ltb, leb, ◌==◌, if◌then◌else◌, ◌>>=◌,
}
use prongc.LockTracking.Pairs.{LockPrimitivePair, lock_tracking_gen_hash}

abbrev pub size_max : ℕ
size_max = 2 ^ 64 - 1

-- NUM_LP_FIELDS
abbrev pub num_lp_fields : ℕ
num_lp_fields = 10

pub record FieldPtr : Type 0 where
  pub base : ℕ
  pub idx : ℕ

-- `struct lock_protection_field`. `lock_va` is the index of the access in the footprint.
pub record LpField : Type 0 where
  pub lock_va : ℕ
  pub next_prot_range : Option FieldPtr
  pub branch_depth : ℕ
  pub protection_range_start : ℕ
  pub protection_range_end : ℕ
  pub lock_obj_hash : ℕ
  pub lock_func_hash : ℕ
  pub unlock_func_hash : ℕ
  pub is_ll_start : Bool

-- `lp_fields` has the fields in use, and its length is `size`.
pub record ProtectionFieldArray : Type 0 where
  pub base : ℕ
  pub capacity : ℕ
  pub lp_fields : List LpField

abbrev pub is_null : Option FieldPtr → Bool
is_null none = true
is_null (some p) = false

unfoldable pub lp_field_is_null : LpField → Bool
lp_field_is_null f = f.lock_obj_hash == 0

unfoldable pub init_protection_field_array : ℕ → ProtectionFieldArray
init_protection_field_array p = record { base = p; capacity = num_lp_fields; lp_fields = [] }

-- `init_lp_field`, a fault where a name or the USR of the lock is NULL
unfoldable pub init_lp_field : LockPrimitivePair → ℕ → Option Str → ℕ → Option LpField
init_lp_field primitive_pair lock_va usr prot_range_start =
    primitive_pair.lock_func >>= λ lock_func. primitive_pair.unlock_func >>= λ unlock_func.
    usr >>= λ obj. some (record {
      lock_va = lock_va;
      next_prot_range = none;
      branch_depth = 0;
      protection_range_start = prot_range_start;
      protection_range_end = size_max;
      lock_obj_hash = lock_tracking_gen_hash obj;
      lock_func_hash = lock_tracking_gen_hash lock_func;
      unlock_func_hash = lock_tracking_gen_hash unlock_func;
      is_ll_start = true;
    })

-- `update_lp_field_array_pointers`: each pointer moves by the distance between the two blocks.
abbrev pub move_ptr : ℕ → ℕ → Option FieldPtr → Option FieldPtr
move_ptr old new none = none
move_ptr old new (some p) = some (record p { base = p.base + new - old })

unfoldable pub update_lp_field_array_pointers : ProtectionFieldArray → ℕ → ProtectionFieldArray
update_lp_field_array_pointers a old_base = record a {
  lp_fields =
      map
        (λ (f : LpField). record f { next_prot_range = move_ptr old_base a.base f.next_prot_range })
        a.lp_fields;
}

-- The field behind a pointer.
unfoldable pub deref : ProtectionFieldArray → FieldPtr → Option LpField
deref a p = if p.base == a.base then get_elem? a.lp_fields p.idx else none

-- `*p = f`
unfoldable pub assign : FieldPtr → LpField → ProtectionFieldArray → Option ProtectionFieldArray
assign p f a =
    if (p.base == a.base) && ltb p.idx (length a.lp_fields)
    then some (record a { lp_fields = set a.lp_fields p.idx f })
    else none

-- the address of the field at an index
abbrev pub ptr_at : ProtectionFieldArray → ℕ → FieldPtr
ptr_at a i = record { base = a.base; idx = i }

-- the slot behind the last field, a fault where the block ends
unfoldable pub append_field : LpField → ProtectionFieldArray → Option ProtectionFieldArray
append_field f a =
    if ltb (length a.lp_fields) a.capacity
    then some (record a { lp_fields = a.lp_fields ++ f ∷ [] })
    else none

-- `n - 1` on `size_t`
abbrev pub pred64 : ℕ → ℕ
pred64 n = (n + (2 ^ 64 - 1)) % 2 ^ 64

-- `realloc old cap` is where `reallocarray` puts the block of `cap` fields that was at `old`, `none`
-- if memory is exhausted.
module _ (realloc : ℕ → ℕ → Option ℕ) where
  unfoldable pub grow : ProtectionFieldArray → Option ProtectionFieldArray
  unfolding update_lp_field_array_pointers
  grow a = realloc a.base (a.capacity * 2) >>= λ p.
      some
        (update_lp_field_array_pointers (record a { base = p; capacity = a.capacity * 2 }) a.base)

  unfoldable pub add_lock_protection_field :
      LockPrimitivePair → ℕ → Option Str → ℕ → ProtectionFieldArray → Option ProtectionFieldArray
  add_lock_protection_field primitive_pair lock_va usr prot_range_start a =
      (if leb a.capacity (length a.lp_fields) then grow a else some a) >>= λ b.
      init_lp_field primitive_pair lock_va usr prot_range_start >>= λ f. append_field f b

  -- `add_lock_protection_copy`: the array, and the pointer to the copy
  unfoldable pub add_lock_protection_copy :
      FieldPtr → ProtectionFieldArray → Option (ProtectionFieldArray × FieldPtr)
  add_lock_protection_copy lp_field_in a =
      (if leb (pred64 a.capacity) (length a.lp_fields) then grow a else some a) >>= λ b.
      deref b lp_field_in >>= λ f.
      append_field (record f { is_ll_start = false; next_prot_range = none }) b >>= λ c.
      some (c, ptr_at c (length b.lp_fields))

-- `get_lp_field_linked_list_end`, on fuel: one round for each field that is passed. `none` is a fault, or
-- a list that does not end within the fuel; `end_list` gives as much as there are fields, which a list
-- that visits no field twice does not exceed.
unfoldable pub get_lp_field_linked_list_end : ℕ → ProtectionFieldArray → FieldPtr → Option FieldPtr
get_lp_field_linked_list_end zero a p = none
get_lp_field_linked_list_end (suc fuel) a p = deref a p >>= λ f. elim f.next_prot_range [
  | none ↦ some p
  | some q ↦ get_lp_field_linked_list_end fuel a q
]

-- the write at the end of a field's linked list
unfoldable pub end_list : ℕ → ℕ → ProtectionFieldArray → Option ProtectionFieldArray
end_list prot_range_end i a =
    get_lp_field_linked_list_end (length a.lp_fields) a (ptr_at a i) >>= λ tail.
    deref a tail >>= λ t. assign tail (record t { protection_range_end = prot_range_end }) a

-- the body of the loop in `set_protection_range_end`
unfoldable pub end_one : ℕ → ℕ → ℕ → ProtectionFieldArray → Option ProtectionFieldArray
end_one lock_obj_hash prot_range_end i a = get_elem? a.lp_fields i >>= λ f.
    if (f.protection_range_end == size_max) && (f.lock_obj_hash == lock_obj_hash)
    then end_list prot_range_end i a
    else some a

-- A loop over the indices from `i`, for `rounds` rounds.
unfoldable pub for_each :
    (ℕ → ProtectionFieldArray → Option ProtectionFieldArray)
    → ℕ
    → ℕ
    → ProtectionFieldArray
    → Option ProtectionFieldArray
for_each body zero i a = some a
for_each body (suc rounds) i a = body i a >>= λ b. for_each body rounds (i + 1) b

unfoldable pub set_protection_range_end :
    Option Str → ℕ → ProtectionFieldArray → Option ProtectionFieldArray
set_protection_range_end lock_obj_usr prot_range_end a = lock_obj_usr >>= λ usr.
    for_each (end_one (lock_tracking_gen_hash usr) prot_range_end) (length a.lp_fields) 0 a

-- A copy of the field `i` is put behind the others and linked to it. `mark` is what the field's own
-- record becomes; the copy protects from `prot_range_start` on.
unfoldable pub copy_range :
    (ℕ → ℕ → Option ℕ)
    → ℕ
    → (FieldPtr → LpField → LpField)
    → ℕ
    → ProtectionFieldArray
    → Option ProtectionFieldArray
copy_range realloc prot_range_start mark i a =
    add_lock_protection_copy realloc (ptr_at a i) a >>= λ (b, new). deref b (ptr_at a i) >>= λ g.
    assign (ptr_at a i) (mark new g) b >>= λ c. deref c new >>= λ h.
    assign new
      (record h { protection_range_start = prot_range_start; protection_range_end = size_max }) c

-- the test of `add_protection_range_fields_inactive`
abbrev pub ended_here : ℕ → LpField → Bool
ended_here branch_depth f =
    is_null f.next_prot_range
    && (not (f.protection_range_end == size_max) && (f.branch_depth == branch_depth))

abbrev pub mark_inactive : FieldPtr → LpField → LpField
mark_inactive new g = record g { next_prot_range = some new }

module _ (realloc : ℕ → ℕ → Option ℕ) (prot_range_start branch_depth : ℕ) where
  -- what `add_protection_range_fields_active` makes of a field that is still open
  abbrev pub mark_active : FieldPtr → LpField → LpField
  mark_active new g = record g {
    next_prot_range = some new;
    protection_range_end = prot_range_start;
    branch_depth = branch_depth;
  }

  unfoldable pub split_active : ℕ → ProtectionFieldArray → Option ProtectionFieldArray
  split_active i a = get_elem? a.lp_fields i >>= λ f.
      if f.protection_range_end == size_max
      then copy_range realloc prot_range_start mark_active i a
      else some a

  unfoldable pub add_protection_range_fields_active :
      ProtectionFieldArray → Option ProtectionFieldArray
  add_protection_range_fields_active a = for_each split_active (length a.lp_fields) 0 a

  unfoldable pub reopen_inactive : ℕ → ProtectionFieldArray → Option ProtectionFieldArray
  reopen_inactive i a = get_elem? a.lp_fields i >>= λ f.
      if ended_here branch_depth f
      then copy_range realloc prot_range_start mark_inactive i a
      else some a

  unfoldable pub add_protection_range_fields_inactive :
      ProtectionFieldArray → Option ProtectionFieldArray
  add_protection_range_fields_inactive a = for_each reopen_inactive (length a.lp_fields) 0 a
