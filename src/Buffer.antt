-- ===== src/Buffer.antt =====
-- The growing arrays of src/cursor_arr.c, src/var_access.c and src/func_info.c. They share one
-- record: a capacity, a size and a block of memory; each doubles its capacity by a test of its own.
pub mod Bounds
use prongc.Prelude.{
  ℕ, ◌+◌, ◌-◌, ◌*◌, ◌%◌, ◌^◌, Bool, Option, none, some, List, [], ◌∷◌, ◌++◌, length, ltb, leb,
  if◌then◌else◌, ◌==◌,
}

-- `bytes` is the size of the block that `data` points to, and `items` the first `size` elements.
pub record Buffer (A : Type 0) : Type 0 where
  pub capacity : ℕ
  pub bytes : ℕ
  pub items : List A

-- sizes on a 64-bit machine
abbrev pub sizeof_cursor : ℕ
sizeof_cursor = 32

abbrev pub sizeof_cursor_arr : ℕ
sizeof_cursor_arr = 24

abbrev pub sizeof_var_access : ℕ
sizeof_var_access = 64

abbrev pub sizeof_func_info : ℕ
sizeof_func_info = 104

-- CURSOR_ARR_INIT_CAP, VAR_ACC_ARR_INIT_CAP and FUNC_INFO_INIT_CAP
abbrev pub init_cap : ℕ
init_cap = 8

-- `init_cursor_array`. The block is sized by the array's own record, not by a cursor.
unfoldable pub init_cursor_array : {A : Type 0} → Buffer A
init_cursor_array = record { capacity = init_cap; bytes = sizeof_cursor_arr * init_cap; items = [] }

unfoldable pub init_var_access_array : {A : Type 0} → Buffer A
init_var_access_array = record {
  capacity = init_cap;
  bytes = sizeof_var_access * init_cap;
  items = [];
}

unfoldable pub init_func_info_array : {A : Type 0} → Buffer A
init_func_info_array = record {
  capacity = init_cap;
  bytes = sizeof_func_info * init_cap;
  items = [];
}

-- `room n` says whether `reallocarray` finds `n` bytes; the doubled capacity wraps around in `size_t`.
-- The callers do not test the result, so that `none`, a fault, follows when there is no room.
module _ {A : Type 0} (room : ℕ → Bool) (sizeof : ℕ) where
  unfoldable pub double_capacity : Buffer A → Option (Buffer A)
  double_capacity b =
      let capacity : ℕ = b.capacity * 2 % 2 ^ 64 in
      if room (capacity * sizeof)
      then some (record b { capacity = capacity; bytes = capacity * sizeof })
      else none

  -- `data[size++] = x`, a fault where the element would lie outside of the block
  unfoldable pub put_last : A → Buffer A → Option (Buffer A)
  put_last x b =
      if leb ((length b.items + 1) * sizeof) b.bytes
      then some (record b { items = b.items ++ x ∷ [] })
      else none

module _ {A : Type 0} (room : ℕ → Bool) where
  -- the test of `push_cursor`, `push_access_copy` and `push_func_info`: a size in bytes against a
  -- capacity in elements
  unfoldable pub push_sized : ℕ → A → Buffer A → Option (Buffer A)
  push_sized sizeof x b =
      if ltb b.capacity ((length b.items + 1) * sizeof)
      then elim (double_capacity room sizeof b) [ none ↦ none | some c ↦ put_last room sizeof x c ]
      else put_last room sizeof x b

  unfoldable pub push_cursor : A → Buffer A → Option (Buffer A)
  push_cursor = push_sized sizeof_cursor

  unfoldable pub push_access_copy : A → Buffer A → Option (Buffer A)
  push_access_copy = push_sized sizeof_var_access

  unfoldable pub push_func_info : A → Buffer A → Option (Buffer A)
  push_func_info = push_sized sizeof_func_info

  -- `push_var_access`, whose test is `size >= capacity-1`
  unfoldable pub push_var_access : A → Buffer A → Option (Buffer A)
  push_var_access x b =
      if leb ((b.capacity + (2 ^ 64 - 1)) % 2 ^ 64) (length b.items)
      then elim (double_capacity room sizeof_var_access b) [
        | none ↦ none
        | some c ↦ put_last room sizeof_var_access x c
      ]
      else put_last room sizeof_var_access x b
