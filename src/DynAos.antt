-- ===== src/DynAos.antt =====
-- src/dyn_aos.c, inc/dyn_aos.h: the dynamic array of strings. The strings lie packed in one block,
-- each behind its NUL, and `strings` holds the address of each. Addresses are numbers.
pub mod View
pub mod Grow
pub mod Push
pub mod Query
pub mod Append
use prongc.Prelude.{
  ℕ, zero, suc, ◌+◌, ◌-◌, ◌*◌, ◌%◌, ◌^◌, Bool, true, false, Option, none, some, List, [], ◌∷◌, ◌++◌,
  map, length, get_elem?, take, drop, Str, str_eq, ltb, leb, ◌==◌, if◌then◌else◌, ◌>>=◌, ◌||◌,
}

-- `prong_error_t`
pub data ProngError : Type 0 where
  ok not_found tu syntax invalid_arg out_of_memory aos_empty io : ProngError

abbrev pub aos_initial_cap : ℕ
aos_initial_cap = 64

abbrev pub aos_max_str_count : ℕ
aos_max_str_count = 64

-- `block` and `strings` are the bytes and the pointers in use: `size` and `count` are their lengths.
-- What lies behind them in the two allocations is never read.
pub record DynamicAos : Type 0 where
  pub capacity : ℕ
  pub strings_cap : ℕ
  pub base : ℕ
  pub block : List ℕ
  pub strings : List ℕ

-- The allocator. `data_block old cap` is the address of the block of `cap` bytes that takes the
-- place of the one at `old`, and `none` if memory is exhausted. `strings_block cap` says whether
-- there is room for `cap` pointers.
pub record Allocator : Type 0 where
  pub data_block : ℕ → ℕ → Option ℕ
  pub strings_block : ℕ → Bool

-- `init_aos`, with the address that `malloc` returned
unfoldable pub init_aos : ℕ → DynamicAos
init_aos p = record {
  capacity = aos_initial_cap;
  strings_cap = aos_max_str_count;
  base = p;
  block = [];
  strings = [];
}

-- `aos_update_old_strings`: each pointer moves by `array->data - old_data`.
unfoldable pub aos_update_old_strings : DynamicAos → ℕ → DynamicAos
aos_update_old_strings a old_data = record a {
  strings = map (λ p. p + a.base - old_data) a.strings;
}

-- The outcome of a call that may run out of memory. After `oom` one of the pointers of the array is
-- NULL and its old block is lost.
pub data Outcome : Type 0 where
  done : DynamicAos → Outcome
  oom : Outcome
  out_of_fuel : Outcome

abbrev pub and_then : Outcome → (DynamicAos → Outcome) → Outcome
and_then (done a) k = k a
and_then oom k = oom
and_then out_of_fuel k = out_of_fuel

-- `memcpy` of the string with its NUL, and the two counters
unfoldable pub put_string : Str → DynamicAos → DynamicAos
put_string str a = record a {
  block = a.block ++ (str ++ 0 ∷ []);
  strings = a.strings ++ (a.base + length a.block) ∷ [];
}

module _ (alloc : Allocator) where
  -- the loop at the label `bounds_check_data`
  unfoldable pub grow_data : ℕ → ℕ → DynamicAos → Outcome
  unfolding aos_update_old_strings
  grow_data zero str_size a = out_of_fuel
  grow_data (suc fuel) str_size a = elim (ltb a.capacity (length a.block + str_size)) [
    | false ↦ done a
    | true ↦
        let new_cap : ℕ = if a.capacity == 0 then aos_initial_cap else a.capacity * 2 in
        elim (alloc.data_block a.base new_cap) [
          | none ↦ oom
          | some p ↦
              grow_data fuel str_size
                (aos_update_old_strings (record a { base = p; capacity = new_cap }) a.base)
        ]
  ]

  -- the check of `strings_cap`
  unfoldable pub grow_strings : DynamicAos → Outcome
  grow_strings a =
      if ltb a.strings_cap (length a.strings + 1)
      then (let new_cap : ℕ = if a.strings_cap == 0 then aos_max_str_count else a.strings_cap * 2 in
          if alloc.strings_block new_cap then done (record a { strings_cap = new_cap }) else oom)
      else done a

  unfoldable pub aos_push_string : DynamicAos → Str → Outcome
  unfolding grow_strings grow_data put_string
  aos_push_string a str = and_then (grow_strings a) λ b.
      and_then (grow_data (length b.block + length str + 2) (length str + 1) b)
        λ c. done (put_string str c)

-- The bytes from an address up to the next NUL, `none` where a read would leave the block.
unfoldable pub until_nul : List ℕ → Option Str
until_nul [] = none
until_nul (c ∷ m) =
    let rest = until_nul m in if c == 0 then some [] else (rest >>= λ s. some (c ∷ s))

unfoldable pub read_string : DynamicAos → ℕ → Option Str
unfolding until_nul
read_string a p = if ltb p a.base then none else until_nul (drop (p - a.base) a.block)

-- `n - 1` on `size_t`
abbrev pub pred64 : ℕ → ℕ
pred64 n = (n + (2 ^ 64 - 1)) % 2 ^ 64

-- `aos_string_at`: `some none` is NULL, `none` a read beyond the pointers in use. On an empty array
-- `array->count-1` wraps around, and no index is refused.
unfoldable pub aos_string_at : DynamicAos → ℕ → Option (Option ℕ)
aos_string_at a idx =
    if ltb (pred64 (length a.strings)) idx
    then some none
    else get_elem? a.strings idx >>= λ p. some (some p)

-- the two counters of `aos_pop_string`
unfoldable pub forget_last : DynamicAos → Str → DynamicAos
forget_last a last_str = record a {
  block = take (length a.block - (length last_str + 1)) a.block;
  strings = take (length a.strings - 1) a.strings;
}

-- `aos_pop_string`: the array and the code returned
unfoldable pub aos_pop_string : DynamicAos → Option (DynamicAos × ProngError)
aos_pop_string a =
    if length a.strings == 0
    then some (a, aos_empty)
    else aos_string_at a (length a.strings - 1) >>= λ last.
        last >>= λ p. read_string a p >>= λ last_str. some (forget_last a last_str, ok)

module _ (a : DynamicAos) (needle : Str) where
  -- The loop that `aos_find_string`, `aos_contains_string` and `aos_find_string_idx` share: index
  -- and address of the first string that `strcmp` finds equal.
  unfoldable pub find_from : ℕ → List ℕ → Option (Option (ℕ × ℕ))
  find_from i [] = some none
  find_from i (p ∷ ps) =
      let rest = find_from (i + 1) ps in
      read_string a p >>= λ current. if str_eq current needle then some (some (i, p)) else rest

  unfoldable pub aos_find_string : Option (Option ℕ)
  unfolding find_from
  aos_find_string =
      find_from 0 a.strings >>= λ r. elim r [ none ↦ some none | some (i, p) ↦ some (some p) ]

  unfoldable pub aos_contains_string : Option Bool
  unfolding find_from
  aos_contains_string =
      find_from 0 a.strings >>= λ r. elim r [ none ↦ some false | some x ↦ some true ]

  -- `some none` is -1.
  unfoldable pub aos_find_string_idx : Option (Option ℕ)
  unfolding find_from
  aos_find_string_idx =
      find_from 0 a.strings >>= λ r. elim r [ none ↦ some none | some (i, p) ↦ some (some i) ]

module _ (alloc : Allocator) where
  -- The loop of `aos_append_strings`. It does not look at what `aos_push_string` returns.
  unfoldable pub push_all : DynamicAos → List ℕ → Outcome → Option Outcome
  push_all array2 [] out = some out
  push_all array2 (p ∷ ps) out = read_string array2 p >>= λ str.
      push_all array2 ps (and_then out (λ a. aos_push_string alloc a str))

  -- `aos_append_strings` for two different arrays, neither of which is NULL: the code returned, and what
  -- becomes of the first array. The second stays as it is during the loop; were it the first, its count
  -- would grow with each push.
  unfoldable pub aos_append_strings : DynamicAos → DynamicAos → Option (ProngError × Outcome)
  unfolding push_all
  aos_append_strings array1 array2 =
      if length array1.strings == 0 || length array2.strings == 0
      then some (invalid_arg, done array1)
      else push_all array2 array2.strings (done array1) >>= λ out. some (ok, out)
