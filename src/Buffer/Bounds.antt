-- ===== src/Buffer/Bounds.antt =====
-- No push writes outside of its block.
use prongc.Prelude.{
  ℕ, ◌+◌, ◌-◌, ◌*◌, ◌%◌, ◌^◌, ◌≤◌, ◌<◌, ◌≡◌, ◌⊎◌, inl, inr, refl, Bool, true, Bool-cases, Option,
  some, [], ◌∷◌, ◌++◌, length, length-append, arith, ltb, leb,
}
use prongc.Buffer.{
  Buffer, sizeof_cursor, sizeof_var_access, sizeof_func_info, init_cursor_array,
  init_var_access_array, init_func_info_array, double_capacity, put_last, push_sized, push_cursor,
  push_access_copy, push_func_info, push_var_access,
}

-- The block holds `capacity` elements, or nothing is stored yet and the first push makes it so.
pub record IsValid {A : Type 0} (sizeof : ℕ) (b : Buffer A) : Type 0 where
  pub room : length b.items ≤ b.capacity
  pub some_room : 1 ≤ b.capacity
  pub block : (b.bytes ≡ b.capacity * sizeof) ⊎ ((b.items ≡ []) × (b.capacity < sizeof))

mul_mono : (a b s : ℕ) → a ≤ b → a * s ≤ b * s
mul_mono a b s h = grind arith

le-mul : (n s : ℕ) → 1 ≤ s → n ≤ n * s
le-mul n s h = grind arith

no_wrap : (n s : ℕ) → 1 ≤ s → n * s < 2 ^ 63 → n % 2 ^ 64 ≡ n
no_wrap n s h l = let below = le-mul n s h in omega (arith, below, l)

abbrev appended : {A : Type 0} → A → Buffer A → Buffer A
appended x b = record b { items = b.items ++ x ∷ [] }

abbrev doubled : {A : Type 0} → ℕ → Buffer A → Buffer A
doubled sizeof b = record b { capacity = b.capacity * 2; bytes = b.capacity * 2 * sizeof }

module _ {A : Type 0} (room : ℕ → Bool) (granted : (n : ℕ) → n < 2 ^ 63 → room n ≡ true) where
  put_doubled :
      (sizeof : ℕ) (x : A) (b : Buffer A)
      → IsValid sizeof b
      → (put_last room sizeof x (doubled sizeof b) ≡ some (appended x (doubled sizeof b)))
        × IsValid sizeof (appended x (doubled sizeof b))
  unfolding put_last
  put_doubled sizeof x b v =
      let fits =
        mul_mono (length b.items + 1) (b.capacity * 2) sizeof
          (omega (arith, v.room, v.some_room)) in
      (
        ground arith,
        record {
          room = omega (arith, length-append b.items (x ∷ []), v.room, v.some_room);
          some_room = omega (arith, v.some_room);
          block = inl refl;
        },
      )

  -- twice the capacity is a size that `malloc` can be asked for
  abbrev pub Doubles : ℕ → Buffer A → Type 0
  Doubles sizeof b = b.capacity * 2 * sizeof < 2 ^ 63

  doubling :
      (sizeof : ℕ) (b : Buffer A)
      → 1 ≤ sizeof
      → Doubles sizeof b
      → double_capacity room sizeof b ≡ some (doubled sizeof b)
  unfolding double_capacity
  doubling sizeof b pos small =
      let unwrapped : b.capacity * 2 % 2 ^ 64 ≡ b.capacity * 2 =
        no_wrap (b.capacity * 2) sizeof pos small in
      rw (unwrapped, granted (b.capacity * 2 * sizeof) small) refl

  put_fitting :
      (sizeof : ℕ) (x : A) (b : Buffer A)
      → IsValid sizeof b
      → 1 ≤ sizeof
      → b.bytes ≡ b.capacity * sizeof
      → length b.items + 1 ≤ b.capacity
      → (put_last room sizeof x b ≡ some (appended x b)) × IsValid sizeof (appended x b)
  unfolding put_last
  put_fitting sizeof x b v pos whole fits =
      let below = mul_mono (length b.items + 1) b.capacity sizeof fits in
      (
        ground arith,
        record {
          room = omega (arith, length-append b.items (x ∷ []));
          some_room = v.some_room;
          block = inl whole;
        },
      )

  -- What a push does: the element is stored, inside of the block.
  abbrev pub Stored : ℕ → A → Buffer A → Option (Buffer A) → Type 0
  Stored sizeof x b r =
      (c : Buffer A) × (r ≡ some c) × (c.items ≡ b.items ++ x ∷ []) × IsValid sizeof c

  push_sized-Stored :
      (sizeof : ℕ) (x : A) (b : Buffer A)
      → 1 ≤ sizeof
      → IsValid sizeof b
      → Doubles sizeof b
      → Stored sizeof x b (push_sized room sizeof x b)
  unfolding push_sized
  push_sized-Stored sizeof x b pos v small =
      elim (Bool-cases (ltb b.capacity ((length b.items + 1) * sizeof))) [
        | inl grow ↦
            let (e, w) = put_doubled sizeof x b v in
            (appended x (doubled sizeof b), rw (grow, doubling sizeof b pos small) e, refl, w)
        | inr fits ↦
            let small = le-mul (length b.items + 1) sizeof pos in
            let whole : b.bytes ≡ b.capacity * sizeof = ground arith in
            let (e, w) = put_fitting sizeof x b v pos whole (ground arith) in
            (appended x b, rw fits e, refl, w)
      ]

  -- As long as `reallocarray` finds blocks below 2 ^ 63 bytes, and twice the capacity takes fewer,
  -- `push_cursor`, `push_access_copy` and `push_func_info` store the element behind the others inside of
  -- the block, and leave the array valid.
  pub push-Stored :
      (x : A) (b c d : Buffer A)
      → IsValid sizeof_cursor b
      → IsValid sizeof_var_access c
      → IsValid sizeof_func_info d
      → Doubles sizeof_cursor b
      → Doubles sizeof_var_access c
      → Doubles sizeof_func_info d
      → Stored sizeof_cursor x b (push_cursor room x b)
        × Stored sizeof_var_access x c (push_access_copy room x c)
        × Stored sizeof_func_info x d (push_func_info room x d)
  unfolding push_cursor push_access_copy push_func_info
  push-Stored x b c d vb vc vd sb sc sd = (
    push_sized-Stored sizeof_cursor x b (omega arith) vb sb,
    push_sized-Stored sizeof_var_access x c (omega arith) vc sc,
    push_sized-Stored sizeof_func_info x d (omega arith) vd sd,
  )

  -- As long as `reallocarray` finds blocks below 2 ^ 63 bytes, and twice the capacity takes fewer,
  -- `push_var_access` stores the access behind the others inside of the block, and leaves the array
  -- valid. The array is valid before, and its block holds as many accesses as its capacity says.
  pub push_var_access-Stored :
      (x : A) (b : Buffer A)
      → IsValid sizeof_var_access b
      → Doubles sizeof_var_access b
      → b.bytes ≡ b.capacity * sizeof_var_access
      → Stored sizeof_var_access x b (push_var_access room x b)
  unfolding push_var_access
  push_var_access-Stored x b v small whole =
      elim (Bool-cases (leb ((b.capacity + (2 ^ 64 - 1)) % 2 ^ 64) (length b.items))) [
        | inl grow ↦
            let (e, w) = put_doubled sizeof_var_access x b v in
            (
              appended x (doubled sizeof_var_access b),
              rw (grow, doubling sizeof_var_access b (omega arith) small) e,
              refl,
              w,
            )
        | inr fits ↦
            let (e, w) =
              put_fitting sizeof_var_access x b v (omega arith) whole
                (ground (arith, v.some_room)) in
            (appended x b, rw fits e, refl, w)
      ]

-- The three new arrays are valid, the one of cursors although its block is smaller than its capacity.
init-IsValid :
    {A : Type 0}
    → IsValid {A = A} sizeof_cursor init_cursor_array
      × IsValid {A = A} sizeof_var_access init_var_access_array
      × IsValid {A = A} sizeof_func_info init_func_info_array
unfolding init_cursor_array init_var_access_array init_func_info_array
init-IsValid = (
  record { room = omega arith; some_room = omega arith; block = inr (refl, omega arith) },
  record { room = omega arith; some_room = omega arith; block = inl refl },
  record { room = omega arith; some_room = omega arith; block = inl refl },
)
