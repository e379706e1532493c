-- ===== src/Tests/Tables.antt =====
-- The growing arrays, the kinds of accesses, and the tables of lock functions.
use prongc.Prelude.{
  ℕ, ◌*◌, ◌≡◌, refl, inl, Bool, true, none, some, [], ◌∷◌, Str, codes, str_eq, arith,
}
use prongc.Buffer.{Buffer, sizeof_var_access, push_var_access}
use prongc.Buffer.Bounds.{IsValid, Stored, push_var_access-Stored}
use prongc.VarAccess.{lock_release}
use prongc.DynAos.{ok, syntax}
use prongc.LockTracking.Pairs.{
  named_pair, null_pair, default_lock_pairs, lock_primitive_type, aos_to_lock_pair_array,
}
use prongc.LockTracking.Pairs.Classify.{lock_type-default}
use prongc.LockTracking.Pairs.Custom.{Name, colon_missing}
use prongc.LockTracking.Pairs.Table.{fill_lock_pair_array, fill-parse_pairs}

abbrev yes : ℕ → Bool
yes n = true

-- seven elements in a block for eight
abbrev seven : ℕ → Buffer ℕ
seven sizeof = record { capacity = 8; bytes = 8 * sizeof; items = 1 ∷ 2 ∷ 3 ∷ 4 ∷ 5 ∷ 6 ∷ 7 ∷ [] }

seven-IsValid : (sizeof : ℕ) → IsValid sizeof (seven sizeof)
seven-IsValid sizeof = record { room = omega arith; some_room = omega arith; block = inl refl }

push_var_access-Stored_example :
    Stored yes
      (λ n h. refl)
      sizeof_var_access
      8
      (seven sizeof_var_access)
      (push_var_access yes 8 (seven sizeof_var_access))
push_var_access-Stored_example =
    push_var_access-Stored yes (λ n h. refl) 8 (seven sizeof_var_access)
      (seven-IsValid sizeof_var_access) (omega arith) refl

lock_type-default_example :
    lock_primitive_type (codes "raw_spin_lock_irqrestore") ≡ some lock_release
unfolding str_eq default_lock_pairs
lock_type-default_example = lock_type-default (codes "raw_spin_lock_irqrestore")

lk-Name : Name (codes "lk")
lk-Name = (refl, (refl, tt))

abbrev my_pair : Str × Str
my_pair = (codes "lk", codes "ul")

colon_missing_example :
    (aos_to_lock_pair_array (codes "lk" ∷ []) (null_pair ∷ [])
      ≡ some (syntax, record { lock_func = some (codes "lk"); unlock_func = none } ∷ []))
    × (aos_to_lock_pair_array
          (codes "lk" ∷ [])
          (record { lock_func = none; unlock_func = some (codes "x") } ∷ [])
        ≡ some (ok, named_pair (codes "lk") (codes "x") ∷ []))
colon_missing_example = colon_missing (codes "lk") (codes "x") null_pair [] lk-Name

fill-parse_pairs_example :
    fill_lock_pair_array (codes "lk:ul" ∷ []) (null_pair ∷ default_lock_pairs)
    ≡ some (ok, named_pair (codes "lk") (codes "ul") ∷ default_lock_pairs)
fill-parse_pairs_example =
    fill-parse_pairs (my_pair ∷ []) (null_pair ∷ default_lock_pairs) (lk-Name, tt) (omega arith)
