-- ===== src/DynAos/Grow.antt =====
-- Growing the two allocations: what is held stays, and the room asked for is there.
use prongc.Prelude.{
  ℕ, zero, suc, ◌+◌, ◌-◌, ◌*◌, ◌≤◌, ◌<◌, ◌≡◌, refl, true, false, inl, inr, Bool-cases, some, List,
  [], ◌∷◌, map, length, length-map, Str, arith, ltb, if◌then◌else◌, ◌==◌, ◌∙◌, ap,
}
use prongc.DynAos.{DynamicAos, Allocator, aos_update_old_strings, done, grow_data, grow_strings}
use prongc.DynAos.View.{addresses, Holds}

-- Moving every pointer by the distance between two blocks gives the addresses in the new one.
pub addresses_move :
    (old new p : ℕ) (ss : List Str)
    → old ≤ p
    → map (λ q. q + new - old) (addresses p ss) ≡ addresses (p + new - old) ss
unfolding addresses
addresses_move old new p [] h = refl
addresses_move old new p (s ∷ ss) h = ground (arith, addresses_move old new (p + length s + 1) ss)

pub update-Holds :
    (a : DynamicAos) (ss : List Str) (new cap : ℕ)
    → Holds a ss
    → a.capacity ≤ cap
    → Holds (aos_update_old_strings (record a { base = new; capacity = cap }) a.base) ss
unfolding aos_update_old_strings
update-Holds a ss new cap h le = record {
  packed = h.packed;
  pointed =
      rw h.pointed (
        addresses_move a.base new a.base ss (omega arith) ∙ ap (λ p. addresses p ss) (omega arith));
  clean = h.clean;
  fits = omega (arith, h.fits);
  has_room = rw length-map h.has_room;
}

-- An allocator that is never out of memory.
pub record Grants (alloc : Allocator) : Type 0 where
  pub data_block : (old cap : ℕ) → (p : ℕ) × (alloc.data_block old cap ≡ some p)
  pub strings_block : (cap : ℕ) → alloc.strings_block cap ≡ true

-- The array holds the same strings and has room for `n` more bytes.
pub record HasRoom (strings_cap : ℕ) (ss : List Str) (n : ℕ) (b : DynamicAos) : Type 0 where
  pub holds : Holds b ss
  pub data_room : length b.block + n ≤ b.capacity
  pub same_cap : b.strings_cap ≡ strings_cap

-- `new_cap` of the two checks
abbrev pub doubled : ℕ → ℕ
doubled cap = if cap == 0 then 64 else cap * 2

abbrev pub moved : DynamicAos → ℕ → DynamicAos
moved a p = aos_update_old_strings (record a { base = p; capacity = doubled a.capacity }) a.base

module _ (alloc : Allocator) where
  grow_data_fits :
      (fuel n : ℕ) (a : DynamicAos)
      → ltb a.capacity (length a.block + n) ≡ false
      → grow_data alloc (suc fuel) n a ≡ done a
  unfolding grow_data
  grow_data_fits fuel n a e = rw (e, grow_data)

  grow_data_short :
      (fuel n p : ℕ) (a : DynamicAos)
      → ltb a.capacity (length a.block + n) ≡ true
      → alloc.data_block a.base (doubled a.capacity) ≡ some p
      → grow_data alloc (suc fuel) n a ≡ grow_data alloc fuel n (moved a p)
  unfolding grow_data
  grow_data_short fuel n p a short e = rw (short, grow_data) (rw (e, grow_data))

module _ (alloc : Allocator) (grants : Grants alloc) where
  pub grow_data-HasRoom :
      (fuel n : ℕ) (a : DynamicAos) (ss : List Str)
      → Holds a ss
      → length a.block + n < fuel + a.capacity
      → 0 < fuel
      → (b : DynamicAos) × (grow_data alloc fuel n a ≡ done b) × HasRoom a.strings_cap ss n b
  unfolding aos_update_old_strings
  grow_data-HasRoom zero n a ss h enough pos = absurd (omega arith)
  grow_data-HasRoom (suc fuel) n a ss h enough pos =
      elim (Bool-cases (ltb a.capacity (length a.block + n))) [
        | inr fits ↦ (
          a,
          grow_data_fits alloc fuel n a fits,
          record { holds = h; data_room = ground arith; same_cap = refl },
        )
        | inl short ↦
            let (p, e) = grants.data_block a.base (doubled a.capacity) in
            let moved_holds : Holds (moved a p) ss =
              update-Holds a ss p (doubled a.capacity) h (ground arith) in
            let (b, run, room) =
              grow_data-HasRoom fuel n (moved a p) ss moved_holds (ground arith) (ground arith) in
            (b, grow_data_short alloc fuel n p a short e ∙ run, room)
      ]

  pub grow_strings-Holds :
      (a : DynamicAos) (ss : List Str)
      → Holds a ss
      → (b : DynamicAos) × (grow_strings alloc a ≡ done b)
        × Holds b ss
        × (length b.strings + 1 ≤ b.strings_cap)
  unfolding grow_strings
  grow_strings-Holds a ss h = elim (Bool-cases (ltb a.strings_cap (length a.strings + 1))) [
    | inr fits ↦ (a, rw fits, h, ground arith)
    | inl short ↦ (
      record a { strings_cap = doubled a.strings_cap },
      rw (short, grants.strings_block (doubled a.strings_cap)),
      record {
        packed = h.packed;
        pointed = h.pointed;
        clean = h.clean;
        fits = h.fits;
        has_room = ground (arith, h.has_room);
      },
      ground (arith, h.has_room),
    )
  ]
