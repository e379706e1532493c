-- ===== src/Core/Annotate/Straight.antt =====
-- Footprints without branches: the locks that are held at an access, and the protection fields.
use prongc.Prelude.{
  ℕ, zero, suc, ◌≡◌, refl, sym, subst, inl, inr, Bool, true, false, ◌&&◌, Option, none, some,
  Option-cases, List, [], ◌∷◌, ◌++◌, map, Str, arith, ◌==◌, if◌then◌else◌,
}
use prongc.VarAccess.{
  VarAccess, VarAccessType, lock_acquire, lock_release, if_stmt, else_stmt, end_if,
}
use prongc.LockTracking.Pairs.{LockPrimitivePair, lock_tracking_gen_hash, get_pair_by_lock_func}
use prongc.LockTracking.Fields.{
  LpField, ProtectionFieldArray, add_lock_protection_field, set_protection_range_end,
}
use prongc.LockTracking.Fields.Alone.{Flat, Opened, close, add-Flat, set_end-Flat}
use prongc.Core.Annotate.{Ranges, annotate_one}

-- What an access does to the locks, which go by their hashes.
pub data LockMove : Type 0 where
  takes : ℕ → LockMove
  gives : ℕ → LockMove
  neither : LockMove

abbrev pub move_of : VarAccessType → Option Str → LockMove
move_of lock_acquire (some usr) = takes (lock_tracking_gen_hash usr)
move_of lock_release (some usr) = gives (lock_tracking_gen_hash usr)
move_of _ _ = neither

abbrev pub without : ℕ → List ℕ → List ℕ
without h [] = []
without h (x ∷ xs) = if x == h then without h xs else x ∷ without h xs

-- the release of a lock, and nothing else
abbrev pub released : LockMove → List ℕ → List ℕ
released (takes h) hs = hs
released (gives h) hs = without h hs
released neither hs = hs

abbrev pub moved : LockMove → List ℕ → List ℕ
moved (takes h) hs = hs ++ h ∷ []
moved (gives h) hs = without h hs
moved neither hs = hs

-- The locks that are held at the access `k` of a footprint, if `hs` were held before it: those taken
-- before the access and not released up to it, in the order in which they were taken.
unfoldable pub held : List ℕ → List VarAccess → ℕ → List ℕ
held hs [] k = hs
held hs (va ∷ vas) zero = released (move_of va.type va.usr) hs
held hs (va ∷ vas) (suc k) = held (moved (move_of va.type va.usr) hs) vas k

abbrev named : Option LockPrimitivePair → Bool
named none = false
named (some p) = elim p.lock_func [
  | none ↦ false
  | some l ↦ elim p.unlock_func [ none ↦ false | some u ↦ true ]
]

abbrev present : Option Str → Bool
present none = false
present (some s) = true

-- No marker of a branch; a lock has a USR, and the function that takes it is in the table of pairs, in a
-- pair with both names.
abbrev pub straight : List LockPrimitivePair → VarAccess → VarAccessType → Bool
straight pairs va lock_acquire =
    present va.usr && named (get_pair_by_lock_func pairs va.esc_func_spelling)
straight pairs va lock_release = present va.usr
straight pairs va if_stmt = false
straight pairs va else_stmt = false
straight pairs va end_if = false
straight pairs va _ = true

abbrev pub Straight : List LockPrimitivePair → VarAccess → Type 0
Straight pairs va = straight pairs va va.type ≡ true

-- What a move makes of the fields.
abbrev pub Stepped : LockMove → ℕ → List LpField → List LpField → Type 0
Stepped (takes h) i fs gs = (f : LpField) × (gs ≡ fs ++ f ∷ []) × Opened i h f
Stepped (gives h) i fs gs = gs ≡ map (close h i) fs
Stepped neither i fs gs = gs ≡ fs

present-usr : (usr : Option Str) → present usr ≡ true → (s : Str) × (usr ≡ some s)
present-usr none e = cc
present-usr (some s) e = (s, refl)

named-pair :
    (m : Option LockPrimitivePair)
    → named m ≡ true
    → (p : LockPrimitivePair) × (m ≡ some p)
      × ((l : Str) × (p.lock_func ≡ some l))
      × ((u : Str) × (p.unlock_func ≡ some u))
named-pair none e = cc
named-pair (some p) e = elim (Option-cases p.lock_func) [
  | inl q ↦ absurd (ground arith)
  | inr l ↦ elim (Option-cases p.unlock_func) [
    | inl q ↦ absurd (ground arith)
    | inr u ↦ (p, refl, l, u)
  ]
]

module _ (realloc : ℕ → ℕ → Option ℕ)
    (has_room : (old cap : ℕ) → (new : ℕ) × (realloc old cap ≡ some new))
    (pairs : List LockPrimitivePair) where
  annotate_one-takes :
      (i : ℕ) (va : VarAccess) (vas : List VarAccess) (r : Ranges) (usr : Str)
      (p : LockPrimitivePair) (b : ProtectionFieldArray)
      → va.usr ≡ some usr
      → get_pair_by_lock_func pairs va.esc_func_spelling ≡ some p
      → add_lock_protection_field realloc p i (some usr) i r.fields ≡ some b
      → annotate_one realloc pairs i va vas lock_acquire r ≡ some (record r { fields = b })
  unfolding annotate_one
  annotate_one-takes i va vas r usr p b eu ep e = rw (ep, eu, e) refl

  annotate_one-gives :
      (i : ℕ) (va : VarAccess) (vas : List VarAccess) (r : Ranges) (usr : Str)
      (b : ProtectionFieldArray)
      → va.usr ≡ some usr
      → set_protection_range_end (some usr) i r.fields ≡ some b
      → annotate_one realloc pairs i va vas lock_release r ≡ some (record r { fields = b })
  unfolding annotate_one
  annotate_one-gives i va vas r usr b eu e = rw (eu, e) refl

  pub annotate_one-Stepped :
      (i : ℕ) (va : VarAccess) (vas : List VarAccess) (t : VarAccessType) (r : Ranges)
      → straight pairs va t ≡ true
      → Flat r.fields
      → (s : Ranges) × (annotate_one realloc pairs i va vas t r ≡ some s)
        × Flat s.fields
        × Stepped (move_of t va.usr) i r.fields.lp_fields s.fields.lp_fields
  unfolding annotate_one
  annotate_one-Stepped i va vas lock_acquire r h flat =
      let (usr, eu) = present-usr va.usr (ground arith) in
      let (p, ep, (l, el), (u, eu')) =
        named-pair (get_pair_by_lock_func pairs va.esc_func_spelling) (ground arith) in
      let (b, e, flat', f, q, o) = add-Flat realloc has_room p l u usr i r.fields el eu' flat in
      (
        record r { fields = b },
        annotate_one-takes i va vas r usr p b eu ep e,
        flat',
        subst (λ x. Stepped (move_of lock_acquire x) i r.fields.lp_fields b.lp_fields) (sym eu)
            (f, q, o),
      )
  annotate_one-Stepped i va vas lock_release r h flat =
      let (usr, eu) = present-usr va.usr h in
      let (b, e, flat', q) = set_end-Flat usr i r.fields flat in
      (
        record r { fields = b },
        annotate_one-gives i va vas r usr b eu e,
        flat',
        subst (λ x. Stepped (move_of lock_release x) i r.fields.lp_fields b.lp_fields) (sym eu) q,
      )
  annotate_one-Stepped i va vas if_stmt r h flat = cc
  annotate_one-Stepped i va vas else_stmt r h flat = cc
  annotate_one-Stepped i va vas end_if r h flat = cc
  annotate_one-Stepped i va vas _ r h flat = (r, refl, flat, refl)
