-- ===== src/Core/Annotate/Locks.antt =====
-- The loop of `annotate_lock_protection_ranges` over a footprint without branches.
use prongc.Prelude.{
  ℕ, zero, suc, ◌+◌, ◌<◌, ◌≡◌, refl, sym, ap, ◌∙◌, subst, Option, some, some_inj, List, [], ◌∷◌,
  length, length-append, length-map, All, arith,
}
use prongc.VarAccess.{VarAccess}
use prongc.LockTracking.Pairs.{LockPrimitivePair}
use prongc.LockTracking.Fields.{
  size_max, LpField, ProtectionFieldArray, init_protection_field_array,
}
use prongc.LockTracking.Fields.Alone.{Flat, close}
use prongc.Core.Annotate.{Ranges, annotate_from, annotate_lock_protection_ranges}
use prongc.Core.Annotate.Straight.{
  LockMove, takes, gives, neither, move_of, released, moved, held, Straight, Stepped,
  annotate_one-Stepped,
}
use prongc.Core.Annotate.Held.{
  guards, opens, Before, late, guards-opens, at_access, opened, Stepped-Before,
}

abbrev takings : LockMove → ℕ
takings (takes h) = 1
takings (gives h) = 0
takings neither = 0

-- how many locks a footprint takes
abbrev pub taken : List VarAccess → ℕ
taken [] = 0
taken (va ∷ vas) = takings (move_of va.type va.usr) + taken vas

Stepped-length :
    (m : LockMove) (i : ℕ) (fs gs : List LpField)
    → Stepped m i fs gs
    → length gs ≡ length fs + takings m
Stepped-length (takes h) i fs gs (f, e, o) = rw e (length-append fs (f ∷ []))
Stepped-length (gives h) i fs gs e = rw e (omega (arith, length-map (close h i) fs))
Stepped-length neither i fs gs e = rw e (omega arith)

module _ (realloc : ℕ → ℕ → Option ℕ)
    (has_room : (old cap : ℕ) → (new : ℕ) × (realloc old cap ≡ some new))
    (pairs : List LockPrimitivePair) where
  annotate_from-late :
      (k j : ℕ) (vas : List VarAccess) (r : Ranges)
      → All (Straight pairs) vas
      → Flat r.fields
      → k < j
      → k < size_max
      → (s : Ranges) × (annotate_from realloc pairs j vas r ≡ some s)
        × (guards k s.fields.lp_fields ≡ guards k r.fields.lp_fields)
  unfolding annotate_from
  annotate_from-late k j [] r h flat l n = (r, refl, refl)
  annotate_from-late k j (va ∷ vas) r h flat l n =
      let (s, e, flat', st) =
        annotate_one-Stepped realloc has_room pairs j va vas va.type r h.0 flat in
      let (t, e', g) = annotate_from-late k (j + 1) vas s h.1 flat' (omega (arith, l)) n in
      (
        t,
        rw (e) e',
        g ∙ late (move_of va.type va.usr) k j r.fields.lp_fields s.fields.lp_fields st l n,
      )

  annotate_from-held :
      (i d : ℕ) (vas : List VarAccess) (r : Ranges)
      → All (Straight pairs) vas
      → Flat r.fields
      → All (Before i) r.fields.lp_fields
      → i + d < size_max
      → (s : Ranges) × (annotate_from realloc pairs i vas r ≡ some s)
        × (guards (i + d) s.fields.lp_fields ≡ held (opens r.fields.lp_fields) vas d)
  unfolding annotate_from held
  annotate_from-held i d [] r h flat b n =
      (r, refl, guards-opens i (i + d) r.fields.lp_fields b (omega arith) n)
  annotate_from-held i zero (va ∷ vas) r h flat b n =
      let m : LockMove = move_of va.type va.usr in
      let (s, e, flat', st) =
        annotate_one-Stepped realloc has_room pairs i va vas va.type r h.0 flat in
      let (t, e', g) =
        annotate_from-late i (i + 1) vas s h.1 flat' (omega arith) (omega (arith, n)) in
      (
        t,
        rw (e) e',
        subst (λ k. guards k t.fields.lp_fields ≡ released m (opens r.fields.lp_fields))
            (omega arith)
            (g ∙ at_access m i r.fields.lp_fields s.fields.lp_fields b st (omega (arith, n))),
      )
  annotate_from-held i (suc d) (va ∷ vas) r h flat b n =
      let m : LockMove = move_of va.type va.usr in
      let (s, e, flat', st) =
        annotate_one-Stepped realloc has_room pairs i va vas va.type r h.0 flat in
      let (t, e', g) =
        annotate_from-held (i + 1) d vas s h.1 flat'
          (Stepped-Before m i r.fields.lp_fields s.fields.lp_fields st b) (omega (arith, n)) in
      (
        t,
        rw (e) e',
        subst (λ k. guards k t.fields.lp_fields ≡ held (moved m (opens r.fields.lp_fields)) vas d)
            (omega arith)
            (g
              ∙ ap (λ hs. held hs vas d)
                  (opened m i r.fields.lp_fields s.fields.lp_fields st (omega (arith, n)))),
      )

  annotate_from-Flat :
      (i : ℕ) (vas : List VarAccess) (r : Ranges)
      → All (Straight pairs) vas
      → Flat r.fields
      → (s : Ranges) × (annotate_from realloc pairs i vas r ≡ some s)
        × Flat s.fields
        × (length s.fields.lp_fields ≡ length r.fields.lp_fields + taken vas)
  unfolding annotate_from
  annotate_from-Flat i [] r h flat = (r, refl, flat, omega arith)
  annotate_from-Flat i (va ∷ vas) r h flat =
      let m : LockMove = move_of va.type va.usr in
      let (s, e, flat', st) =
        annotate_one-Stepped realloc has_room pairs i va vas va.type r h.0 flat in
      let (t, e', f, l) = annotate_from-Flat (i + 1) vas s h.1 flat' in
      (
        t,
        rw (e) e',
        f,
        omega (arith, l, Stepped-length m i r.fields.lp_fields s.fields.lp_fields st),
      )

  -- Where memory does not run out, `annotate_lock_protection_ranges` returns for a footprint without
  -- branches, with one field for each lock that is taken, and at each access the fields whose range it
  -- is in are the locks that are held there.
  pub annotate-held :
      (p : ℕ) (vas : List VarAccess)
      → All (Straight pairs) vas
      → (a : ProtectionFieldArray) × (annotate_lock_protection_ranges realloc pairs vas
            (init_protection_field_array p)
          ≡ some a)
        × Flat a
        × (length a.lp_fields ≡ taken vas)
        × ((k : ℕ) → k < size_max → guards k a.lp_fields ≡ held [] vas k)
  unfolding annotate_lock_protection_ranges init_protection_field_array
  annotate-held p vas h =
      let r : Ranges = record { branch_depth = 0; fields = init_protection_field_array p } in
      let flat : Flat r.fields = (tt, omega arith, omega arith) in
      let (s, e, f, l) = annotate_from-Flat 0 vas r h flat in
      (
        s.fields,
        rw (e) refl,
        f,
        omega (arith, l),
        (λ k n.
            let (t, e', g) = annotate_from-held 0 k vas r h flat tt (omega (arith, n)) in
            let same : t ≡ s = some_inj (sym e' ∙ e) in
            subst (λ (u : Ranges). guards k u.fields.lp_fields ≡ held [] vas k) same
              (subst (λ x. guards x t.fields.lp_fields ≡ held [] vas k) (omega arith) g)),
      )
