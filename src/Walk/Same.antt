-- ===== src/Walk/Same.antt =====
-- What `unwind_func_info` does to one access.
use prongc.Prelude.{
  length, ltb, ◌||◌, ◌≡◌, refl, sym, ap, ◌∙◌, inl, inr, Bool, true, false, not, Bool-cases,
  Option-cases, some_inj, Option, none, some, List, Str, arith, ◌==◌, if◌then◌else◌, ◌>>=◌, Holds,
  bind-Holds, Holds-mono,
}
use prongc.VarAccess.{
  VarAccess, null, call, type_code, nullify, va_is_placeholder_type, strcmp_eq, VarAccessType,
}
use prongc.Core.Footprint.{is_type}
use prongc.Core.Rename.{generate_artificial_param_usr, rename_access}
use prongc.Core.Unwind.{contains, null_local, null_param, lock_kind, classify_access, map_argument}
use prongc.Core.Unwind.Irrelevant.{lock_kind-cases}
use prongc.Args.Options.{starts_with}
use prongc.Core.Overlap.Sound.{has_usr}
use prongc.Walk.Regular.{sound_one}

-- An access that is a call marker exactly if `va` is, without an argument then.
abbrev pub Same : VarAccess → VarAccess → Type 0
Same va w = sound_one va ≡ true → (is_type call w ≡ is_type call va) × (sound_one w ≡ true)

-- no marker, whatever it is made of
other-Same :
    (va w : VarAccess)
    → is_type call va ≡ false
    → is_type call w ≡ false
    → (sound_one va ≡ true → sound_one w ≡ true)
    → Same va w
other-Same va w h k f s = (ground arith, f s)

replaced-Same :
    (va : VarAccess) (usr : Option Str) → has_usr usr ≡ true → Same va (record va { usr = usr })
replaced-Same va usr h s = (refl, ground (arith, s, h))

generate-has_usr :
    (name : Option Str) (old_usr : Str)
    → has_usr (generate_artificial_param_usr true name old_usr) ≡ true
unfolding generate_artificial_param_usr
generate-has_usr none old_usr = refl
generate-has_usr (some s) old_usr = elim (Bool-cases (ltb 0 (length s))) [
  | inl e ↦ rw (e) refl
  | inr e ↦ rw (e) refl
]

pick-Same : (b : Bool) (va w : VarAccess) → Same va w → Same va (if b then w else va)
pick-Same true va w h = h
pick-Same false va w h = λ s. (refl, s)

by_usr-Same :
    (b : Bool) (usr : Option Str) (va : VarAccess) (f : Str → VarAccess)
    → ((s : Str) → Same va (f s))
    → Same va (if b then elim usr [ none ↦ va | some s ↦ f s ] else va)
by_usr-Same false usr va f h = λ s. (refl, s)
by_usr-Same true none va f h = λ s. (refl, s)
by_usr-Same true (some u) va f h = h u

pub map_argument-Same :
    (room : Str → Bool) (param : Str) (arg : Option Str) (va : VarAccess)
    → ((s : Str) → room s ≡ true)
    → Same va (map_argument room param arg va)
unfolding map_argument
map_argument-Same room param arg va has_room =
    by_usr-Same (not (va_is_placeholder_type va.type)) va.usr va _ (λ usr.
      pick-Same (starts_with param usr) va
        (record va { usr = generate_artificial_param_usr (room usr) arg usr })
        (replaced-Same va (generate_artificial_param_usr (room usr) arg usr)
          (rw (has_room usr) (generate-has_usr arg usr))))

renamed-Same :
    (b : Bool) (m : Option Bool) (usr : Option Str) (va : VarAccess)
    → Holds (Same va) (
        if b
        then (m >>= λ same.
            if same then (usr >>= λ u. some (record va { usr = some u })) else some va)
        else some va)
renamed-Same false m usr va = λ s. (refl, s)
renamed-Same true none usr va = tt
renamed-Same true (some false) usr va = λ s. (refl, s)
renamed-Same true (some true) none va = tt
renamed-Same true (some true) (some u) va = replaced-Same va (some u) refl

pub rename_access-Same :
    (param : Str) (usr : Option Str) (va : VarAccess) → Holds (Same va) (rename_access param usr va)
unfolding rename_access
rename_access-Same param usr va =
    renamed-Same (not (va_is_placeholder_type va.type)) (strcmp_eq va.usr (some param)) usr va

nulled-Same :
    (b : Bool) (m : Option Bool) (va : VarAccess)
    → (b ≡ true → is_type call va ≡ false)
    → Holds (Same va) (if b then (m >>= λ y. some (if y then nullify va else va)) else some va)
unfolding va_is_placeholder_type
nulled-Same false m va h = λ s. (refl, s)
nulled-Same true none va h = tt
nulled-Same true (some false) va h = λ s. (refl, s)
nulled-Same true (some true) va h =
    other-Same va (nullify va) (h refl) refl (λ s. ground (arith, s))

pub null_local-Same : (locals : List Str) (va : VarAccess) → Holds (Same va) (null_local locals va)
unfolding null_local va_is_placeholder_type
null_local-Same locals va = nulled-Same _ (contains locals va.usr) va (λ h. ground (arith, h))

null_param-Same : (params : List Str) (va : VarAccess) → Holds (Same va) (null_param params va)
unfolding null_param
null_param-Same params va = nulled-Same _ (contains params va.usr) va (λ h. ground (arith, h))

tests-Same :
    (locals params : List Str) (va : VarAccess)
    → Holds (Same va) (null_local locals va >>= null_param params)
tests-Same locals params va =
    bind-Holds (Same va) (Same va) (null_local locals va) (null_param params)
      (null_local-Same locals va)
      (λ u h.
        Holds-mono (Same u) (Same va) (null_param params u) (null_param-Same params u)
          (λ w k s. ((k (h s).1).0 ∙ (h s).0, (k (h s).1).1)))

-- a call marker, or an access without a USR
abbrev bare : VarAccess → Bool
bare va = is_type call va || not (has_usr va.usr)

bare-first :
    (va : VarAccess) → sound_one va ≡ true → bare va ≡ true → (va.esc_param_idx == 0) ≡ false
bare-first va s c = ground arith

-- `lock_primitive_type` finds nothing for those, and no call marker anywhere.
lock_kind-bare : (va : VarAccess) → sound_one va ≡ true → bare va ≡ true → lock_kind va ≡ some null
unfolding lock_kind
lock_kind-bare va s c = elim (Option-cases va.esc_func_spelling) [
  | inl e ↦ rw (e) refl
  | inr (spelling, e) ↦ rw (e, bare-first va s c) refl
]

abbrev Kind : VarAccess → VarAccessType → Type 0
Kind va t = (sound_one va ≡ true → bare va ≡ true → type_code t ≡ 0) × ((type_code t == 8) ≡ false)

lock_kind-Kind : (va : VarAccess) → Holds (Kind va) (lock_kind va)
lock_kind-Kind va = elim (Option-cases (lock_kind va)) [
  | inl e ↦ rw (e) tt
  | inr (t, e) ↦
      let k = lock_kind-cases va t e in
      rw (e) ((λ s c. ap type_code (some_inj (sym e ∙ lock_kind-bare va s c))), ground (arith, k))
]

kind-Same :
    (va : VarAccess) (t : VarAccessType)
    → Kind va t
    → (type_code t == 0) ≡ false
    → Same va (record va { type = t })
kind-Same va t k z s =
    let named : bare va ≡ false = ground (arith, k.0 s, z) in
    (ground (arith, named, k.1), ground (arith, named, k.1))

pub classify_access-Same :
    (locals params : List Str) (va : VarAccess) → Holds (Same va) (classify_access locals params va)
unfolding classify_access
classify_access-Same locals params va =
    bind-Holds (Kind va) (Same va) (lock_kind va) _ (lock_kind-Kind va) (λ t k.
      elim (Bool-cases (type_code t == 0)) [
        | inl z ↦ rw (z) (tests-Same locals params va)
        | inr z ↦ rw (z) (kind-Same va t k z)
      ])
