-- ===== src/Walk/Regular.antt =====
-- The trees of functions that the walk builds: each call marker has its callee.
use prongc.Prelude.{
  ℕ, ◌+◌, ◌≡◌, refl, Bool, true, false, not, ◌||◌, ◌&&◌, Option, none, some, List, [], ◌∷◌, ◌++◌,
  arith, ◌==◌, if◌then◌else◌,
}
use prongc.VarAccess.{VarAccess, call, no_idx, va_is_placeholder_type}
use prongc.FuncInfo.{Func, FuncInfo, func_info, Callees, no_array, array, FuncInfoArr, nil, cons}
use prongc.Core.Footprint.{is_type}
use prongc.Core.Overlap.Sound.{has_usr}
use prongc.Core.Footprint.Inline.{calls, count, enough, matched, matched_callees, matched_each}
use prongc.Walk.{accesses, push_access, push_array, push_callee}

-- A call marker has a USR and no argument, and what has no USR is a placeholder without an argument.
abbrev pub sound_one : VarAccess → Bool
sound_one va =
    (not (is_type call va) || (va.esc_param_idx == no_idx && has_usr va.usr))
    && (has_usr va.usr || (va.esc_param_idx == no_idx && va_is_placeholder_type va.type))

abbrev pub sound : List VarAccess → Bool
sound [] = true
sound (va ∷ vas) = sound_one va && sound vas

abbrev pub sound_if_any : Option (List VarAccess) → Bool
sound_if_any none = true
sound_if_any (some vas) = sound vas

-- What follows asks of one function: no more call markers than callees, and sound accesses.
abbrev pub in_step : {C : Type 0} → Option (List VarAccess) → Callees C → Bool
in_step vas callees = enough vas callees && sound_if_any vas

-- It asks that of every function of a tree.
unfoldable mutual
  pub regular : {C : Type 0} → FuncInfo C → Bool
  regular (func_info f callees) = in_step f.var_accesses callees && regular_callees callees

  pub regular_callees : {C : Type 0} → Callees C → Bool
  regular_callees no_array = true
  regular_callees (array fs) = regular_each fs

  pub regular_each : {C : Type 0} → FuncInfoArr C → Bool
  regular_each nil = true
  regular_each (cons f fs) = regular f && regular_each fs

mutual
  unfolding regular matched

  regular-matched : {C : Type 0} (f : FuncInfo C) → regular f ≡ true → matched f ≡ true
  regular-matched (func_info f callees) h = ground (arith, callees-matched callees)

  callees-matched :
      {C : Type 0} (cs : Callees C) → regular_callees cs ≡ true → matched_callees cs ≡ true
  callees-matched no_array h = refl
  callees-matched (array fs) h = each-matched fs h

  each-matched : {C : Type 0} (fs : FuncInfoArr C) → regular_each fs ≡ true → matched_each fs ≡ true
  each-matched nil h = refl
  each-matched (cons f fs) h = ground (arith, regular-matched f, each-matched fs)

pub matched-regular : {C : Type 0} (f : FuncInfo C) → regular f ≡ true → matched f ≡ true
matched-regular f h = regular-matched f h

abbrev pub size : {C : Type 0} → Callees C → ℕ
size no_array = 0
size (array fs) = count fs

-- What holds of the current function at every moment of the walk.
pub record Balanced {C : Type 0} (f : Func C) (callees : Callees C) : Type 0 where
  pub counted : calls (accesses f.var_accesses) ≡ size callees
  pub markers : sound (accesses f.var_accesses) ≡ true
  pub below : regular_callees callees ≡ true

calls-append :
    (xs : List VarAccess) (va : VarAccess)
    → calls (xs ++ va ∷ []) ≡ calls xs + (if is_type call va then 1 else 0)
calls-append [] va = omega arith
calls-append (x ∷ xs) va = omega (arith, calls-append xs va)

sound-append :
    (xs : List VarAccess) (va : VarAccess) → sound (xs ++ va ∷ []) ≡ (sound xs && sound (va ∷ []))
sound-append [] va = refl
sound-append (x ∷ xs) va = ground (arith, sound-append xs va)

count-push_array :
    {C : Type 0} (fs : FuncInfoArr C) (g : FuncInfo C) → count (push_array fs g) ≡ count fs + 1
count-push_array nil g = omega arith
count-push_array (cons f fs) g = omega (arith, count-push_array fs g)

regular-push_array :
    {C : Type 0} (fs : FuncInfoArr C) (g : FuncInfo C)
    → regular_each fs ≡ true
    → regular g ≡ true
    → regular_each (push_array fs g) ≡ true
unfolding regular_each
regular-push_array nil g h k = ground arith
regular-push_array (cons f fs) g h k = ground (arith, regular-push_array fs g)

sound-if_any : (o : Option (List VarAccess)) → sound (accesses o) ≡ true → sound_if_any o ≡ true
sound-if_any none h = refl
sound-if_any (some vas) h = h

module _ {C : Type 0} where
  pub push_access-Balanced :
      (va : VarAccess) (f : Func C) (cs : Callees C)
      → is_type call va ≡ false
      → sound_one va ≡ true
      → Balanced f cs
      → Balanced (push_access va f) cs
  push_access-Balanced va f cs h i b = record {
    counted = rw (calls-append (accesses f.var_accesses) va, h) (omega (arith, b.counted));
    markers = rw (sound-append (accesses f.var_accesses) va, i, b.markers) refl;
    below = b.below;
  }

  -- a call marker together with its callee
  pub push_call-Balanced :
      (va : VarAccess) (f : Func C) (cs : Callees C) (g : FuncInfo C)
      → is_type call va ≡ true
      → sound_one va ≡ true
      → Balanced f cs
      → regular g ≡ true
      → Balanced (push_access va f) (push_callee cs g)
  unfolding regular_callees
  push_call-Balanced va f no_array g h i b r = record {
    counted = rw (calls-append (accesses f.var_accesses) va, h) (omega (arith, b.counted));
    markers = rw (sound-append (accesses f.var_accesses) va, i, b.markers) refl;
    below = ground arith;
  }
  push_call-Balanced va f (array fs) g h i b r = record {
    counted =
        rw (calls-append (accesses f.var_accesses) va, h)
          (omega (arith, b.counted, count-push_array fs g));
    markers = rw (sound-append (accesses f.var_accesses) va, i, b.markers) refl;
    below = regular-push_array fs g b.below r;
  }

  counted-enough :
      (o : Option (List VarAccess)) (cs : Callees C)
      → calls (accesses o) ≡ size cs
      → enough o cs ≡ true
  counted-enough none cs h = refl
  counted-enough (some vas) no_array h = refl
  counted-enough (some vas) (array fs) h = ground (arith, h)

  pub Balanced-regular :
      (f : Func C) (cs : Callees C) → Balanced f cs → regular (func_info f cs) ≡ true
  unfolding regular
  Balanced-regular f cs b =
      rw
        (counted-enough f.var_accesses cs b.counted, sound-if_any f.var_accesses b.markers, b.below)
        refl
