-- ===== src/Walk/Named.antt =====
-- The footprint of a tree of functions with sound accesses.
use prongc.Prelude.{
  ◌≡◌, Bool, true, false, not, ◌||◌, Option, none, some, List, [], ◌∷◌, ◌++◌, All, All-append,
  arith, if◌then◌else◌, ◌>>=◌, Holds, of_Holds, bind-Holds,
}
use prongc.VarAccess.{VarAccess, call}
use prongc.FuncInfo.{FuncInfo, func_info, Callees, no_array, array, FuncInfoArr, nil, cons}
use prongc.Core.Footprint.{
  Collect, is_type, collect_flat, collect_calls, collect, build_var_access_footprint, footprints,
  footprint_each,
}
use prongc.Core.Overlap.Sound.{Named}
use prongc.Walk.Regular.{sound, sound_if_any, regular, regular_callees, regular_each}

-- a pass that puts placeholders and accesses with a USR behind what is there
abbrev Puts : Collect → Type 0
Puts f = (acc : List VarAccess) → All Named acc → Holds (All Named) (f acc)

abbrev PutsEach : List Collect → Type 0
PutsEach [] = Unit
PutsEach (f ∷ fs) = Puts f × PutsEach fs

abbrev PutsIn : Option (List Collect) → Type 0
PutsIn none = Unit
PutsIn (some fs) = PutsEach fs

sound-Named : (va : VarAccess) (vas : List VarAccess) → sound (va ∷ vas) ≡ true → Named va
sound-Named va vas s = ground (arith, s)

put_if :
    (b : Bool) (va : VarAccess) (acc : List VarAccess)
    → Named va
    → All Named acc
    → All Named (if b then acc ++ va ∷ [] else acc)
put_if true va acc n h = All-append Named acc (va ∷ []) h (n, tt)
put_if false va acc n h = h

collect_flat-Puts : (vas : List VarAccess) → sound vas ≡ true → Puts (collect_flat vas)
unfolding collect_flat
collect_flat-Puts [] s acc h = h
collect_flat-Puts (va ∷ vas) s acc h =
    collect_flat-Puts vas (ground (arith, s)) _ (put_if _ va acc (sound-Named va vas s) h)

if-Holds :
    (b : Bool) (m n : Option (List VarAccess))
    → Holds (All Named) m
    → Holds (All Named) n
    → Holds (All Named) (if b then m else n)
if-Holds true m n h k = h
if-Holds false m n h k = k

collect_calls-Puts :
    (vas : List VarAccess) (fs : List Collect)
    → sound vas ≡ true
    → PutsEach fs
    → Puts (collect_calls vas fs)
unfolding collect_calls
collect_calls-Puts [] fs s p acc h = h
collect_calls-Puts (va ∷ vas) [] s p acc h =
    if-Holds (is_type call va) none _ tt (
      collect_calls-Puts vas [] (ground (arith, s)) tt _ (put_if _ va acc (sound-Named va vas s) h))
collect_calls-Puts (va ∷ vas) (f ∷ fs) s p acc h =
    let s' : sound vas ≡ true = ground (arith, s) in
    if-Holds (is_type call va) (f acc >>= collect_calls vas fs) _
      (bind-Holds (All Named) (All Named) (f acc) (collect_calls vas fs) (p.0 acc h)
        (λ r k. collect_calls-Puts vas fs s' p.1 r k))
      (collect_calls-Puts vas (f ∷ fs) s' p _ (put_if _ va acc (sound-Named va vas s) h))

collect-Puts :
    (vas : Option (List VarAccess)) (fs : Option (List Collect))
    → sound_if_any vas ≡ true
    → PutsIn fs
    → Puts (collect vas fs)
unfolding collect
collect-Puts none fs s p acc h = h
collect-Puts (some vas) none s p acc h = collect_flat-Puts vas s acc h
collect-Puts (some vas) (some fs) s p acc h = collect_calls-Puts vas fs s p acc h

mutual
  unfolding build_var_access_footprint regular

  build-Puts :
      {C : Type 0} (f : FuncInfo C) → regular f ≡ true → Puts (build_var_access_footprint f)
  build-Puts (func_info f callees) r acc h =
      if-Holds (f.in_system_header || not f.has_definition) (some acc) _ h (
        collect-Puts f.var_accesses (footprints callees) (ground (arith, r))
          (callees-Puts callees (ground (arith, r))) acc h)

  callees-Puts : {C : Type 0} (cs : Callees C) → regular_callees cs ≡ true → PutsIn (footprints cs)
  callees-Puts no_array r = tt
  callees-Puts (array fs) r = each-Puts fs r

  each-Puts :
      {C : Type 0} (fs : FuncInfoArr C) → regular_each fs ≡ true → PutsEach (footprint_each fs)
  each-Puts nil r = tt
  each-Puts (cons f fs) r = (build-Puts f (ground (arith, r)), each-Puts fs (ground (arith, r)))

pub footprint-Named :
    {C : Type 0} (f : FuncInfo C) (acc r : List VarAccess)
    → regular f ≡ true
    → All Named acc
    → build_var_access_footprint f acc ≡ some r
    → All Named r
footprint-Named f acc r s h e =
    of_Holds (All Named) (build_var_access_footprint f acc) r (build-Puts f s acc h) e
