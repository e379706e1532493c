-- ===== src/Walk/Kept.antt =====
-- What `unwind_func_info` does to the accesses of one function.
use prongc.Prelude.{
  ℕ, ◌+◌, ◌≡◌, refl, ap, Bool, true, Option, none, some, List, [], ◌∷◌, Str, arith, ◌>>=◌, Holds,
  bind-Holds, then-Holds, Holds-mono,
}
use prongc.VarAccess.{VarAccess}
use prongc.FuncInfo.{Callees, no_array, array}
use prongc.Core.Footprint.Inline.{calls}
use prongc.Core.Rename.{rename_access, rename_accesses}
use prongc.Core.Unwind.{
  string_at, each_access, each_if_any, map_argument, map_arguments, map_parsed_call,
}
use prongc.Walk.Regular.{sound, in_step}
use prongc.Walk.Same.{Same, map_argument-Same}

pub each_access-Same :
    (f : VarAccess → Option VarAccess)
    → ((va : VarAccess) → Holds (Same va) (f va))
    → (vas : List VarAccess)
    → Holds
        (λ ws. sound vas ≡ true → (calls ws ≡ calls vas) × (sound ws ≡ true))
        (each_access f vas)
unfolding each_access
each_access-Same f h [] = λ s. (refl, refl)
each_access-Same f h (va ∷ vas) = bind-Holds (Same va) _ (f va) _ (h va) (λ v s.
    bind-Holds (λ ws. sound vas ≡ true → (calls ws ≡ calls vas) × (sound ws ≡ true)) _
      (each_access f vas) _ (each_access-Same f h vas)
      (λ vs t k.
        let (a, b) = s (ground arith) in
        let (c, d) = t (ground arith) in (rw (a, c) refl, ground arith)))

-- What the loops make of the accesses of a function is as in step with its callees.
abbrev pub Keeps : (C : Type 0) → Option (List VarAccess) → Option (List VarAccess) → Type 0
Keeps C o p = (cs : Callees C) → in_step o cs ≡ true → in_step p cs ≡ true

pub some-Keeps :
    (C : Type 0) (vas ws : List VarAccess)
    → (sound vas ≡ true → (calls ws ≡ calls vas) × (sound ws ≡ true))
    → Keeps C (some vas) (some ws)
some-Keeps C vas ws h no_array s = (h (ground arith)).1
some-Keeps C vas ws h (array fs) s = let (a, b) = h (ground arith) in rw (a, b) (ground arith)

pub each_if_any-Keeps :
    (C : Type 0) (f : VarAccess → Option VarAccess)
    → ((va : VarAccess) → Holds (Same va) (f va))
    → (o : Option (List VarAccess)) → Holds (Keeps C o) (each_if_any f o)
unfolding each_if_any
each_if_any-Keeps C f h none = λ cs s. s
each_if_any-Keeps C f h (some vas) =
    bind-Holds (λ ws. sound vas ≡ true → (calls ws ≡ calls vas) × (sound ws ≡ true))
      (Keeps C (some vas)) (each_access f vas) (λ vs. some (some vs)) (each_access-Same f h vas)
      (λ ws k. some-Keeps C vas ws k)

one_argument-Keeps :
    (C : Type 0) (room : Str → Bool) (has_room : (s : Str) → room s ≡ true) (arg : Str)
    (param_usr : Option Str) (o : Option (List VarAccess))
    → Holds (Keeps C o) (elim param_usr [
      | none ↦ some o
      | some usr ↦ each_if_any (λ va. some (map_argument room usr (some arg) va)) o
    ])
one_argument-Keeps C room has_room arg none o = λ cs s. s
one_argument-Keeps C room has_room arg (some usr) o =
    each_if_any-Keeps C _ (λ va. map_argument-Same room usr (some arg) va has_room) o

map_arguments-Keeps :
    (C : Type 0) (room : Str → Bool) (has_room : (s : Str) → room s ≡ true) (params : List Str)
    (i : ℕ) (args : List Str) (o : Option (List VarAccess))
    → Holds (Keeps C o) (map_arguments room params i args o)
unfolding map_arguments
map_arguments-Keeps C room has_room params i [] o = λ cs s. s
map_arguments-Keeps C room has_room params i (arg ∷ args) o =
    then-Holds (Keeps C o) (string_at params i) _ (λ param_usr.
      bind-Holds (Keeps C o) (Keeps C o) _ (map_arguments room params (i + 1) args)
        (one_argument-Keeps C room has_room arg param_usr o)
        (λ p h.
          Holds-mono (Keeps C p) (Keeps C o) (map_arguments room params (i + 1) args p)
            (map_arguments-Keeps C room has_room params (i + 1) args p)
            (λ q k cs s. k cs (h cs s))))

pub map_parsed_call-Keeps :
    (C : Type 0) (room : Str → Bool) (has_room : (s : Str) → room s ≡ true)
    (parsed : Option (List Str)) (params : List Str) (o : Option (List VarAccess))
    → Holds (Keeps C o) (map_parsed_call room parsed params o)
unfolding map_parsed_call
map_parsed_call-Keeps C room has_room none params o = λ cs s. s
map_parsed_call-Keeps C room has_room (some []) params o = λ cs s. s
map_parsed_call-Keeps C room has_room (some (name ∷ args)) params o =
    map_arguments-Keeps C room has_room params 0 args o

pub rename_accesses-each :
    (param : Str) (usr : Option Str) (vas : List VarAccess)
    → rename_accesses param usr vas ≡ each_access (rename_access param usr) vas
unfolding rename_accesses each_access
rename_accesses-each param usr [] = refl
rename_accesses-each param usr (va ∷ vas) =
    ap (λ r. rename_access param usr va >>= λ v. r >>= λ vs. some (v ∷ vs))
      (rename_accesses-each param usr vas)
