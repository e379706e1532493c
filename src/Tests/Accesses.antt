-- ===== src/Tests/Accesses.antt =====
-- A function `f(x)` with a read of its parameter and a call, and what is left of its accesses.
use prongc.Prelude.{
  ℕ, ◌≡◌, refl, true, false, none, some, List, [], ◌∷◌, ◌++◌, All, Str, codes, arith,
}
use prongc.VarAccess.{VarAccess, VarAccessType, null, read, write, call, no_idx}
use prongc.FuncInfo.{Func, FuncInfo, func_info, no_array, array, nil, cons}
use prongc.Core.Footprint.{build_var_access_footprint}
use prongc.Core.Footprint.Inline.{Kept, matched, footprint-Returns}
use prongc.Core.Rename.{
  print_usr, digits, usr_hash, resolve_var_access_alias, field_access,
  generate_artificial_param_usr,
}
use prongc.Core.Rename.Alias.{resolve-no_idx}
use prongc.Core.Rename.Artificial.{generate-inj}
use prongc.Core.Unwind.{each_access, classify_access}
use prongc.Core.Unwind.Irrelevant.{Shared, each_access-Shared}

abbrev access : Str → VarAccessType → VarAccess
access usr type = record {
  usr = some usr;
  name = none;
  parent_func_name = some (codes "f");
  esc_func_spelling = none;
  esc_func_usr = none;
  esc_param_idx = no_idx;
  line = 1;
  column = 1;
  type = type;
  is_ptr_type = false;
}

abbrev body : List VarAccess → Func ℕ
body vas = record {
  cursor = 0;
  usr = none;
  name = some (codes "f(int)");
  spelling = some (codes "f");
  params = codes "f@x" ∷ [];
  locals = codes "f@x" ∷ codes "f@l" ∷ [];
  var_accesses = some vas;
  in_system_header = false;
  has_definition = true;
}

abbrev callee : FuncInfo ℕ
callee = func_info (body (access (codes "f@l") null ∷ access (codes "g") write ∷ [])) no_array

abbrev caller : FuncInfo ℕ
caller =
    func_info
      (body (access (codes "g") read ∷ access (codes "f") call ∷ access (codes "h") read ∷ []))
      (array (cons callee nil))

caller-matched : matched caller ≡ true
unfolding matched
caller-matched = refl

footprint-Returns_example :
    (r : List VarAccess) × ((acc : List VarAccess)
      → build_var_access_footprint caller acc ≡ some (acc ++ r))
    × All Kept r
footprint-Returns_example = footprint-Returns caller caller-matched

caller-footprint :
    build_var_access_footprint caller []
    ≡ some (access (codes "g") read ∷ access (codes "g") write ∷ access (codes "h") read ∷ [])
unfolding build_var_access_footprint
caller-footprint = refl

abbrev no_argument : ℕ → ℕ → Str
no_argument f i = []

resolve-no_idx_example :
    resolve_var_access_alias no_argument
      (body (access (codes "f@x") read ∷ []))
      (access (codes "g") call)
    ≡ some (body (access (codes "f@x") read ∷ []))
resolve-no_idx_example =
    resolve-no_idx no_argument (body (access (codes "f@x") read ∷ [])) (access (codes "g") call)
      refl refl ((b'f', codes "@x", refl), tt)

buf_same :
    generate_artificial_param_usr true (some (codes "buf")) (codes "c:f@x")
    ≡ generate_artificial_param_usr true (some (codes "buf")) (codes "c:f@yy")
unfolding generate_artificial_param_usr field_access print_usr digits usr_hash
buf_same = refl

generate-inj_example : codes "buf" ≡ codes "buf"
generate-inj_example =
    generate-inj (codes "buf") (codes "buf") (codes "c:f@x") (codes "c:f@yy") (omega arith)
      (omega arith) (unfold field_access in refl) (unfold field_access in refl) buf_same

abbrev some_accesses : List VarAccess
some_accesses = access (codes "f@x") read ∷ access (codes "g") write ∷ []

each_access-Shared_example :
    (vs : List VarAccess) × (each_access
        (classify_access (codes "f@l" ∷ []) (codes "f@x" ∷ []))
        some_accesses
      ≡ some vs)
    × All (Shared (codes "f@l" ∷ []) (codes "f@x" ∷ [])) vs
each_access-Shared_example =
    each_access-Shared (codes "f@l" ∷ []) (codes "f@x" ∷ []) some_accesses
      ((codes "f@x", refl), ((codes "g", refl), tt))
