-- ===== src/Tests/Tree.antt =====
-- A small program, as libclang would give it:
--   void helper(int *q) { *q = 2; }
--   void worker(int *p) { helper(p); if (shared) *p = 1; }
use prongc.Prelude.{
  ◌≡◌, refl, str_eq_refl, arith, ℕ, Bool, true, false, none, some, List, [], ◌∷◌, Str, codes, ◌==◌,
  if◌then◌else◌,
}
use prongc.DynAos.Query.{member}
use prongc.FuncInfo.{Func, no_array}
use prongc.Clang.{
  Clang, CursorKind, function_decl, var_decl, parm_decl, compound_stmt, if_stmt, decl_ref_expr,
  call_expr, unary_operator, binary_operator, other_kind, no_linkage, external, pointer, other_type,
  deref, Forest, leaf, node,
}
use prongc.Walk.{State}

abbrev at : {A : Type 0} → A → List (ℕ × A) → ℕ → A
at default [] c = default
at default (entry ∷ table) c = if entry.0 == c then entry.1 else at default table c

abbrev pub usrs : List (ℕ × Str)
usrs =
    (1, codes "c:worker")
    ∷ (20, codes "c:helper")
    ∷ (30, codes "c:worker@p")
    ∷ (21, codes "c:helper@q")
    ∷ (40, codes "c:shared")
    ∷ []

abbrev names : List (ℕ × Str)
names =
    (1, codes "worker")
    ∷ (20, codes "helper")
    ∷ (30, codes "p")
    ∷ (21, codes "q")
    ∷ (40, codes "shared")
    ∷ []

abbrev kinds : List (ℕ × CursorKind)
kinds =
    (1, function_decl)
    ∷ (20, function_decl)
    ∷ (30, parm_decl)
    ∷ (21, parm_decl)
    ∷ (40, var_decl)
    ∷ (2, compound_stmt)
    ∷ (22, compound_stmt)
    ∷ (3, call_expr)
    ∷ (6, if_stmt)
    ∷ (4, decl_ref_expr)
    ∷ (5, decl_ref_expr)
    ∷ (7, decl_ref_expr)
    ∷ (11, decl_ref_expr)
    ∷ (25, decl_ref_expr)
    ∷ (9, binary_operator)
    ∷ (23, binary_operator)
    ∷ (10, unary_operator)
    ∷ (24, unary_operator)
    ∷ []

abbrev references : List (ℕ × ℕ)
references = (3, 20) ∷ (4, 20) ∷ (5, 30) ∷ (7, 40) ∷ (11, 30) ∷ (25, 21) ∷ []

abbrev single : ℕ → Forest ℕ
single c = node c leaf leaf

abbrev assignment : ℕ → ℕ → ℕ → Forest ℕ
assignment star pointer_ref literal = node star (single pointer_ref) (single literal)

abbrev call_children : Forest ℕ
call_children = node 14 (single 4) (node 13 (single 5) leaf)

abbrev if_children : Forest ℕ
if_children = node 7 leaf (node 9 (assignment 10 11 12) leaf)

abbrev worker_body : Forest ℕ
worker_body = node 3 call_children (node 6 if_children leaf)

abbrev helper_body : Forest ℕ
helper_body = node 23 (assignment 24 25 26) leaf

abbrev top : Forest ℕ
top = node 40 leaf (
    node 20 (node 21 leaf (node 22 helper_body leaf))
      (node 1 (node 30 leaf (node 2 worker_body leaf)) leaf))

abbrev children : List (ℕ × Forest ℕ)
children =
    (50, top)
    ∷ (1, node 30 leaf (node 2 worker_body leaf))
    ∷ (2, worker_body)
    ∷ (3, call_children)
    ∷ (13, single 5)
    ∷ (14, single 4)
    ∷ (6, if_children)
    ∷ (9, assignment 10 11 12)
    ∷ (10, single 11)
    ∷ (20, node 21 leaf (node 22 helper_body leaf))
    ∷ (22, helper_body)
    ∷ (23, assignment 24 25 26)
    ∷ (24, single 25)
    ∷ []

abbrev pub small : Clang ℕ
small = record {
  null_cursor = 0;
  is_null = λ c. c == 0;
  equal = λ c d. c == d;
  same_start = λ c d. c == d;
  same_end = λ c d. c == d;
  kind = at other_kind kinds;
  linkage = at external ((30, no_linkage) ∷ (21, no_linkage) ∷ []);
  type_kind = at other_type ((30, pointer) ∷ (21, pointer) ∷ []);
  unary_operator_kind = λ c. deref;
  binary_operator_kind = λ c. 20;
  op_assign = 20;
  op_or_assign = 30;
  usr = at [] usrs;
  display_name = at [] names;
  spelling = at [] names;
  referenced = at 0 references;
  is_definition = at false ((1, true) ∷ (20, true) ∷ []);
  in_system_header = λ c. false;
  file_name = λ c. codes "small.c";
  line = λ c. c;
  column = λ c. 1;
  num_arguments = at 0 ((1, 1) ∷ (20, 1) ∷ (3, 1) ∷ []);
  argument = λ c i. at 0 ((3, 13) ∷ (1, 30) ∷ (20, 21) ∷ []) c;
  below = at leaf children;
  tu_cursor = λ i. 50;
}

abbrev pub files : List Str
files = codes "small.c" ∷ []

abbrev pub worker : Func ℕ
worker = record {
  cursor = 1;
  usr = some (codes "c:worker");
  name = some (codes "worker");
  spelling = some (codes "worker");
  params = [];
  locals = [];
  var_accesses = none;
  in_system_header = false;
  has_definition = true;
}

abbrev pub start : State ℕ
start = record {
  ancestry_stack = [];
  last_visited = 0;
  touched_func_usrs = [];
  current_func = worker;
  callees = no_array;
}

abbrev pub argument_usr : ℕ → ℕ → Str
argument_usr c i = small.usr (small.argument c i)

abbrev values : List (ℕ × Str) → List Str
values [] = []
values (entry ∷ table) = entry.1 ∷ values table

abbrev pub us : List Str
us = [] ∷ values usrs

found : (x d : Str) (ys : List Str) → member x (d ∷ x ∷ ys) ≡ true
found x d ys = ground (arith, str_eq_refl x)

skip : (x d y : Str) (ys : List Str) → member x (d ∷ ys) ≡ true → member x (d ∷ y ∷ ys) ≡ true
skip x d y ys h = ground (arith, h)

picked :
    (b : Bool) (x y d : Str) (ys : List Str)
    → member y (d ∷ ys) ≡ true
    → member (if b then x else y) (d ∷ x ∷ ys) ≡ true
picked true x y d ys h = found x d ys
picked false x y d ys h = skip y d x ys h

value-known : (table : List (ℕ × Str)) (c : ℕ) → member (at [] table c) ([] ∷ values table) ≡ true
value-known [] c = rw (str_eq_refl []) refl
value-known (entry ∷ table) c =
    picked (entry.0 == c) entry.1 (at [] table c) [] (values table) (value-known table c)

pub known : (c : ℕ) → member (small.usr c) us ≡ true
known c = value-known usrs c
