-- ===== src/Clang.antt =====
-- What the program asks libclang. libclang is no part of the repository: a record of operations stands
-- for it, with the syntax tree below a cursor as a forest.
use prongc.Prelude.{ℕ, Bool, List, [], ◌∷◌, Str, ◌==◌}

-- The kinds of cursors that the program tells apart.
pub data CursorKind : Type 0 where
  function_decl var_decl parm_decl compound_stmt if_stmt decl_ref_expr member_ref_expr : CursorKind
  call_expr array_subscript_expr unary_operator binary_operator other_kind : CursorKind

abbrev pub kind_code : CursorKind → ℕ
kind_code function_decl = 0
kind_code var_decl = 1
kind_code parm_decl = 2
kind_code compound_stmt = 3
kind_code if_stmt = 4
kind_code decl_ref_expr = 5
kind_code member_ref_expr = 6
kind_code call_expr = 7
kind_code array_subscript_expr = 8
kind_code unary_operator = 9
kind_code binary_operator = 10
kind_code other_kind = 11

pub data Linkage : Type 0 where
  no_linkage internal external other_linkage : Linkage

abbrev pub linkage_code : Linkage → ℕ
linkage_code no_linkage = 0
linkage_code internal = 1
linkage_code external = 2
linkage_code other_linkage = 3

pub data TypeKind : Type 0 where
  pointer constant_array incomplete_array variable_array other_type : TypeKind

pub data UnaryOperator : Type 0 where
  addr_of deref pre_inc post_inc pre_dec post_dec other_operator : UnaryOperator

-- The cursors below a cursor: the first, those below it, and those beside it.
pub data Forest (C : Type 0) : Type 0 where
  leaf : Forest C
  node : C → Forest C → Forest C → Forest C

abbrev pub roots : {C : Type 0} → Forest C → List C
roots leaf = []
roots (node c below rest) = c ∷ roots rest

-- `clang_equalCursors` is `equal`; `same_start` and `same_end` are `clang_equalLocations` on the
-- locations of two cursors and on the ends of their extents. The opcodes of assignments lie between
-- `op_assign` and `op_or_assign`. `tu_cursor` is `clang_getTranslationUnitCursor` on each
-- translation unit.
pub record Clang (C : Type 0) : Type 0 where
  pub null_cursor : C
  pub is_null : C → Bool
  pub equal : C → C → Bool
  pub same_start : C → C → Bool
  pub same_end : C → C → Bool
  pub kind : C → CursorKind
  pub linkage : C → Linkage
  pub type_kind : C → TypeKind
  pub unary_operator_kind : C → UnaryOperator
  pub binary_operator_kind : C → ℕ
  pub op_assign : ℕ
  pub op_or_assign : ℕ
  pub usr : C → Str
  pub display_name : C → Str
  pub spelling : C → Str
  pub referenced : C → C
  pub is_definition : C → Bool
  pub in_system_header : C → Bool
  pub file_name : C → Str
  pub line : C → ℕ
  pub column : C → ℕ
  pub num_arguments : C → ℕ
  pub argument : C → ℕ → C
  pub below : C → Forest C
  pub tu_cursor : ℕ → C

module _ {C : Type 0} (clang : Clang C) where
  abbrev pub is_kind : CursorKind → C → Bool
  is_kind k c = kind_code (clang.kind c) == kind_code k

  -- the cursors at the top of a translation unit
  abbrev pub tu_children : ℕ → List C
  tu_children i = roots (clang.below (clang.tu_cursor i))
