-- ===== src/FuncInfo.antt =====
-- The FuncInfo of inc/types.h: a function, its accesses and the functions that it calls.
use prongc.Prelude.{Bool, Option, none, List, [], Str}
use prongc.VarAccess.{VarAccess}

-- The fields other than `callees`. The two growing string arrays `params` and `locals` are given by
-- the strings that they hold, `var_accesses` by its elements; a pointer is `none` where it is NULL.
-- `Cursor` is libclang's CXCursor.
pub record Func (Cursor : Type 0) : Type 0 where
  pub cursor : Cursor
  pub usr : Option Str
  pub name : Option Str
  pub spelling : Option Str
  pub params : List Str
  pub locals : List Str
  pub var_accesses : Option (List VarAccess)
  pub in_system_header : Bool
  pub has_definition : Bool

-- `callees` is NULL, or points to an array of functions.
mutual
  pub data FuncInfo (Cursor : Type 0) : Type 0 where
    func_info : Func Cursor → Callees Cursor → FuncInfo Cursor

  pub data Callees (Cursor : Type 0) : Type 0 where
    no_array : Callees Cursor
    array : FuncInfoArr Cursor → Callees Cursor

  pub data FuncInfoArr (Cursor : Type 0) : Type 0 where
    nil : FuncInfoArr Cursor
    cons : FuncInfo Cursor → FuncInfoArr Cursor → FuncInfoArr Cursor

-- `init_func_info`
abbrev pub init_func_info :
    {Cursor : Type 0}
    → Cursor
    → (usr elem_name spelling : Option Str) → (in_system_header has_definition : Bool) → Func Cursor
init_func_info cursor usr elem_name spelling in_system_header has_definition = record {
  cursor = cursor;
  usr = usr;
  name = elem_name;
  spelling = spelling;
  params = [];
  locals = [];
  var_accesses = none;
  in_system_header = in_system_header;
  has_definition = has_definition;
}
