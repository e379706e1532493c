-- ===== src/Lib.antt =====
-- prong, a static checker for data races in C: its core, with libclang as a parameter.
--
-- The program parses C files with libclang, walks over the functions that the user names, and collects
-- for each the variables that it accesses. It then unwinds the calls, builds one footprint of accesses
-- for each function, annotates it with the ranges in which locks are held, and reports the variables
-- that two functions share without a common lock.
--
-- Prelude: Boolean tests on numbers, lists and C strings, fallible steps. `none` stands for a fault,
--   something that C leaves undefined: a read through NULL or through a pointer into freed memory.
-- DynAos: src/dyn_aos.c. The strings of an array lie packed in one block, and a table holds the address
--   of each. A step is done, out of memory, or out of fuel; the loop that doubles the block runs on
--   fuel, the bytes needed and one, and each round adds at least one byte.
-- Buffer: the arrays of src/cursor_arr.c, src/var_access.c and src/func_info.c that double their
--   capacity, with the size of the block in bytes on a 64-bit machine.
-- VarAccess, FuncInfo: the types of inc/types.h, with the tests of src/var_access.c. A function's
--   string arrays are given by the strings that they hold.
-- LockTracking: src/lock_tracking.c. Pairs has the lock functions
--   (and Pairs/Table the array that src/prong.c fills), Fields the array of protection
--   fields, where a pointer is the address of its block and an index, and Ranges the comparison of two
--   accesses. The walk along a linked list of fields runs on the number of fields as fuel,
--   which is enough for a list that visits no field twice.
-- Core: src/core.c. Rename and Unwind are what `unwind_func_info` does to one function and its callees,
--   Footprint collects the accesses, Annotate goes over a footprint with the array of Fields, and
--   Overlap compares two footprints, in `find_unprotected_va` by the ranges of Annotate. For footprints
--   without branches Annotate/Straight, Held and Locks compare the ranges with the locks that a plain
--   walk over the footprint holds, and Overlap/Guarded and Unguarded the reports with those locks. Trace has the
--   chains of calls that are printed for an access, with the comparison of bytes as a parameter.
-- Args: the arguments of the program, also in src/core.c. `glob` and `atoi` are parameters.
-- Clang: libclang as a record of operations on cursors, with the syntax tree below a cursor as a forest.
-- CursorStack: src/cursor_arr.c, the searches. The stack is a list, its top first. Nearest is about the
--   searches for a kind, Definition about the search for the definition of a callee.
-- Walk: src/core.c, the two visitors. Visit is `prong_visitor_walk_func` and `process_func_info`,
--   Reference its branch for a reference to a variable, Ast `prong_visitor_walk_ast` and
--   `process_tu_array`. A call of `clang_visitChildren` is done, a fault, or out of fuel. Fuel bounds
--   how deep `process_func_info` goes into callees; each level touches a USR that was not touched
--   before, so that one level more than the program has USRs is enough (Ends). Balance, Matched, Same,
--   Kept and Unwound follow call markers, callees and USRs from the walk through the unwinding to the
--   footprint (Composed, Named), Total and Unwinds say when the unwinding returns, Leave is about the
--   stack, Writes about the kind of an access.
-- Main: src/prong.c. Main itself is what follows the parsing of the files: Pairs is the double loop over
--   the footprints, which are changed in place, Accounts and Reported the findings that come out of it,
--   Locked the same loop with --track-locking, Runs what follows the walks, Ends that it ends. Program is
--   `main` from its arguments to the code it returns, with Accepts on when that is ERR_OK. Outside is a
--   record of what the program gets from libraries and the system.
-- ThreadPool: src/prong_thread_pool.c. The threads as a step relation; a state counts the steps that
--   lead to it, so that the counter of files does not wrap around within 2 ^ 64 steps.
-- Tests: the theorems at concrete inputs.
--
-- Memory is a parameter: functions that say which block an allocation returns. libclang is one too.
-- Not modelled: what the visitors do with memory (the arrays of the walk are lists, and Buffer is about
-- their growth), all printing beyond what is reported, among it the calls of `trace_va_overlap` for a
-- report of the comparison, and the freeing of memory.
pub mod Args
pub mod Buffer
pub mod Clang
pub mod Core
pub mod CursorStack
pub mod DynAos
pub mod FuncInfo
pub mod LockTracking
pub mod Main
pub mod Prelude
pub mod Tests
pub mod ThreadPool
pub mod VarAccess
pub mod Walk
