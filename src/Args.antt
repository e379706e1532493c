-- ===== src/Args.antt =====
-- src/core.c: the command line. Strings are read through pointers into them; a pointer is here the
-- rest of the string behind it. The strings pushed onto an array are the list returned.
pub mod Call
pub mod Split
pub mod Options
