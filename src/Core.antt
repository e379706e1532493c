-- ===== src/Core.antt =====
-- src/core.c: what is done with the footprints of two functions.
pub mod Annotate
pub mod Footprint
pub mod Overlap
pub mod Rename
pub mod Trace
pub mod Unwind
