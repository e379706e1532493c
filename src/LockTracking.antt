-- ===== src/LockTracking.antt =====
-- src/lock_tracking.c, inc/lock_tracking.h: lock functions, and the ranges of accesses that a lock
-- protects. `Pairs` has the tables of lock and unlock functions, `Fields` the array of protection
-- fields and what changes it, and `Ranges` what is read from it.
pub mod Pairs
pub mod Fields
pub mod Ranges
