-- ===== src/Tests.antt =====
-- The theorems at concrete inputs.
mod Strings
mod Tables
mod Arguments
mod Accesses
mod Overlaps
mod Threads
mod Tree
mod Walk
mod Stack
mod Main
mod Traces
mod Locks
mod Program
