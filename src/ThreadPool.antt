-- ===== src/ThreadPool.antt =====
-- src/prong_thread_pool.c: the threads that parse the files, each a walk through `parse_file_thread`.
pub mod Invariant
pub mod Moves
pub mod Exclusive
pub mod Progress
use prongc.Prelude.{
  ℕ, ◌+◌, ◌%◌, ◌^◌, ◌-◌, ◌≤◌, ◌<◌, ◌≡◌, Bool, true, false, Option, none, some, ◌==◌, if◌then◌else◌,
}

-- Where a thread stands: in front of `pthread_mutex_lock`, behind it, behind the increment with its
-- `tu_idx`, in the parsing of a file behind `pthread_mutex_unlock`, or behind the loop.
pub data Pc : Type 0 where
  idle locked : Pc
  taken : ℕ → Pc
  parsing : ℕ → Pc
  stopped : Pc

-- An element of `tu_array`: untouched, being written by a thread, written, or left by a parse that
-- failed.
pub data Slot : Type 0 where
  untouched : Slot
  busy : ℕ → Slot
  written failed : Slot

-- The fields of `ThreadInfo` that the threads share, `tu_array`, and where each thread stands.
pub record Pool : Type 0 where
  pub next_file_idx : ℕ
  pub num_active : ℕ
  pub mutex : Option ℕ
  pub tu_array : ℕ → Slot
  pub pc : ℕ → Pc

unfoldable pub update : {A : Type 0} → (ℕ → A) → ℕ → A → ℕ → A
update f i x j = if j == i then x else f j

-- `init_thread_pool`, and the threads that `main` creates
abbrev pub init_thread_pool : Pool
init_thread_pool = record {
  next_file_idx = 0;
  num_active = 0;
  mutex = none;
  tu_array = λ k. untouched;
  pc = λ i. idle;
}

-- One step of thread `i`, of `n` threads, with `count` files.
pub data Step (n count : ℕ) (s : Pool) : Pool → Type 0 where
  lock :
      (i : ℕ)
      → i < n
      → s.pc i ≡ idle
      → s.mutex ≡ none
      → Step n count s (record s { mutex = some i; pc = update s.pc i locked })
  take :
      (i : ℕ)
      → i < n
      → s.pc i ≡ locked
      → Step n count s (record s {
        next_file_idx = (s.next_file_idx + 1) % 2 ^ 64;
        pc = update s.pc i (taken s.next_file_idx);
      })
  go_on :
      (i k : ℕ)
      → i < n
      → s.pc i ≡ taken k
      → k < count
      → Step n count s (record s {
        mutex = none;
        tu_array = update s.tu_array k (busy i);
        pc = update s.pc i (parsing k);
      })
  leave :
      (i k : ℕ)
      → i < n
      → s.pc i ≡ taken k
      → count ≤ k
      → Step n count s (record s {
        num_active = (s.num_active + (2 ^ 64 - 1)) % 2 ^ 64;
        mutex = none;
        pc = update s.pc i stopped;
      })
  parsed :
      (i k : ℕ)
      → i < n
      → s.pc i ≡ parsing k
      → Step n count s
          (record s { tu_array = update s.tu_array k written; pc = update s.pc i idle })
  parse_error :
      (i k : ℕ)
      → i < n
      → s.pc i ≡ parsing k
      → Step n count s
          (record s { tu_array = update s.tu_array k failed; pc = update s.pc i stopped })

-- the states after `m` steps
pub data Reach (n count : ℕ) : ℕ → Pool → Type 0 where
  start : Reach n count 0 init_thread_pool
  later : {m : ℕ} {s t : Pool} → Reach n count m s → Step n count s t → Reach n count (m + 1) t
