-- ===== src/Tests/Threads.antt =====
-- One thread that parses the only file and leaves.
use prongc.Prelude.{ℕ, ◌≡◌, ◌≢◌, ◌⊎◌, refl, inl, true, some, none, arith}
use prongc.ThreadPool.{
  idle, locked, taken, parsing, written, failed, busy, Pool, Step, stopped, update,
  init_thread_pool, lock, take, go_on, parsed, Reach, start, later,
}
use prongc.ThreadPool.Progress.{step_exists}
use prongc.ThreadPool.Exclusive.{parse_once, none_lost, at_rest}

abbrev locked_pool : Pool
locked_pool = record init_thread_pool { mutex = some 0; pc = update init_thread_pool.pc 0 locked }

abbrev taken_pool : Pool
taken_pool = record locked_pool { next_file_idx = 1; pc = update locked_pool.pc 0 (taken 0) }

abbrev parsing_pool : Pool
parsing_pool = record taken_pool {
  mutex = none;
  tu_array = update taken_pool.tu_array 0 (busy 0);
  pc = update taken_pool.pc 0 (parsing 0);
}

abbrev parsed_pool : Pool
parsed_pool = record parsing_pool {
  tu_array = update parsing_pool.tu_array 0 written;
  pc = update parsing_pool.pc 0 idle;
}

to_parsing : Reach 1 1 3 parsing_pool
unfolding update
to_parsing =
    later (later (later start (lock 0 (omega arith) refl refl)) (take 0 (omega arith) refl))
      (go_on 0 0 (omega arith) refl (omega arith))

to_parsed : Reach 1 1 4 parsed_pool
unfolding update
to_parsed = later to_parsing (parsed 0 0 (omega arith) refl)

parsing_first : parsing_pool.pc 0 ≡ parsing 0
unfolding update
parsing_first = refl

all_at_rest : (i : ℕ) → at_rest (parsed_pool.pc i) ≡ true
unfolding update
all_at_rest i = ground arith

parse_once_example : ◌≡◌ {A = ℕ} 0 0
parse_once_example = parse_once to_parsing (omega arith) 0 0 0 (inl (parsing_first, parsing_first))

none_lost_example : (parsed_pool.tu_array 0 ≡ written) ⊎ (parsed_pool.tu_array 0 ≡ failed)
none_lost_example = none_lost to_parsed (omega arith) (omega arith) all_at_rest 0 (omega arith)

not_stopped : parsing_pool.pc 0 ≢ stopped
not_stopped e = cc (parsing_first)

step_exists_example : (t : Pool) × Step 1 1 parsing_pool t
step_exists_example = step_exists to_parsing 0 (omega arith) not_stopped
