-- ===== src/ThreadPool/Invariant.antt =====
-- The invariant of the threads, and that each step keeps it.
use prongc.Prelude.{
  ℕ, ◌+◌, ◌≤◌, ◌<◌, ◌≡◌, ◌≢◌, ◌⊎◌, inl, inr, refl, sym, ◌∙◌, Bool, true, false, Bool-cases, some,
  arith, ◌==◌,
}
use prongc.ThreadPool.{
  Pc, idle, locked, taken, parsing, stopped, Slot, untouched, busy, written, failed, Pool, update,
  init_thread_pool,
}

-- what `update` gives at `j`
pub update-cases :
    {A : Type 0} (f : ℕ → A) (i : ℕ) (x : A) (j : ℕ)
    → ((j ≡ i) × (update f i x j ≡ x)) ⊎ ((j ≢ i) × (update f i x j ≡ f j))
unfolding update
update-cases f i x j = elim (Bool-cases (j == i)) [
  | inl e ↦ inl (ground arith, rw (e) refl)
  | inr e ↦ inr (λ q. absurd (ground arith), rw (e) refl)
]

-- what `update` was given where it gives `y`
pub moved :
    {A : Type 0} (f : ℕ → A) (i : ℕ) (x : A) (j : ℕ) {y : A}
    → update f i x j ≡ y
    → ((j ≡ i) × (x ≡ y)) ⊎ ((j ≢ i) × (f j ≡ y))
moved f i x j e = elim (update-cases f i x j) [
  | inl (a, b) ↦ inl (a, sym b ∙ e)
  | inr (a, b) ↦ inr (a, sym b ∙ e)
]

pub same : {A : Type 0} (f : ℕ → A) (i : ℕ) (x : A) → update f i x i ≡ x
same f i x = elim (update-cases f i x i) [ inl (a, b) ↦ b | inr (a, b) ↦ absurd (a refl) ]

pub other : {A : Type 0} (f : ℕ → A) (i : ℕ) (x : A) (j : ℕ) → j ≢ i → update f i x j ≡ f j
other f i x j h = elim (update-cases f i x j) [ inl (a, b) ↦ absurd (h a) | inr (a, b) ↦ b ]

pub parsing_inj : {k l : ℕ} → parsing k ≡ parsing l → k ≡ l
parsing_inj e = cc

pub taken_inj : {k l : ℕ} → taken k ≡ taken l → k ≡ l
taken_inj e = cc

pub busy_inj : {k l : ℕ} → busy k ≡ busy l → k ≡ l
busy_inj e = cc

abbrev pub outside : Pc → Bool
outside idle = true
outside stopped = true
outside _ = false

abbrev pub settled : Slot → Bool
settled written = true
settled failed = true
settled _ = false

pub the : (k n : ℕ) → (k == n) ≡ true → k ≡ n
the k n x = ground arith

pub less : (k n : ℕ) → (k == n) ≡ false → k < n + 1 → k < n
less k n x h = ground arith

-- A thread between locking and unlocking holds the mutex, and the index that it took is the last one;
-- a file is marked busy exactly while its thread parses it; no file from the counter on was touched,
-- and every other untouched file is in the hands of the thread that took it.
pub record Inv (count m : ℕ) (s : Pool) : Type 0 where
  pub steps : s.next_file_idx ≤ m
  pub holds_locked : (i : ℕ) → s.pc i ≡ locked → s.mutex ≡ some i
  pub holds_taken : (i k : ℕ) → s.pc i ≡ taken k → s.mutex ≡ some i
  pub last_taken : (i k : ℕ) → s.pc i ≡ taken k → k + 1 ≡ s.next_file_idx
  pub fresh_taken : (i k : ℕ) → s.pc i ≡ taken k → s.tu_array k ≡ untouched
  pub owned : (i k : ℕ) → s.pc i ≡ parsing k → s.tu_array k ≡ busy i
  pub at_work : (i k : ℕ) → s.tu_array k ≡ busy i → s.pc i ≡ parsing k
  pub above : (k : ℕ) → s.next_file_idx ≤ k → s.tu_array k ≡ untouched
  pub served :
      (k : ℕ)
      → k < s.next_file_idx
      → k < count
      → s.tu_array k ≡ untouched
      → (i : ℕ) × (s.pc i ≡ taken k)

pub init-Inv : (count : ℕ) → Inv count 0 init_thread_pool
init-Inv count = record {
  steps = omega arith;
  holds_locked = λ i e. cc;
  holds_taken = λ i k e. cc;
  last_taken = λ i k e. cc;
  fresh_taken = λ i k e. cc;
  owned = λ i k e. cc;
  at_work = λ i k e. cc;
  above = λ k h. refl;
  served = λ k h. absurd (omega arith);
}
