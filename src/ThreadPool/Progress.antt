-- ===== src/ThreadPool/Progress.antt =====
-- The threads never wait for each other forever.
use prongc.Prelude.{
  ℕ, ◌<◌, ◌≡◌, ◌≢◌, ◌⊎◌, inl, inr, refl, sym, Bool-cases, some, some_inj, Option-cases, ltb, arith,
}
use prongc.ThreadPool.{
  Pc, idle, locked, taken, parsing, stopped, Pool, update, Step, lock, take, go_on, leave, parsed,
  parse_error, Reach, start, later,
}
use prongc.ThreadPool.Invariant.{update-cases}

-- stands between `pthread_mutex_lock` and `pthread_mutex_unlock`
abbrev Inside : Pc → Type 0
Inside p = (p ≡ locked) ⊎ ((k : ℕ) × (p ≡ taken k))

-- The mutex is held by a thread that stands there.
abbrev Held : ℕ → Pool → Type 0
Held n s = (j : ℕ) → s.mutex ≡ some j → (j < n) × Inside (s.pc j)

-- a thread that stays where it is, or goes on with the mutex
still :
    (pc : ℕ → Pc) (i : ℕ) (p : Pc) (j : ℕ)
    → (j ≡ i → Inside p)
    → Inside (pc j)
    → Inside (update pc i p j)
still pc i p j h q = elim (update-cases pc i p j) [
  | inl (e, u) ↦ rw (u) (h e)
  | inr (e, u) ↦ rw (u) q
]

not_parsing : (p : Pc) (k : ℕ) → p ≡ parsing k → Inside p → ⊥
not_parsing p k e (inl q) = cc
not_parsing p k e (inr (l, q)) = cc

Step-Held : (n count : ℕ) (s t : Pool) → Step n count s t → Held n s → Held n t
Step-Held n count s _ (lock i l e free) h j m = elim (update-cases s.pc i locked j) [
  | inl (q, u) ↦ (rw (q) l, inl u)
  | inr (q, u) ↦ absurd (q (sym (some_inj m)))
]
Step-Held n count s _ (take i l e) h j m =
    let (b, p) = h j m in
    (b, still s.pc i (taken s.next_file_idx) j (λ q. inr (s.next_file_idx, refl)) p)
Step-Held n count s _ (go_on i k l e f) h j m = cc
Step-Held n count s _ (leave i k l e f) h j m = cc
Step-Held n count s _ (parsed i k l e) h j m =
    let (b, p) = h j m in
    (b, still s.pc i idle j (λ q. absurd (not_parsing (s.pc j) k (rw (q) e) p)) p)
Step-Held n count s _ (parse_error i k l e) h j m =
    let (b, p) = h j m in
    (b, still s.pc i stopped j (λ q. absurd (not_parsing (s.pc j) k (rw (q) e) p)) p)

Reach-Held : {n count m : ℕ} {s : Pool} → Reach n count m s → Held n s
Reach-Held start = λ j e. cc
Reach-Held (later r d) = Step-Held _ _ _ _ d (Reach-Held r)

pc-cases : (p : Pc) → (p ≡ idle) ⊎ ((p ≡ stopped) ⊎ (Inside p ⊎ ((k : ℕ) × (p ≡ parsing k))))
pc-cases idle = inl refl
pc-cases locked = inr (inr (inl (inl refl)))
pc-cases (taken k) = inr (inr (inl (inr (k, refl))))
pc-cases (parsing k) = inr (inr (inr (k, refl)))
pc-cases stopped = inr (inl refl)

-- a thread that stands inside can take its next step
from_inside :
    (n count : ℕ) (s : Pool) (j : ℕ) → j < n → Inside (s.pc j) → (t : Pool) × Step n count s t
from_inside n count s j l (inl e) = (_, take j l e)
from_inside n count s j l (inr (k, e)) = elim (Bool-cases (ltb k count)) [
  | inl h ↦ (_, go_on j k l e (ground (arith, h)))
  | inr h ↦ (_, leave j k l e (ground (arith, h)))
]

-- In every state that the threads can reach, if a thread has not left its loop, some thread can take a
-- step: the threads do not deadlock.
pub step_exists :
    {n count m : ℕ} {s : Pool}
    → Reach n count m s
    → (i : ℕ) → i < n
    → s.pc i ≢ stopped
    → (t : Pool) × Step n count s t
step_exists {n = n} {count = count} {s = s} r i l h = elim (pc-cases (s.pc i)) [
  | inr (inl e) ↦ absurd (h e)
  | inr (inr (inl p)) ↦ from_inside n count s i l p
  | inr (inr (inr (k, e))) ↦ (_, parsed i k l e)
  | inl e ↦ elim (Option-cases s.mutex) [
    | inl free ↦ (_, lock i l e free)
    | inr (j, m) ↦ let (b, p) = Reach-Held r j m in from_inside n count s j b p
  ]
]
