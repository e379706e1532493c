-- ===== src/ThreadPool/Moves.antt =====
-- Each step keeps the invariant of the threads.
use prongc.Prelude.{
  ℕ, ◌+◌, ◌%◌, ◌^◌, ◌≤◌, ◌<◌, ◌≡◌, inl, inr, sym, ap, ◌∙◌, true, Bool-cases, some_inj, none, some,
  arith, ◌==◌,
}
use prongc.ThreadPool.{
  Pc, idle, locked, taken, parsing, stopped, Slot, untouched, busy, Pool, update,
}
use prongc.ThreadPool.Invariant.{
  Inv, moved, same, other, parsing_inj, taken_inj, busy_inj, outside, settled, the, less,
}

module _ (count m : ℕ) (s : Pool) (v : Inv count m s) (i : ℕ) where
  pub lock-Inv :
      s.pc i ≡ idle
      → s.mutex ≡ none
      → Inv count (m + 1) (record s { mutex = some i; pc = update s.pc i locked })
  lock-Inv e free = record {
    steps = omega (arith, v.steps);
    holds_locked = λ j q. elim (moved s.pc i locked j q) [
      | inl (a, b) ↦ ap some (sym a)
      | inr (a, b) ↦ cc (v.holds_locked j b)
    ];
    holds_taken = λ j k q. elim (moved s.pc i locked j q) [
      | inl (a, b) ↦ cc
      | inr (a, b) ↦ cc (v.holds_taken j k b)
    ];
    last_taken = λ j k q. elim (moved s.pc i locked j q) [
      | inl (a, b) ↦ cc
      | inr (a, b) ↦ v.last_taken j k b
    ];
    fresh_taken = λ j k q. elim (moved s.pc i locked j q) [
      | inl (a, b) ↦ cc
      | inr (a, b) ↦ v.fresh_taken j k b
    ];
    owned =
        λ j k q. elim (moved s.pc i locked j q) [ inl (a, b) ↦ cc | inr (a, b) ↦ v.owned j k b ];
    at_work =
        λ j k q. other s.pc i locked j (λ r. cc (v.at_work j k q, ap s.pc r)) ∙ v.at_work j k q;
    above = v.above;
    served = λ k h h' q.
        let (j, r) = v.served k h h' q in (j, other s.pc i locked j (λ x. cc (ap s.pc x)) ∙ r);
  }

  pub take-Inv :
      s.pc i ≡ locked
      → m + 1 < 2 ^ 64
      → Inv count (m + 1) (record s {
        next_file_idx = (s.next_file_idx + 1) % 2 ^ 64;
        pc = update s.pc i (taken s.next_file_idx);
      })
  take-Inv e small =
      let grown : (s.next_file_idx + 1) % 2 ^ 64 ≡ s.next_file_idx + 1 = omega (arith, v.steps) in
      let mine : s.mutex ≡ some i = v.holds_locked i e in
      let n : ℕ = s.next_file_idx in
      record {
        steps = omega (arith, v.steps);
        holds_locked = λ j q. elim (moved s.pc i (taken n) j q) [
          | inl (a, b) ↦ cc
          | inr (a, b) ↦ v.holds_locked j b
        ];
        holds_taken = λ j k q. elim (moved s.pc i (taken n) j q) [
          | inl (a, b) ↦ cc
          | inr (a, b) ↦ v.holds_taken j k b
        ];
        last_taken = λ j k q. elim (moved s.pc i (taken n) j q) [
          | inl (a, b) ↦ rw (grown) (cc b)
          | inr (a, b) ↦ absurd (a cc (v.holds_taken j k b, mine))
        ];
        fresh_taken = λ j k q. elim (moved s.pc i (taken n) j q) [
          | inl (a, b) ↦ cc (v.above n (omega arith))
          | inr (a, b) ↦ v.fresh_taken j k b
        ];
        owned = λ j k q. elim (moved s.pc i (taken n) j q) [
          | inl (a, b) ↦ cc
          | inr (a, b) ↦ v.owned j k b
        ];
        at_work = λ j k q.
            other s.pc i (taken n) j (λ r. cc (v.at_work j k q, ap s.pc r)) ∙ v.at_work j k q;
        above = λ k h. v.above k (omega (arith, grown));
        served = λ k h h' q. elim (Bool-cases (k == n)) [
          | inl x ↦ (i, same s.pc i (taken n) ∙ ap taken (sym (the k n x)))
          | inr x ↦
              let (j, r) = v.served k (less k n x (omega (arith, grown))) h' q in
              (j, other s.pc i (taken n) j (λ y. cc (ap s.pc y)) ∙ r)
        ];
      }

  -- another thread is not in the critical section while `i` is
  alone : (j : ℕ) → s.mutex ≡ some i → s.mutex ≡ some j → j ≡ i
  alone j a b = some_inj (sym b ∙ a)

  pub go_on-Inv :
      (k : ℕ)
      → s.pc i ≡ taken k
      → k < count
      → Inv count (m + 1) (record s {
        mutex = none;
        tu_array = update s.tu_array k (busy i);
        pc = update s.pc i (parsing k);
      })
  go_on-Inv k e h =
      let mine : s.mutex ≡ some i = v.holds_taken i k e in
      let free : s.tu_array k ≡ untouched = v.fresh_taken i k e in
      record {
        steps = omega (arith, v.steps);
        holds_locked = λ j q. elim (moved s.pc i (parsing k) j q) [
          | inl (a, b) ↦ cc
          | inr (a, b) ↦ absurd (a (alone j mine (v.holds_locked j b)))
        ];
        holds_taken = λ j l q. elim (moved s.pc i (parsing k) j q) [
          | inl (a, b) ↦ cc
          | inr (a, b) ↦ absurd (a (alone j mine (v.holds_taken j l b)))
        ];
        last_taken = λ j l q. elim (moved s.pc i (parsing k) j q) [
          | inl (a, b) ↦ cc
          | inr (a, b) ↦ v.last_taken j l b
        ];
        fresh_taken = λ j l q. elim (moved s.pc i (parsing k) j q) [
          | inl (a, b) ↦ cc
          | inr (a, b) ↦ absurd (a (alone j mine (v.holds_taken j l b)))
        ];
        owned = λ j l q. elim (moved s.pc i (parsing k) j q) [
          | inl (a, b) ↦ rw (a, ← parsing_inj b) (same s.tu_array k (busy i))
          | inr (a, b) ↦
              other s.tu_array k (busy i) l (λ x. cc (v.owned j l b, ap s.tu_array x))
              ∙ v.owned j l b
        ];
        at_work = λ j l q. elim (moved s.tu_array k (busy i) l q) [
          | inl (a, b) ↦ rw (← busy_inj b, a) (same s.pc i (parsing k))
          | inr (a, b) ↦
              other s.pc i (parsing k) j (λ x. cc (v.at_work j l b, ap s.pc x)) ∙ v.at_work j l b
        ];
        above = λ l x.
            other s.tu_array k (busy i) l (λ y. absurd (omega (arith, v.last_taken i k e)))
            ∙ v.above l x;
        served = λ l x x' q. elim (moved s.tu_array k (busy i) l q) [
          | inl (a, b) ↦ cc
          | inr (a, b) ↦
              let (j, r) = v.served l x x' b in
              (j, other s.pc i (parsing k) j (λ y. a (taken_inj (sym r ∙ ap s.pc y ∙ e))) ∙ r)
        ];
      }

  pub leave-Inv :
      (k active : ℕ)
      → s.pc i ≡ taken k
      → count ≤ k
      → Inv count
          (m + 1)
          (record s { num_active = active; mutex = none; pc = update s.pc i stopped })
  leave-Inv k active e h =
      let mine : s.mutex ≡ some i = v.holds_taken i k e in
      record {
        steps = omega (arith, v.steps);
        holds_locked = λ j q. elim (moved s.pc i stopped j q) [
          | inl (a, b) ↦ cc
          | inr (a, b) ↦ absurd (a (alone j mine (v.holds_locked j b)))
        ];
        holds_taken = λ j l q. elim (moved s.pc i stopped j q) [
          | inl (a, b) ↦ cc
          | inr (a, b) ↦ absurd (a (alone j mine (v.holds_taken j l b)))
        ];
        last_taken = λ j l q. elim (moved s.pc i stopped j q) [
          | inl (a, b) ↦ cc
          | inr (a, b) ↦ v.last_taken j l b
        ];
        fresh_taken = λ j l q. elim (moved s.pc i stopped j q) [
          | inl (a, b) ↦ cc
          | inr (a, b) ↦ v.fresh_taken j l b
        ];
        owned = λ j l q. elim (moved s.pc i stopped j q) [
          | inl (a, b) ↦ cc
          | inr (a, b) ↦ v.owned j l b
        ];
        at_work = λ j l q.
            other s.pc i stopped j (λ r. cc (v.at_work j l q, ap s.pc r)) ∙ v.at_work j l q;
        above = v.above;
        served = λ l x x' q.
            let (j, r) = v.served l x x' q in
            (
              j,
              other s.pc i stopped j
                    (λ y. absurd (omega (arith, taken_inj (sym r ∙ ap s.pc y ∙ e))))
                  ∙ r,
            );
      }

  pub finish-Inv :
      (k : ℕ) (p : Pc) (w : Slot)
      → s.pc i ≡ parsing k
      → outside p ≡ true
      → settled w ≡ true
      → Inv count (m + 1) (record s { tu_array = update s.tu_array k w; pc = update s.pc i p })
  finish-Inv k p w e out done =
      let mine : s.tu_array k ≡ busy i = v.owned i k e in
      record {
        steps = omega (arith, v.steps);
        holds_locked = λ j q. elim (moved s.pc i p j q) [
          | inl (a, b) ↦ cc (ap outside b)
          | inr (a, b) ↦ v.holds_locked j b
        ];
        holds_taken = λ j l q. elim (moved s.pc i p j q) [
          | inl (a, b) ↦ cc (ap outside b)
          | inr (a, b) ↦ v.holds_taken j l b
        ];
        last_taken = λ j l q. elim (moved s.pc i p j q) [
          | inl (a, b) ↦ cc (ap outside b)
          | inr (a, b) ↦ v.last_taken j l b
        ];
        fresh_taken = λ j l q. elim (moved s.pc i p j q) [
          | inl (a, b) ↦ cc (ap outside b)
          | inr (a, b) ↦
              other s.tu_array k w l (λ x. cc (v.fresh_taken j l b, ap s.tu_array x))
              ∙ v.fresh_taken j l b
        ];
        owned = λ j l q. elim (moved s.pc i p j q) [
          | inl (a, b) ↦ cc (ap outside b)
          | inr (a, b) ↦
              other s.tu_array k w l
                (λ x. a (busy_inj (sym (v.owned j l b) ∙ ap s.tu_array x ∙ mine)))
              ∙ v.owned j l b
        ];
        at_work = λ j l q. elim (moved s.tu_array k w l q) [
          | inl (a, b) ↦ cc (ap settled b)
          | inr (a, b) ↦
              other s.pc i p j (λ x. a (parsing_inj (sym (v.at_work j l b) ∙ ap s.pc x ∙ e)))
              ∙ v.at_work j l b
        ];
        above =
            λ l x. other s.tu_array k w l (λ y. cc (v.above l x, ap s.tu_array y)) ∙ v.above l x;
        served = λ l x x' q. elim (moved s.tu_array k w l q) [
          | inl (a, b) ↦ cc (ap settled b)
          | inr (a, b) ↦
              let (j, r) = v.served l x x' b in (j, other s.pc i p j (λ y. cc (ap s.pc y)) ∙ r)
        ];
      }
