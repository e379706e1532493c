-- ===== src/ThreadPool/Exclusive.antt =====
-- No file is parsed by two threads, and none is lost.
use prongc.Prelude.{
  ℕ, ◌+◌, ◌^◌, ◌≤◌, ◌<◌, ◌≡◌, ◌⊎◌, inl, inr, refl, sym, ap, ◌∙◌, Bool, true, false, some_inj, arith,
}
use prongc.ThreadPool.{
  Pc, idle, taken, parsing, stopped, Slot, untouched, busy, written, failed, Pool, Step, lock, take,
  go_on, leave, parsed, parse_error, Reach, start, later,
}
use prongc.ThreadPool.Invariant.{Inv, init-Inv, busy_inj}
use prongc.ThreadPool.Moves.{lock-Inv, take-Inv, go_on-Inv, leave-Inv, finish-Inv}

Step-Inv :
    (n count m : ℕ) (s t : Pool)
    → Step n count s t
    → m + 1 < 2 ^ 64
    → Inv count m s
    → Inv count (m + 1) t
Step-Inv n count m s _ (lock i l e free) small v = lock-Inv count m s v i e free
Step-Inv n count m s _ (take i l e) small v = take-Inv count m s v i e small
Step-Inv n count m s _ (go_on i k l e h) small v = go_on-Inv count m s v i k e h
Step-Inv n count m s _ (leave i k l e h) small v = leave-Inv count m s v i k _ e h
Step-Inv n count m s _ (parsed i k l e) small v =
    finish-Inv count m s v i k idle written e refl refl
Step-Inv n count m s _ (parse_error i k l e) small v =
    finish-Inv count m s v i k stopped failed e refl refl

Reach-Inv : {n count m : ℕ} {s : Pool} → Reach n count m s → m < 2 ^ 64 → Inv count m s
Reach-Inv {count = count} start small = init-Inv count
Reach-Inv (later r d) small = Step-Inv _ _ _ _ _ d small (Reach-Inv r (omega arith))

-- In every state that fewer than 2 ^ 64 steps lead to, two threads in the parsing of one file are one
-- thread, and two threads that stand between locking and unlocking with an index are one thread.
pub parse_once :
    {n count m : ℕ} {s : Pool}
    → Reach n count m s
    → m < 2 ^ 64
    → (i j k : ℕ)
    → ((s.pc i ≡ parsing k) × (s.pc j ≡ parsing k))
      ⊎ ((l : ℕ) × (s.pc i ≡ taken k) × (s.pc j ≡ taken l))
    → i ≡ j
parse_once r small i j k (inl (a, b)) =
    let v = Reach-Inv r small in busy_inj (sym (v.owned i k a) ∙ v.owned j k b)
parse_once r small i j k (inr (l, a, b)) =
    let v = Reach-Inv r small in some_inj (sym (v.holds_taken i k a) ∙ v.holds_taken j l b)

abbrev pub at_rest : Pc → Bool
at_rest (taken k) = false
at_rest (parsing k) = false
at_rest _ = true

slot-cases :
    (w : Slot) → (w ≡ untouched) ⊎ (((i : ℕ) × (w ≡ busy i)) ⊎ ((w ≡ written) ⊎ (w ≡ failed)))
slot-cases untouched = inl refl
slot-cases (busy i) = inr (inl (i, refl))
slot-cases written = inr (inr (inl refl))
slot-cases failed = inr (inr (inr refl))

-- In every state that fewer than 2 ^ 64 steps lead to, once the counter has reached the number of
-- files and no thread has an index or parses, every file was parsed, or its parse failed.
pub none_lost :
    {n count m : ℕ} {s : Pool}
    → Reach n count m s
    → m < 2 ^ 64
    → count ≤ s.next_file_idx
    → ((i : ℕ) → at_rest (s.pc i) ≡ true)
    → (k : ℕ) → k < count
    → (s.tu_array k ≡ written) ⊎ (s.tu_array k ≡ failed)
none_lost {s = s} r small past rest k h =
    let v = Reach-Inv r small in
    elim (slot-cases (s.tu_array k)) [
      | inl u ↦ let (i, e) = v.served k (omega arith) h u in cc (rest i, ap at_rest e)
      | inr (inl (i, b)) ↦ cc (rest i, ap at_rest (v.at_work i k b))
      | inr (inr w) ↦ w
    ]
