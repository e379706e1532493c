-- ===== src/DynAos/Append.antt =====
-- `aos_append_strings`.
use prongc.Prelude.{
  ◌+◌, ◌≡◌, ◌≢◌, refl, ◌∙◌, ap, false, ◌||◌, some, List, [], ◌∷◌, ◌++◌, append_assoc, append-nil,
  length, All-back, Str, arith, ◌==◌,
}
use native.Mathlib.Nat.{add-zero}
use prongc.DynAos.{DynamicAos, ok, Allocator, done, push_all, aos_append_strings}
use prongc.DynAos.View.{pack, addresses, Holds, read_string-Holds, length-strings}
use prongc.DynAos.Grow.{Grants}
use prongc.DynAos.Push.{push-Holds}
use prongc.DynAos.Query.{step_address}

module _ (alloc : Allocator) (grants : Grants alloc) (b : DynamicAos) where
  push_all-Holds :
      (a : DynamicAos) (held ss ts : List Str)
      → Holds a held
      → Holds b (ss ++ ts)
      → (c : DynamicAos) × (push_all alloc b (addresses (b.base + length (pack ss)) ts) (done a)
          ≡ some (done c))
        × Holds c (held ++ ts)
  unfolding push_all addresses
  push_all-Holds a held ss [] ha hb = (a, refl, rw append-nil ha)
  push_all-Holds a held ss (t ∷ ts) ha hb =
      let clean = (All-back _ ss (t ∷ ts) hb.clean).0 in
      let (a', pushed, ha') = push-Holds alloc a held t grants ha clean in
      let (c, run, hc) =
        push_all-Holds a' (held ++ t ∷ []) (ss ++ t ∷ []) ts ha' (rw append_assoc hb) in
      (
        c,
        rw (read_string-Holds b ss t ts hb clean, pushed, step_address b.base ss t) run,
        rw append_assoc at hc,
      )

-- While memory lasts, appending an array to another, both not empty and with different blocks, returns
-- ERR_OK and leaves the first with its strings and then those of the second.
pub append-Holds :
    (alloc : Allocator) (a b : DynamicAos) (s : Str) (ss : List Str) (t : Str) (ts : List Str)
    → Grants alloc
    → a.base ≢ b.base
    → Holds a (s ∷ ss)
    → Holds b (t ∷ ts)
    → (c : DynamicAos) × (aos_append_strings alloc a b ≡ some (ok, done c))
      × Holds c (s ∷ ss ++ t ∷ ts)
unfolding aos_append_strings
append-Holds alloc a b s ss t ts grants apart ha hb =
    let base : b.base + length (pack []) ≡ b.base = unfold pack in add-zero b.base in
    let (c, run, hc) = push_all-Holds alloc grants b a (s ∷ ss) [] (t ∷ ts) ha hb in
    let run' = rw base at run in
    let run'' : push_all alloc b b.strings (done a) ≡ some (done c) =
      ap (λ ps. push_all alloc b ps (done a)) hb.pointed ∙ run' in
    let test : (length a.strings == 0 || length b.strings == 0) ≡ false =
      ground (arith, length-strings a (s ∷ ss) ha, length-strings b (t ∷ ts) hb) in
    (c, rw (test, run''), hc)
