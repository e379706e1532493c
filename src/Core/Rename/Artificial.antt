-- ===== src/Core/Rename/Artificial.antt =====
-- The identities given to the arguments of a parsed call.
use prongc.Prelude.{
  ℕ, zero, suc, ◌+◌, ◌/◌, ◌≤◌, ◌<◌, ◌≡◌, ◌≢◌, refl, sym, ap, ◌∙◌, true, Bool-cases, inl, inr, drop,
  some, some_inj, List, [], ◌∷◌, ◌++◌, length, length-append, take, append-nil, All, All-append,
  Str, codes, ltb, arith,
}
use prongc.Core.Rename.{digits, usr_hash, field_access, print_usr, generate_artificial_param_usr}

take-all : {A : Type 0} (n : ℕ) (xs : List A) → length xs ≤ n → take n xs ≡ xs
take-all zero [] h = refl
take-all zero (x ∷ xs) h = absurd (omega arith)
take-all (suc n) [] h = refl
take-all (suc n) (x ∷ xs) h = ap (◌∷◌ x) (take-all n xs (omega arith))

abbrev Digits : Str → Type 0
Digits = All (λ c. c ≢ 58)

digits-Digits : (k n : ℕ) → Digits (digits k n)
unfolding digits
digits-Digits zero n = ((λ e. absurd (ground arith)), tt)
digits-Digits (suc k) n = elim (Bool-cases (ltb n 10)) [
  | inl h ↦ rw (h) ((λ e. absurd (ground arith)), tt)
  | inr h ↦ rw (h) (
      All-append (λ c. c ≢ 58) (digits k (n / 10)) _ (digits-Digits k (n / 10))
        ((λ e. absurd (ground arith)), tt))
]

length-digits : (k n : ℕ) → length (digits k n) ≤ k + 1
unfolding digits
length-digits zero n = omega arith
length-digits (suc k) n = elim (Bool-cases (ltb n 10)) [
  | inl h ↦ rw (h) (omega arith)
  | inr h ↦ rw (h, length-append) (omega (arith, length-digits k (n / 10)))
]

-- what stands behind the first colon
behind_colon : (a b x y : Str) → Digits a → Digits b → a ++ 58 ∷ x ≡ b ++ 58 ∷ y → x ≡ y
behind_colon [] [] x y ha hb e = cc
behind_colon [] (d ∷ ds) x y ha hb e = absurd (hb.0 cc)
behind_colon (c ∷ cs) [] x y ha hb e = absurd (ha.0 cc)
behind_colon (c ∷ cs) (d ∷ ds) x y ha hb e = behind_colon cs ds x y ha.1 hb.1 cc

length_parts :
    (a b name : Str)
    → length a ≤ 10
    → length b ≤ 20
    → length (codes "p:" ++ (a ++ b':' ∷ (b ++ b':' ∷ (name ++ [])))) ≤ 63 + length name
length_parts a b name ha hb = omega (
  arith,
  length-append a (b':' ∷ (b ++ b':' ∷ (name ++ []))),
  length-append b (b':' ∷ (name ++ [])),
  length-append name [],
)

parts-inj :
    (a b c d m n : Str)
    → Digits a
    → Digits b
    → Digits c
    → Digits d
    → codes "p:" ++ (a ++ b':' ∷ (c ++ b':' ∷ (m ++ [])))
      ≡ codes "p:" ++ (b ++ b':' ∷ (d ++ b':' ∷ (n ++ [])))
    → m ≡ n
parts-inj a b c d m n ha hb hc hd e =
    let e1 = behind_colon a b _ _ ha hb (ap (drop 2) e) in
    let e2 = behind_colon c d _ _ hc hd e1 in sym (append-nil m) ∙ e2 ∙ append-nil n

length-print_usr : (name : Str) → length (print_usr name []) ≤ 63 + length name
unfolding print_usr
length-print_usr name =
    length_parts (digits 9 (usr_hash 5381 name)) (digits 19 (length name)) name
      (length-digits 9 (usr_hash 5381 name)) (length-digits 19 (length name))

print_usr-inj : (m n : Str) → print_usr m [] ≡ print_usr n [] → m ≡ n
unfolding print_usr
print_usr-inj m n e =
    parts-inj (digits 9 (usr_hash 5381 m)) (digits 9 (usr_hash 5381 n)) (digits 19 (length m))
      (digits 19 (length n)) m n (digits-Digits 9 _) (digits-Digits 9 _) (digits-Digits 19 _)
      (digits-Digits 19 _) e

generate_short :
    (m u : Str)
    → 0 < length m
    → field_access u ≡ []
    → generate_artificial_param_usr true (some m) u ≡ some (print_usr m [])
unfolding generate_artificial_param_usr
generate_short m u h e =
    let some_name : ltb 0 (length m) ≡ true = ground arith in
    rw (some_name, e, take-all (63 + length m) (print_usr m []) (length-print_usr m)) refl

-- Two arguments of a parsed call get the same identity only if they are spelled the same: for the
-- USRs of the parameters themselves, which have no "::" for a field behind them, arguments that are
-- not empty, and memory found by `malloc`, the 64 bytes of the buffer are enough, and the name can be
-- read back.
pub generate-inj :
    (m n u v : Str)
    → 0 < length m
    → 0 < length n
    → field_access u ≡ []
    → field_access v ≡ []
    → generate_artificial_param_usr true (some m) u ≡ generate_artificial_param_usr true (some n) v
    → m ≡ n
generate-inj m n u v hm hn eu ev e =
    print_usr-inj m n (some_inj (sym (generate_short m u hm eu) ∙ e ∙ generate_short n v hn ev))
