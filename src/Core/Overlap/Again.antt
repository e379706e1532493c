-- ===== src/Core/Overlap/Again.antt =====
-- `main` calls `find_va_overlap` on each pair of functions in both orders.
use prongc.Prelude.{
  ℕ, ◌+◌, ◌≡◌, refl, sym, ap, ◌∙◌, false, Option, none, some, none_ne_some, List, [], ◌∷◌, All,
  arith, Str, str_eq_sym,
}
use prongc.VarAccess.{VarAccess, equal_var_accesses, strcmp_eq}
use prongc.Core.Overlap.{
  Heading, variable_overlap, overlaps, Scan, scan_row, scan_all, find_va_overlap,
}
use prongc.Core.Overlap.Sound.{Named}
use prongc.Core.Overlap.Inner.{Clear}
use prongc.Core.Overlap.Outer.{ClearAll, scan_all-Done}

abbrev pub always : ℕ → ℕ → Option (Option Heading)
always i j = some (some variable_overlap)

strcmp_sym : (a b : Option Str) → strcmp_eq a b ≡ strcmp_eq b a
unfolding strcmp_eq
strcmp_sym none none = refl
strcmp_sym none (some t) = refl
strcmp_sym (some s) none = refl
strcmp_sym (some s) (some t) = ap some (str_eq_sym s t)

overlaps_sym : (va vb : VarAccess) → overlaps va vb ≡ overlaps vb va
unfolding overlaps equal_var_accesses
overlaps_sym va vb = ground (arith, strcmp_sym va.usr vb.usr)

-- no access of the second list overlaps `va`
abbrev pub Apart : VarAccess → List VarAccess → Type 0
Apart va = All (λ vb. overlaps va vb ≡ some false)

Clear-Apart :
    (i j : ℕ) (va : VarAccess) (vbs : List VarAccess) → Clear always i j va vbs → Apart va vbs
Clear-Apart i j va [] c = tt
Clear-Apart i j va (vb ∷ vbs) c = (ground arith, Clear-Apart i (j + 1) va vbs c.1)

pub ClearAll-Apart :
    (i : ℕ) (vas vbs : List VarAccess) → ClearAll always i vas vbs → All (λ va. Apart va vbs) vas
ClearAll-Apart i [] vbs c = tt
ClearAll-Apart i (va ∷ vas) vbs c = (Clear-Apart i 0 va vbs c.0, ClearAll-Apart (i + 1) vas vbs c.1)

heads :
    (vas : List VarAccess) (vb : VarAccess) (vbs : List VarAccess)
    → All (λ va. Apart va (vb ∷ vbs)) vas
    → Apart vb vas × All (λ va. Apart va vbs) vas
heads [] vb vbs h = (tt, tt)
heads (va ∷ vas) vb vbs ((h, t), hs) =
    let (c, r) = heads vas vb vbs hs in ((overlaps_sym vb va ∙ h, c), (t, r))

transposed :
    (vas vbs : List VarAccess) → All (λ va. Apart va vbs) vas → All (λ vb. Apart vb vas) vbs
transposed vas [] h = tt
transposed vas (vb ∷ vbs) h = let (c, r) = heads vas vb vbs h in (c, transposed vas vbs r)

scan_row-Apart :
    (i j : ℕ) (va : VarAccess) (vbs : List VarAccess)
    → Apart va vbs
    → scan_row always i j va vbs ≡ some (record { va_i = va; vas_b = vbs; found = [] })
unfolding scan_row
scan_row-Apart i j va [] h = refl
scan_row-Apart i j va (vb ∷ vbs) h = rw (h.0, scan_row) (rw (scan_row-Apart i (j + 1) va vbs h.1))

scan_all-Apart :
    (i : ℕ) (vas vbs : List VarAccess)
    → All (λ va. Apart va vbs) vas
    → scan_all always i vas vbs ≡ some (record { vas_a = vas; vas_b = vbs; found = [] })
unfolding scan_all
scan_all-Apart i [] vbs h = refl
scan_all-Apart i (va ∷ vas) vbs h =
    rw (scan_row-Apart i 0 va vbs h.0, scan_all-Apart (i + 1) vas vbs h.1)

-- On footprints of placeholders and accesses with a USR, `find_va_overlap` returns, and a second run
-- with the two functions in the other order reports nothing and changes nothing: each overlap is
-- printed once.
pub overlap-again :
    (vas vbs : List VarAccess)
    → All Named vas
    → All Named vbs
    → (s : Scan) × (find_va_overlap vas vbs ≡ some s)
      × (find_va_overlap s.vas_b s.vas_a
          ≡ some (record { vas_a = s.vas_b; vas_b = s.vas_a; found = [] }))
unfolding find_va_overlap
overlap-again vas vbs ha hb =
    let (s, run, d) = scan_all-Done always (λ i j e. none_ne_some (sym e)) 0 vas vbs ha hb in
    let apart = transposed s.vas_a s.vas_b (ClearAll-Apart 0 s.vas_a s.vas_b d.clear) in
    (s, run, scan_all-Apart 0 s.vas_b s.vas_a apart)
