-- ===== src/Walk/Post.antt =====
-- What holds of a call's result, if there is one.
use prongc.Prelude.{◌≡◌, ◌⊎◌, inl, inr, refl, Bool, true, false, not, if◌then◌else◌}
use prongc.Clang.{Forest, leaf, node}
use prongc.Walk.{
  Run, done, fault, out_of_fuel, and_then, or_fault, ChildVisit, continue_visit, recurse,
  visit_children,
}
use prongc.Prelude.{Option, none, some}

-- `Q` holds of the result, and `O` if the fuel ran out.
abbrev pub Post : {A : Type 0} → (A → Type 0) → Type 0 → Run A → Type 0
Post Q O (done a) = Q a
Post Q O fault = Unit
Post Q O out_of_fuel = O

pub and_then-Post :
    {A B : Type 0} (P : A → Type 0) (Q : B → Type 0) (O : Type 0) (r : Run A) (k : A → Run B)
    → Post P O r
    → ((a : A) → P a → Post Q O (k a))
    → Post Q O (and_then r k)
and_then-Post P Q O (done a) k h f = f a h
and_then-Post P Q O fault k h f = tt
and_then-Post P Q O out_of_fuel k h f = h

pub or_fault-Post :
    {A : Type 0} (P : A → Type 0) (O : Type 0) (o : Option A)
    → ((a : A) → o ≡ some a → P a)
    → Post P O (or_fault o)
or_fault-Post P O none h = tt
or_fault-Post P O (some a) h = h a refl

-- What every call of the visitor keeps, the whole visit keeps.
module _ {C S : Type 0} (visitor : C → C → S → Run (ChildVisit × S)) (Q : S → Type 0)
    (O : Type 0) where
  asked-Post :
      (v : ChildVisit) (t : S) (deeper : S → Run S)
      → (Q t → Post Q O (deeper t))
      → Q t
      → Post Q O (elim v [ continue_visit ↦ done t | recurse ↦ deeper t ])
  asked-Post continue_visit t deeper h q = q
  asked-Post recurse t deeper h q = h q

  pub visit_children-Post :
      ((c p : C) (s : S) → Q s → Post (λ r. Q r.1) O (visitor c p s))
      → (p : C) (cs : Forest C) (s : S) → Q s
      → Post Q O (visit_children visitor p cs s)
  unfolding visit_children
  visit_children-Post keeps p leaf s h = h
  visit_children-Post keeps p (node c below rest) s h =
      and_then-Post (λ r. Q r.1) Q O (visitor c p s) _ (keeps c p s h)
        (λ r q.
          and_then-Post Q Q O _ _
            (asked-Post r.0 r.1 (visit_children visitor c below)
              (visit_children-Post keeps c below r.1) q)
            (visit_children-Post keeps p rest))

pub Post-mono :
    {A : Type 0} (P Q : A → Type 0) (O : Type 0) (r : Run A)
    → ((a : A) → P a → Q a)
    → Post P O r
    → Post Q O r
Post-mono P Q O (done a) f h = f a h
Post-mono P Q O fault f h = tt
Post-mono P Q O out_of_fuel f h = h

pub returns-Post :
    {A : Type 0} (Q : A → Type 0) (r : Run A) → Post Q ⊥ r → (r ≡ fault) ⊎ ((a : A) × (r ≡ done a))
returns-Post Q (done a) h = inr (a, refl)
returns-Post Q fault h = inl refl
returns-Post Q out_of_fuel h = absurd h

pub returns-with-Post :
    {A : Type 0} (Q : A → Type 0) (r : Run A)
    → Post Q ⊥ r
    → (r ≡ fault) ⊎ ((a : A) × (r ≡ done a) × Q a)
returns-with-Post Q (done a) h = inr (a, refl, h)
returns-with-Post Q fault h = inl refl
returns-with-Post Q out_of_fuel h = absurd h

-- where the first call returns, with what it returns
pub then-Post :
    {A B : Type 0} (Q : B → Type 0) (r : Run A) (k : A → Run B)
    → ((a : A) → r ≡ done a → Post Q Unit (k a))
    → Post Q Unit (and_then r k)
then-Post Q (done a) k f = f a refl
then-Post Q fault k f = tt
then-Post Q out_of_fuel k f = tt

pub if-Post :
    {A : Type 0} (Q : A → Type 0) (O : Type 0) (b : Bool) (x y : Run A)
    → (b ≡ true → Post Q O x)
    → (b ≡ false → Post Q O y)
    → Post Q O (if b then x else y)
if-Post Q O true x y f g = f refl
if-Post Q O false x y f g = g refl

pub unless-Post :
    {A : Type 0} (Q : A → Type 0) (O : Type 0) (b : Bool) (x y : Run A)
    → (b ≡ false → Post Q O x)
    → (b ≡ true → Post Q O y)
    → Post Q O (if not b then x else y)
unless-Post Q O true x y f g = g refl
unless-Post Q O false x y f g = f refl
