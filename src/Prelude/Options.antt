-- ===== src/Prelude/Options.antt =====
-- What holds of a value, if there is one.
use mathlib.Core.Path.{◌≡◌, subst}
use mathlib.Core.Option.{Option, none, some}
use prongc.Prelude.Tests.{◌>>=◌}

abbrev pub Holds : {A : Type 0} → (A → Type 0) → Option A → Type 0
Holds P none = Unit
Holds P (some a) = P a

pub of_Holds : {A : Type 0} (P : A → Type 0) (o : Option A) (a : A) → Holds P o → o ≡ some a → P a
of_Holds P o a h e = subst (Holds P) e h

pub bind-Holds :
    {A B : Type 0} (Q : A → Type 0) (P : B → Type 0) (o : Option A) (k : A → Option B)
    → Holds Q o
    → ((a : A) → Q a → Holds P (k a))
    → Holds P (o >>= k)
bind-Holds Q P none k h f = tt
bind-Holds Q P (some a) k h f = f a h

-- where nothing is known of the first value
pub then-Holds :
    {A B : Type 0} (P : B → Type 0) (o : Option A) (k : A → Option B)
    → ((a : A) → Holds P (k a))
    → Holds P (o >>= k)
then-Holds P none k f = tt
then-Holds P (some a) k f = f a

pub Holds-mono :
    {A : Type 0} (Q P : A → Type 0) (o : Option A) → Holds Q o → ((a : A) → Q a → P a) → Holds P o
Holds-mono Q P none h f = tt
Holds-mono Q P (some a) h f = f a h
