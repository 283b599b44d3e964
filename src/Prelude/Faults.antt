-- ===== src/Prelude/Faults.antt =====
-- Code that may fault: `none` is behaviour that C leaves undefined, such as a read outside an array.
use mathlib.Core.Option.{Option, none, some}
use mathlib.Core.Path.{◌≡◌, refl}

infixl 5 ◌>>=◌
abbrev pub ◌>>=◌ {ℓ κ} : {A : Type ℓ} {B : Type κ} → Option A → (A → Option B) → Option B
none >>= k = none
some a >>= k = k a

-- The result is there, and `P` holds of it.
unfoldable pub Gives {ℓ} : {A : Type ℓ} → (A → Type ℓ) → Option A → Type ℓ
Gives {A} P o = (a : A) × (o ≡ some a) × P a

pub some-Gives {ℓ} : {A : Type ℓ} (P : A → Type ℓ) (a : A) → P a → Gives P (some a)
unfolding Gives
some-Gives P a h = (a, refl, h)

pub bind-Gives {ℓ} :
    {A B : Type ℓ} (P : A → Type ℓ) (Q : B → Type ℓ) (o : Option A) (f : A → Option B)
    → Gives P o
    → ((a : A) → P a → Gives Q (f a))
    → Gives Q (o >>= f)
unfolding Gives
bind-Gives P Q o f (a, e, h) k = rw e (k a h)
