-- ===== src/Prelude/Options.antt =====
-- Results that an operation may fail to have, and their chaining.
use mathlib.Core.Bool.{Bool, true, false}
use mathlib.Core.Path.{◌≡◌, refl, subst}
use smart_executor.Prelude.Tests.{if◌then◌else◌, is_some}
use mathlib.Core.Option.{Option, none, some}
use mathlib.Core.List.{List, ◌∷◌}

infixl 20 ◌>>=◌
abbrev pub ◌>>=◌ {ℓ κ} : {A : Type ℓ} {B : Type κ} → Option A → (A → Option B) → Option B
none >>= f = none
some a >>= f = f a

-- What is made of a value, or of none.
abbrev pub maybe {ℓ κ} : {A : Type ℓ} {B : Type κ} → Option A → B → (A → B) → B
maybe none b f = b
maybe (some a) b f = f a

-- The value goes in front of a result.
abbrev pub prepend {ℓ} : {A : Type ℓ} → A → Option (List A) → Option (List A)
prepend a rest = rest >>= λ xs. some (a ∷ xs)

-- A chain has a result only where its first step has one.
pub bind_some {ℓ κ} :
    {A : Type ℓ} {B : Type κ} (o : Option A) (f : A → Option B) (b : B)
    → (o >>= f) ≡ some b
    → (a : A) × (o ≡ some a) × (f a ≡ some b)
bind_some none f b h = cc
bind_some (some a) f b h = (a, refl, h)

-- What holds of the result, where there is one.
abbrev pub Gives {ℓ κ} : {A : Type ℓ} → (A → Type κ) → Option A → Type κ
Gives P none = Unit
Gives P (some a) = P a

module _ {ℓ κ} {A : Type ℓ} (P : A → Type κ) where
  pub Gives-elim : (o : Option A) {a : A} → Gives P o → o ≡ some a → P a
  Gives-elim o h e = subst (Gives P) e h

  pub Gives->>= {μ} :
      {B : Type μ} (o : Option B) (f : B → Option A)
      → ((b : B) → o ≡ some b → Gives P (f b))
      → Gives P (o >>= f)
  Gives->>= none f h = tt
  Gives->>= (some b) f h = h b refl

-- A property weakens.
pub Gives-map {ℓ κ μ} :
    {A : Type ℓ} (P : A → Type κ) (Q : A → Type μ) (o : Option A)
    → ((a : A) → P a → Q a)
    → Gives P o
    → Gives Q o
Gives-map P Q none f h = tt
Gives-map P Q (some a) f h = f a h

-- A conditional has what both of its branches have.
pub if-intro {ℓ κ} :
    {A : Type ℓ} (P : A → Type κ) (b : Bool) {x y : A}
    → (b ≡ true → P x)
    → (b ≡ false → P y)
    → P (if b then x else y)
if-intro P true hx hy = hx refl
if-intro P false hx hy = hy refl

-- What is made of a result and of none has what both have.
pub maybe-intro {ℓ κ μ} :
    {A : Type ℓ} {B : Type κ} (P : B → Type μ) (o : Option A) {b : B} {f : A → B}
    → P b
    → ((a : A) → P (f a))
    → P (maybe o b f)
maybe-intro P none hb hf = hb
maybe-intro P (some a) hb hf = hf a

pub is_some-elim {ℓ} : {A : Type ℓ} (o : Option A) → is_some o ≡ true → (a : A) × (o ≡ some a)
is_some-elim none h = cc
is_some-elim (some a) h = (a, refl)
