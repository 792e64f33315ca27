-- ===== src/Prelude/Equality.antt =====
-- Python's `==` and `in` on the program's values, by an interface of decided equality.
use Prim.Native.Nat.{ℕ}
use mathlib.Core.Path.{◌≡◌, refl, ap, subst}
use mathlib.Core.Option.{Option, none, some, some-injective}
use smart_executor.Prelude.Lists.{All}
use mathlib.Core.Logic.{◌↔◌, inl, inr}
use mathlib.Core.Bool.{Bool, true, false, ◌&&◌, ◌||◌}
use mathlib.Core.List.{List, [], ◌∷◌, ◌++◌}
use native.Mathlib.Omega.{arith}
use smart_executor.Prelude.Tests.{if◌then◌else◌, Bool-cases, ==_iff, ◌==◌ as nat_beq}

pub record Comparable {ℓ} (A : Type ℓ) : Type ℓ where
  pub same : A → A → Bool
  pub same_iff : (a b : A) → (same a b ≡ true) ↔ (a ≡ b)

infix 50 ◌==◌
abbrev pub ◌==◌ {ℓ} : {A : Type ℓ} ⦃e : Comparable A⦄ → A → A → Bool
◌==◌ ⦃e⦄ = e.same

instance abbrev pub nat_eq : Comparable ℕ
nat_eq = record { same = nat_beq; same_iff = ==_iff }

module _ {ℓ} {A : Type ℓ} ⦃e : Comparable A⦄ where
  unfoldable pub list_beq : List A → List A → Bool
  list_beq [] [] = true
  list_beq [] (y ∷ ys) = false
  list_beq (x ∷ xs) [] = false
  list_beq (x ∷ xs) (y ∷ ys) = x == y && list_beq xs ys

  pub list_beq_iff : (xs ys : List A) → (list_beq xs ys ≡ true) ↔ (xs ≡ ys)
  unfolding list_beq
  list_beq_iff [] [] = (λ _. refl, λ _. refl)
  list_beq_iff [] (y ∷ ys) = (λ h. cc, λ h. cc)
  list_beq_iff (x ∷ xs) [] = (λ h. cc, λ h. cc)
  list_beq_iff (x ∷ xs) (y ∷ ys) = (
    λ h. ground (arith, e.same_iff x y, list_beq_iff xs ys),
    λ h. ground (arith, e.same_iff x y, list_beq_iff xs ys),
  )

  pub eq_refl : (a : A) → a == a ≡ true
  eq_refl a = (e.same_iff a a).1 refl

instance abbrev pub list_eq {ℓ} : {A : Type ℓ} ⦃e : Comparable A⦄ → Comparable (List A)
list_eq = record { same = list_beq; same_iff = list_beq_iff }

module _ {A : Type 0} ⦃e : Comparable A⦄ where
  unfoldable pub option_beq : Option A → Option A → Bool
  option_beq none none = true
  option_beq none (some b) = false
  option_beq (some a) none = false
  option_beq (some a) (some b) = a == b

  pub option_beq_iff : (a b : Option A) → (option_beq a b ≡ true) ↔ (a ≡ b)
  unfolding option_beq
  option_beq_iff none none = (λ _. refl, λ _. refl)
  option_beq_iff none (some b) = (λ h. cc, λ h. cc)
  option_beq_iff (some a) none = (λ h. cc, λ h. cc)
  option_beq_iff (some a) (some b) =
      (λ h. ap some ((e.same_iff a b).0 h), λ h. (e.same_iff a b).1 (some-injective a b h))

-- `None` is equal to nothing else.
instance abbrev pub option_eq : {A : Type 0} ⦃e : Comparable A⦄ → Comparable (Option A)
option_eq ⦃e⦄ = record { same = option_beq; same_iff = option_beq_iff }

module _ {ℓ} {A : Type ℓ} where
  -- `[x for x in xs if p x]`
  unfoldable pub filter_by : (A → Bool) → List A → List A
  filter_by p [] = []
  filter_by p (x ∷ xs) = let rest = filter_by p xs in if p x then x ∷ rest else rest

module _ {ℓ} {A : Type ℓ} ⦃e : Comparable A⦄ where
  -- `a in xs`
  unfoldable pub contains : List A → A → Bool
  contains [] a = false
  contains (x ∷ xs) a = x == a || contains xs a

  pub contains-append :
      (xs ys : List A) (a : A) → contains (xs ++ ys) a ≡ contains xs a || contains ys a
  unfolding contains
  contains-append [] ys a = refl
  contains-append (x ∷ xs) ys a = ground (arith, contains-append xs ys a)

  pub contains-filter_by :
      (p : A → Bool) (xs : List A) (a : A) → contains (filter_by p xs) a ≡ p a && contains xs a
  unfolding contains filter_by
  contains-filter_by p [] a = ground arith
  contains-filter_by p (x ∷ xs) a = elim (Bool-cases (p x)) [
    | inl h ↦ ground (arith, contains-filter_by p xs a, e.same_iff x a)
    | inr h ↦ ground (arith, contains-filter_by p xs a, e.same_iff x a)
  ]

  pub All-of_contains {κ} :
      (P : A → Type κ) (xs : List A) (a : A) → All P xs → contains xs a ≡ true → P a
  unfolding contains
  All-of_contains P [] a h m = absurd (ground arith)
  All-of_contains P (x ∷ xs) a h m = elim (Bool-cases (x == a)) [
    | inl same ↦ subst P ((e.same_iff x a).0 same) h.0
    | inr other ↦ All-of_contains P xs a h.1 (ground arith)
  ]

  pub All-intro {κ} :
      (P : A → Type κ) (xs : List A) → ((a : A) → contains xs a ≡ true → P a) → All P xs
  unfolding contains
  All-intro P [] f = tt
  All-intro P (x ∷ xs) f = (f x (rw eq_refl), All-intro P xs (λ a m. f a (ground arith)))

  abbrev pub Nodup : List A → Type 0
  Nodup [] = Unit
  Nodup (x ∷ xs) = (contains xs x ≡ false) × Nodup xs

  -- `list(set(xs))`, in the order of first occurrence from the right.
  unfoldable pub dedup : List A → List A
  unfolding contains
  dedup [] = []
  dedup (x ∷ xs) = let rest = dedup xs in if contains rest x then rest else x ∷ rest

  pub contains-dedup : (xs : List A) (a : A) → contains (dedup xs) a ≡ contains xs a
  unfolding contains dedup
  contains-dedup [] a = refl
  contains-dedup (x ∷ xs) a =
      ground (arith, contains-dedup xs a, contains-dedup xs x, e.same_iff x a)

  pub Nodup-snoc : (xs : List A) (a : A) → Nodup xs → contains xs a ≡ false → Nodup (xs ++ a ∷ [])
  unfolding contains
  Nodup-snoc [] a h new = (refl, tt)
  Nodup-snoc (x ∷ xs) a h new = (
    rw contains-append (ground (arith, e.same_iff x a, e.same_iff a x)),
    Nodup-snoc xs a h.1 (ground arith),
  )

  pub dedup-Nodup : (xs : List A) → Nodup (dedup xs)
  unfolding dedup
  dedup-Nodup [] = tt
  dedup-Nodup (x ∷ xs) = elim (Bool-cases (contains (dedup xs) x)) [
    | inl old ↦ rw old (dedup-Nodup xs)
    | inr new ↦ rw new (new, dedup-Nodup xs)
  ]
