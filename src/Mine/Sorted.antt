-- ===== src/Mine/Sorted.antt =====
-- Sorting keeps the elements.
use smart_executor.Prelude.{
  Comparable, ◌==◌, contains, ℕ, suc, ◌≤◌, ◌≡◌, refl, ap, ◌∙◌, inl, inr, ◌||◌, List, ◌∷◌, arith,
  leb, leb→le, Bool-cases, length, All, All-map, nat_eq, list_eq, [],
}
use smart_executor.Mine.{sort_desc, insert_desc}

module _ {A : Type 0} ⦃e : Comparable A⦄ (key : A → ℕ) where
  contains-insert_desc :
      (x : A) (xs : List A) (a : A) → contains (insert_desc key x xs) a ≡ x == a || contains xs a
  unfolding insert_desc contains
  contains-insert_desc x [] a = refl
  contains-insert_desc x (y ∷ ys) a = ground (arith, contains-insert_desc x ys a)

  pub contains-sort_desc : (xs : List A) (a : A) → contains (sort_desc key xs) a ≡ contains xs a
  unfolding sort_desc contains
  contains-sort_desc [] a = refl
  contains-sort_desc (x ∷ xs) a =
      contains-insert_desc x (sort_desc key xs) a ∙ ground (arith, contains-sort_desc xs a)

-- Every element holds what the list's elements hold.
module _ {A : Type 0} (P : A → Type 0) (key : A → ℕ) where
  All-insert_desc : (x : A) (xs : List A) → P x → All P xs → All P (insert_desc key x xs)
  unfolding insert_desc
  All-insert_desc x [] p ps = (p, tt)
  All-insert_desc x (y ∷ ys) p ps = elim (Bool-cases (leb (key y) (key x))) [
    | inl here ↦ rw here (p, ps)
    | inr later ↦ rw later (ps.0, All-insert_desc x ys p ps.1)
  ]

  pub All-sort_desc : (xs : List A) → All P xs → All P (sort_desc key xs)
  unfolding sort_desc
  All-sort_desc [] ps = tt
  All-sort_desc (x ∷ xs) ps = All-insert_desc x (sort_desc key xs) ps.0 (All-sort_desc xs ps.1)

module _ {A : Type 0} (key : A → ℕ) where
  length-insert_desc : (x : A) (xs : List A) → length (insert_desc key x xs) ≡ suc (length xs)
  unfolding insert_desc
  length-insert_desc x [] = refl
  length-insert_desc x (y ∷ ys) = ground (arith, length-insert_desc x ys)

  pub length-sort_desc : (xs : List A) → length (sort_desc key xs) ≡ length xs
  unfolding sort_desc
  length-sort_desc [] = refl
  length-sort_desc (x ∷ xs) = length-insert_desc x (sort_desc key xs) ∙ ap suc (length-sort_desc xs)

  -- No element has a larger key than the first one.
  unfoldable pub IsFirst : List A → Type 0
  IsFirst [] = Unit
  IsFirst (x ∷ xs) = All (λ y. key y ≤ key x) xs

  All-larger : (n m : ℕ) (xs : List A) → n ≤ m → All (λ y. key y ≤ n) xs → All (λ y. key y ≤ m) xs
  All-larger n m xs h ps = All-map (λ y. key y ≤ n) xs (λ y p. omega arith) ps

  insert_desc-IsFirst : (x : A) (xs : List A) → IsFirst xs → IsFirst (insert_desc key x xs)
  unfolding insert_desc IsFirst
  insert_desc-IsFirst x [] h = tt
  insert_desc-IsFirst x (y ∷ ys) h = elim (Bool-cases (leb (key y) (key x))) [
    | inl here ↦
        let small : key y ≤ key x = leb→le (key y) (key x) here in
        rw here (small, All-larger (key y) (key x) ys small h)
    | inr later ↦
        let small : key x ≤ key y = ground arith in
        rw later (All-insert_desc (λ z. key z ≤ key y) key x ys small h)
  ]

  pub sort_desc-IsFirst : (xs : List A) → IsFirst (sort_desc key xs)
  unfolding sort_desc IsFirst
  sort_desc-IsFirst [] = tt
  sort_desc-IsFirst (x ∷ xs) = insert_desc-IsFirst x (sort_desc key xs) (sort_desc-IsFirst xs)
