-- ===== src/Dispatcher/Emptied.antt =====
-- Instructions of which some are replaced by `EMPTY` at the same address.
use mathlib.Core.Option.{some-injective}
use smart_executor.Prelude.{
  ℕ, zero, suc, ◌≡◌, refl, ap, ◌⊎◌, inl, inr, some, List, [], ◌∷◌, ◌++◌, map, codes, length,
  get_elem?, nat_eq, list_eq, subst,
}
use smart_executor.Dispatcher.{Instruction}
use smart_executor.Dispatcher.Modify.{empty_instruction, empty_at}

-- The instructions that are replaced have the property `P`.
pub data Emptied (P : Instruction → Type 0) : List Instruction → List Instruction → Type 0 where
  none_left : Emptied P [] []
  keeps :
      (i : Instruction) {xs ys : List Instruction} → Emptied P xs ys → Emptied P (i ∷ xs) (i ∷ ys)
  empties :
      (i : Instruction) {xs ys : List Instruction}
      → P i
      → Emptied P xs ys
      → Emptied P (i ∷ xs) (empty_instruction i ∷ ys)

abbrev pub IsAny : Instruction → Type 0
IsAny i = Unit

abbrev pub IsDup1 : Instruction → Type 0
IsDup1 i = i.opcode ≡ codes "DUP1"

module _ {P : Instruction → Type 0} where
  pub Emptied-refl : (xs : List Instruction) → Emptied P xs xs
  Emptied-refl [] = none_left
  Emptied-refl (x ∷ xs) = keeps x (Emptied-refl xs)

  pub Emptied-append :
      {xs ys us vs : List Instruction}
      → Emptied P xs ys
      → Emptied P us vs
      → Emptied P (xs ++ us) (ys ++ vs)
  Emptied-append none_left h = h
  Emptied-append (keeps i e) h = keeps i (Emptied-append e h)
  Emptied-append (empties i p e) h = empties i p (Emptied-append e h)

  pub Emptied-length : {xs ys : List Instruction} → Emptied P xs ys → length ys ≡ length xs
  Emptied-length none_left = refl
  Emptied-length (keeps i e) = ap suc (Emptied-length e)
  Emptied-length (empties i p e) = ap suc (Emptied-length e)

  pub Emptied-address :
      {xs ys : List Instruction}
      → Emptied P xs ys
      → map (λ i. i.address) ys ≡ map (λ i. i.address) xs
  unfolding empty_instruction
  Emptied-address none_left = refl
  Emptied-address (keeps i e) = ap (◌∷◌ i.address) (Emptied-address e)
  Emptied-address (empties i p e) = ap (◌∷◌ i.address) (Emptied-address e)

  -- The instruction at an index, afterwards.
  pub Emptied-at :
      {xs ys : List Instruction} (n : ℕ) (i : Instruction)
      → Emptied P xs ys
      → get_elem? xs n ≡ some i
      → (get_elem? ys n ≡ some i) ⊎ (P i × (get_elem? ys n ≡ some (empty_instruction i)))
  Emptied-at n i none_left h = cc
  Emptied-at zero i (keeps j e) h = inl h
  Emptied-at zero i (empties j p e) h =
      let same = some-injective j i h in
      inr (subst P same p, ap (λ k. some (empty_instruction k)) same)
  Emptied-at (suc n) i (keeps j e) h = Emptied-at n i e h
  Emptied-at (suc n) i (empties j p e) h = Emptied-at n i e h

  pub empty_at-Emptied :
      (n : ℕ) (xs : List Instruction)
      → ((i : Instruction) → get_elem? xs n ≡ some i → P i)
      → Emptied P xs (empty_at n xs)
  unfolding empty_at
  empty_at-Emptied n [] h = none_left
  empty_at-Emptied zero (i ∷ is) h = empties i (h i refl) (Emptied-refl is)
  empty_at-Emptied (suc n) (i ∷ is) h = keeps i (empty_at-Emptied n is h)

pub Emptied-trans :
    {P : Instruction → Type 0} {xs ys zs : List Instruction}
    → ((i : Instruction) → P (empty_instruction i) → P i)
    → Emptied P xs ys
    → Emptied P ys zs
    → Emptied P xs zs
unfolding empty_instruction
Emptied-trans f none_left none_left = none_left
Emptied-trans f (keeps i d) (keeps j e) = keeps i (Emptied-trans f d e)
Emptied-trans f (keeps i d) (empties j q e) = empties i q (Emptied-trans f d e)
Emptied-trans f (empties i p d) (keeps j e) = empties i p (Emptied-trans f d e)
Emptied-trans f (empties i p d) (empties j q e) = empties i p (Emptied-trans f d e)

pub Emptied-weaken :
    {P Q : Instruction → Type 0} {xs ys : List Instruction}
    → ((i : Instruction) → P i → Q i)
    → Emptied P xs ys
    → Emptied Q xs ys
Emptied-weaken f none_left = none_left
Emptied-weaken f (keeps i e) = keeps i (Emptied-weaken f e)
Emptied-weaken f (empties i p e) = empties i (f i p) (Emptied-weaken f e)

pub map-Emptied : (xs : List Instruction) → Emptied IsAny xs (map empty_instruction xs)
map-Emptied [] = none_left
map-Emptied (x ∷ xs) = empties x tt (map-Emptied xs)
