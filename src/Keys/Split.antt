-- ===== src/Keys/Split.antt =====
-- `str.split` at a single character, and `str.rindex`.
use smart_executor.Prelude.{
  ℕ, suc, ◌≡◌, refl, ap, List, [], ◌∷◌, ◌++◌, false, contains, arith, length, if◌then◌else◌, nat_eq,
  ◌==◌, Option, none, some, take, ◌<◌, true, list_eq,
}

put_front : ℕ → List (List ℕ) → List (List ℕ)
put_front c [] = (c ∷ []) ∷ []
put_front c (piece ∷ pieces) = (c ∷ piece) ∷ pieces

unfoldable pub split : ℕ → List ℕ → List (List ℕ)
unfolding put_front
split sep [] = [] ∷ []
split sep (c ∷ cs) = let rest = split sep cs in if c == sep then [] ∷ rest else put_front c rest

unfoldable pub rindex : ℕ → List ℕ → Option ℕ
rindex c [] = none
rindex c (x ∷ xs) = elim (rindex c xs) [
  | some i ↦ some (suc i)
  | none ↦ if x == c then some 0 else none
]

pub split-eq-singleton : (sep : ℕ) (cs : List ℕ) → contains cs sep ≡ false → split sep cs ≡ cs ∷ []
unfolding split contains
split-eq-singleton sep [] h = refl
split-eq-singleton sep (c ∷ cs) h = ground (arith, split-eq-singleton sep cs)

pub split-append :
    (sep : ℕ) (cs rest : List ℕ)
    → contains cs sep ≡ false
    → split sep (cs ++ (sep ∷ rest)) ≡ cs ∷ split sep rest
unfolding split contains
split-append sep [] rest h = ground arith
split-append sep (c ∷ cs) rest h = ground (arith, split-append sep cs rest)

rindex-eq-none : (c : ℕ) (xs : List ℕ) → contains xs c ≡ false → rindex c xs ≡ none
unfolding rindex contains
rindex-eq-none c [] h = refl
rindex-eq-none c (x ∷ xs) h = ground (arith, rindex-eq-none c xs)

pub rindex-append :
    (c : ℕ) (xs ys : List ℕ) → contains ys c ≡ false → rindex c (xs ++ (c ∷ ys)) ≡ some (length xs)
unfolding rindex
rindex-append c [] ys h = ground (arith, rindex-eq-none c ys)
rindex-append c (x ∷ xs) ys h = ground (arith, rindex-append c xs ys)

pub take-length : (xs ys : List ℕ) → take (length xs) (xs ++ ys) ≡ xs
take-length [] ys = refl
take-length (x ∷ xs) ys = ap (◌∷◌ x) (take-length xs ys)

pub length-split : (sep : ℕ) (cs : List ℕ) → 0 < length (split sep cs)
unfolding split put_front
length-split sep [] = omega arith
length-split sep (c ∷ cs) = ground (arith, length-split sep cs)

pub length-split_two : (sep : ℕ) (cs : List ℕ) → contains cs sep ≡ true → 1 < length (split sep cs)
unfolding split put_front contains
length-split_two sep [] h = absurd (ground arith)
length-split_two sep (c ∷ cs) h = ground (arith, length-split sep cs, length-split_two sep cs)
