-- ===== src/Assign/Random/Share.antt =====
-- How many functions a random selection has.
use smart_executor.Keys.{Name}
use smart_executor.Assign.{FunctionAssignment}
use smart_executor.Assign.Random.{
  select_share, Draw, select_functions_randomly, random_indices, share, pick,
}
use smart_executor.Prelude.{
  ◌==◌, nat_eq, list_eq, Nodup, contains, ℕ, zero, suc, ◌+◌, ◌*◌, ◌≤◌, ◌<◌, ◌≡◌, refl, sym, ◌∙◌,
  subst, inl, inr, true, false, ◌&&◌, some, List, [], ◌∷◌, arith, ltb, leb, if◌then◌else◌, ==_iff,
  Bool-cases, length, All,
}

-- How many of the numbers lie in the `k` places from `i` on.
count_in : List ℕ → ℕ → ℕ → ℕ
count_in [] i k = 0
count_in (x ∷ xs) i k =
    let rest = count_in xs i k in if leb i x && ltb x (i + k) then suc rest else rest

count_in-absent :
    (xs : List ℕ) (i k : ℕ) → contains xs i ≡ false → count_in xs i (suc k) ≡ count_in xs (suc i) k
unfolding count_in contains
count_in-absent [] i k h = refl
count_in-absent (x ∷ xs) i k h = ground (arith, count_in-absent xs i k)

count_in-present :
    (xs : List ℕ) (i k : ℕ)
    → Nodup xs
    → contains xs i ≡ true
    → count_in xs i (suc k) ≡ suc (count_in xs (suc i) k)
unfolding count_in contains
count_in-present [] i k u h = absurd (ground arith)
count_in-present (x ∷ xs) i k u h = elim (Bool-cases (x == i)) [
  | inl same ↦
      let e = (==_iff x i).0 same in
      let new = subst (λ y. contains xs y ≡ false) e u.0 in
      ground (arith, count_in-absent xs i k new)
  | inr other ↦ ground (arith, count_in-present xs i k u.1)
]

count_in-zero : (xs : List ℕ) (i : ℕ) → count_in xs i 0 ≡ 0
unfolding count_in
count_in-zero [] i = refl
count_in-zero (x ∷ xs) i = ground (arith, count_in-zero xs i)

length-pick :
    (xs : List ℕ) (i : ℕ) (ftns : List Name)
    → Nodup xs
    → length (pick xs i ftns) ≡ count_in xs i (length ftns)
unfolding pick
length-pick xs i [] u = sym (count_in-zero xs i)
length-pick xs i (f ∷ ftns) u = elim (Bool-cases (contains xs i)) [
  | inl there ↦
      ground (arith, length-pick xs (suc i) ftns u, count_in-present xs i (length ftns) u there)
  | inr absent ↦
      ground (arith, length-pick xs (suc i) ftns u, count_in-absent xs i (length ftns) absent)
]

count_in-All : (xs : List ℕ) (n : ℕ) → All (λ x. x < n) xs → count_in xs 0 n ≡ length xs
unfolding count_in
count_in-All [] n h = refl
count_in-All (x ∷ xs) n h = let small = h.0 in ground (arith, count_in-All xs n h.1)

contains-pick :
    (xs : List ℕ) (i : ℕ) (ftns : List Name) (f : Name)
    → contains (pick xs i ftns) f ≡ true
    → contains ftns f ≡ true
unfolding pick contains
contains-pick xs i [] f h = h
contains-pick xs i (g ∷ ftns) f h = ground (arith, contains-pick xs (suc i) ftns f)

tenths-le : (p n : ℕ) → p ≤ 10 → p * n ≤ 10 * n
tenths-le p zero h = omega arith
tenths-le p (suc n) h = let ih = tenths-le p n h in omega arith

share-le : (p n : ℕ) → p ≤ 10 → share p n ≤ n
share-le p n h = omega (arith, tenths-le p n h)

-- For a percentage of at most 10 tenths, whatever the draw is: the random selection has a result,
-- which is as many functions as the share rounded up, all of the given list.
pub select_functions_randomly_lem :
    (draw : Draw) (percentage : ℕ) (self : FunctionAssignment)
    → percentage ≤ 10
    → (selected : List Name) × (select_functions_randomly draw percentage self ≡ some selected)
      × (length selected ≡ share percentage (length self.all_functions))
      × ((f : Name) → contains selected f ≡ true → contains self.all_functions f ≡ true)
unfolding select_functions_randomly select_share random_indices
select_functions_randomly_lem draw percentage self small =
    let n = length self.all_functions in
    let k = share percentage n in
    let fits : k ≤ n = share-le percentage n small in
    let xs = draw.indices n k in
    (
      pick xs 0 self.all_functions,
      ground arith,
      length-pick xs 0 self.all_functions (draw.indices-Nodup n k)
          ∙ count_in-All xs n (draw.indices-All n k)
          ∙ draw.length-indices n k fits,
      λ f m. contains-pick xs 0 self.all_functions f m,
    )
