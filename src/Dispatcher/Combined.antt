-- ===== src/Dispatcher/Combined.antt =====
-- The instructions that `_get_modified_instructions_1` combines, before a `DUP1` is cleared.
use smart_executor.Dispatcher.Marks.{get_elem?-append}
use smart_executor.Prelude.{
  bind_some, contains, Dict, lookup, ℕ, zero, suc, ◌+◌, ◌<◌, ◌≡◌, refl, ap, subst, inl, inr, some,
  List, [], ◌∷◌, ◌++◌, map, arith, if◌then◌else◌, Bool-cases, length, get_elem?, nat_eq, list_eq,
  ltb, ltb→lt, sym, ◌∙◌,
}
use mathlib.Core.Option.{some-injective}
use smart_executor.Dispatcher.Modify.{empty_instruction, combine}
use smart_executor.Dispatcher.Emptied.{
  IsAny, map-Emptied, Emptied-append, Emptied-refl, Emptied, none_left, Emptied-length,
}
use smart_executor.Dispatcher.{Instruction}

module _ (not_kept : List ℕ) where
  -- A group as it is combined.
  abbrev pub part : ℕ → List Instruction → List Instruction
  part p group = if contains not_kept p then map empty_instruction group else group

  part-Emptied : (p : ℕ) (group : List Instruction) → Emptied IsAny group (part p group)
  part-Emptied p group = elim (Bool-cases (contains not_kept p)) [
    | inl dropped ↦ rw dropped (map-Emptied group)
    | inr kept ↦ rw kept (Emptied-refl group)
  ]

  pub combine-Emptied :
      (n : ℕ) (groups : Dict ℕ (List Instruction)) (xs : List Instruction)
      → combine [] n groups ≡ some xs
      → (ys : List Instruction) × (combine not_kept n groups ≡ some ys) × Emptied IsAny xs ys
  unfolding combine contains
  combine-Emptied zero groups xs h =
      ([], refl, subst (λ xs. Emptied IsAny xs []) (some-injective [] xs h) none_left)
  combine-Emptied (suc n) groups xs h =
      let (front, hf, rest) = bind_some (combine [] n groups) _ xs h in
      let (group, hg, whole) = bind_some (lookup n groups) _ xs rest in
      let (ys, hy, emptied) = combine-Emptied n groups front hf in
      (
        ys ++ part n group,
        rw (hy, hg) refl,
        subst (λ xs. Emptied IsAny xs (ys ++ part n group))
            (some-injective (front ++ group) xs whole)
            (Emptied-append emptied (part-Emptied n group)),
      )

get_elem?-map :
    (xs : List Instruction) (n : ℕ) (i : Instruction)
    → get_elem? xs n ≡ some i
    → get_elem? (map empty_instruction xs) n ≡ some (empty_instruction i)
get_elem?-map [] n i h = cc
get_elem?-map (x ∷ xs) zero i h = ap (λ k. some (empty_instruction k)) (some-injective x i h)
get_elem?-map (x ∷ xs) (suc n) i h = get_elem?-map xs n i h

suc_plus : (m n : ℕ) → suc m + n ≡ suc (m + n)
suc_plus m n = omega arith

get_elem?-shift :
    (xs ys : List Instruction) (n : ℕ) → get_elem? (xs ++ ys) (length xs + n) ≡ get_elem? ys n
get_elem?-shift [] ys n = ap (get_elem? ys) (omega arith)
get_elem?-shift (x ∷ xs) ys n = rw (suc_plus (length xs) n) (get_elem?-shift xs ys n)

get_elem?-part :
    (not_kept : List ℕ) (p j : ℕ) (group : List Instruction) (i : Instruction)
    → get_elem? group j ≡ some i
    → get_elem? (part not_kept p group) j
      ≡ some (if contains not_kept p then empty_instruction i else i)
get_elem?-part not_kept p j group i h = elim (Bool-cases (contains not_kept p)) [
  | inl dropped ↦ rw dropped (get_elem?-map group j i h)
  | inr kept ↦ rw kept h
]

-- The last group that is combined.
combine-here :
    (not_kept : List ℕ) (n j : ℕ) (groups : Dict ℕ (List Instruction))
    (front before group : List Instruction) (i : Instruction)
    → combine not_kept n groups ≡ some front
    → combine [] n groups ≡ some before
    → get_elem? group j ≡ some i
    → get_elem? (front ++ part not_kept n group) (length before + j)
      ≡ some (if contains not_kept n then empty_instruction i else i)
combine-here not_kept n j groups front before group i hf hb hj =
    let (ys, hy, emptied) = combine-Emptied not_kept n groups before hb in
    let same_length : length before ≡ length front =
      sym (Emptied-length emptied) ∙ ap length (some-injective ys front (sym hy ∙ hf)) in
    rw (same_length, get_elem?-shift front (part not_kept n group) j)
      (get_elem?-part not_kept n j group i hj)

-- The instruction of a group at an index, as it is combined.
pub combine-at :
    (not_kept : List ℕ) (n p j : ℕ) (groups : Dict ℕ (List Instruction))
    (xs before group : List Instruction) (i : Instruction)
    → combine not_kept n groups ≡ some xs
    → p < n
    → combine [] p groups ≡ some before
    → lookup p groups ≡ some group
    → get_elem? group j ≡ some i
    → get_elem? xs (length before + j)
      ≡ some (if contains not_kept p then empty_instruction i else i)
unfolding combine
combine-at not_kept zero p j groups xs before group i h small hb hg hj =
    absurd (omega (arith, small))
combine-at not_kept (suc n) p j groups xs before group i h small hb hg hj =
    let (front, hf, rest) = bind_some (combine not_kept n groups) _ xs h in
    let (last, hl, whole) = bind_some (lookup n groups) _ xs rest in
    let goal : List Instruction → Type 0 = λ xs.
      get_elem? xs (length before + j)
      ≡ some (if contains not_kept p then empty_instruction i else i) in
    subst goal (some-injective (front ++ part not_kept n last) xs whole)
      (elim (Bool-cases (ltb p n)) [
        | inl earlier ↦
            get_elem?-append front (part not_kept n last) (length before + j) (
              combine-at not_kept n p j groups front before group i hf (ltb→lt p n earlier) hb hg
                hj)
        | inr later ↦
            let here : n ≡ p = ground arith in
            let same : last ≡ group =
              some-injective last group (sym hl ∙ ap (λ k. lookup k groups) here ∙ hg) in
            rw (same, sym here)
              (combine-here not_kept n j groups front before group i hf
                (subst (λ k. combine [] k groups ≡ some before) (sym here) hb) hj)
      ])
