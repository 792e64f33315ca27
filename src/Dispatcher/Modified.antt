-- ===== src/Dispatcher/Modified.antt =====
-- The instructions with a changed dispatcher, from the instructions of the contract.
use smart_executor.Dispatcher.Marks.{get_elem?-append}
use smart_executor.Dispatcher.Combined.{combine-at}
use smart_executor.Targets.Organize.{recorded}
use mathlib.Core.Option.{some-injective}
use smart_executor.Dispatcher.Dup1.{empty_is_no-IsDup1}
use smart_executor.Prelude.{
  Gives-elim, contains, Dict, lookup, ℕ, suc, ◌+◌, ◌-◌, ◌<◌, ◌≡◌, refl, ap, subst, ◌⊎◌, true, false,
  some, List, [], ◌++◌, map, length, get_elem?, nat_eq, list_eq, sym, ◌∙◌, inl, inr, arith,
  Bool-cases, if◌then◌else◌,
}
use smart_executor.Dispatcher.Kept.{modified, IsKept, not_kept_positions_iff, last_position}
use smart_executor.Dispatcher.Fed.{IsGrouped, fresh, feed_instructions_update-IsGrouped}
use smart_executor.Dispatcher.Emptied.{
  Emptied-trans, IsDup1, Emptied-address, IsAny, Emptied-append, Emptied-weaken, Emptied-length,
  Emptied-refl, Emptied, Emptied-at,
}
use smart_executor.Dispatcher.Modify.{
  combine, get_modified_instructions_1, empty_instruction, not_kept_positions,
}
use smart_executor.Keys.{Name}
use smart_executor.Dispatcher.{Instruction, InstructionModification, feed_instructions_update}

-- The change has the result `after`: as many instructions, at the same addresses, each one the
-- contract's or `EMPTY`, with the last group at the end.
abbrev pub IsChange :
    List Instruction → InstructionModification → List Name → List Instruction → Type 0
IsChange instructions fed selectors after =
    (get_modified_instructions_1 fed selectors ≡ some after)
    × (length after ≡ length instructions)
    × (map (λ i. i.address) after ≡ map (λ i. i.address) instructions)
    × Emptied IsAny instructions after
    × ((front : List Instruction) × (rest : List Instruction) × (lookup
            (length fed.positions_to_instructions - 1) fed.positions_to_instructions
          ≡ some rest)
        × (after ≡ front ++ rest))

module _ (ftn_identifier : Dict Name Name) (contract_address : ℕ) (instructions : List Instruction)
    (fed : InstructionModification)
    (feeds : feed_instructions_update (fresh ftn_identifier contract_address instructions)
      ≡ some fed) where
  pub grouped : IsGrouped instructions fed
  grouped =
      Gives-elim (IsGrouped instructions)
        (feed_instructions_update (fresh ftn_identifier contract_address instructions))
        (feed_instructions_update-IsGrouped ftn_identifier contract_address instructions) feeds

  -- The groups, in the order of their positions, are the instructions of the contract.
  pub combine-feed_instructions_update :
      combine [] (length fed.positions_to_instructions) fed.positions_to_instructions
      ≡ some instructions
  unfolding combine contains
  combine-feed_instructions_update =
      rw (grouped.size, grouped.covered, grouped.tail) (ap some grouped.whole)

  -- For any selectors the change of the dispatcher has a result. It has as many instructions as the
  -- contract, at the same addresses, each one the contract's or `EMPTY`, and it ends with the last
  -- group, unchanged.
  pub get_modified_instructions_1_total :
      (selectors : List Name)
      → (after : List Instruction) × IsChange instructions fed selectors after
  get_modified_instructions_1_total selectors =
      let m = modified instructions fed selectors grouped in
      let emptied : Emptied IsAny instructions (m.changed ++ grouped.rest) =
        subst (λ is. Emptied IsAny is (m.changed ++ grouped.rest)) grouped.whole
          (Emptied-append
            (Emptied-trans (λ i _. tt) m.emptied (Emptied-weaken (λ i _. tt) m.cleared))
            (Emptied-refl grouped.rest)) in
      (
        m.changed ++ grouped.rest,
        (
          m.result,
          Emptied-length emptied,
          Emptied-address emptied,
          emptied,
          (
            m.changed,
            grouped.rest,
            rw (last_position instructions fed selectors grouped) grouped.tail,
            refl,
          ),
        ),
      )

  is_kept :
      (selectors : List Name) (p : ℕ)
      → (contains fed.all_positions_related_function p ≡ false) ⊎ IsKept fed selectors p
      → contains (not_kept_positions fed selectors) p ≡ false
  is_kept selectors p h = elim (Bool-cases (contains (not_kept_positions fed selectors) p)) [
    | inr kept ↦ kept
    | inl dropped ↦
        let (recorded, other) = (not_kept_positions_iff fed selectors p).0 dropped in
        elim h [
          | inl unrecorded ↦ absurd (cc (sym unrecorded ∙ recorded))
          | inr kept ↦ absurd (other kept)
        ]
  ]

  -- An instruction that is combined, when each `DUP1` is cleared.
  after-at :
      (selectors : List Name) (after : List Instruction)
      → get_modified_instructions_1 fed selectors ≡ some after
      → (n : ℕ) (k : Instruction)
      → get_elem? (modified instructions fed selectors grouped).combined n ≡ some k
      → (get_elem? after n ≡ some k) ⊎ (IsDup1 k × (get_elem? after n ≡ some (empty_instruction k)))
  after-at selectors after h n k at =
      let m = modified instructions fed selectors grouped in
      let goal : List Instruction → Type 0 = λ after.
        (get_elem? after n ≡ some k)
        ⊎ (IsDup1 k × (get_elem? after n ≡ some (empty_instruction k))) in
      subst goal (some-injective (m.changed ++ grouped.rest) after (sym m.result ∙ h))
        (elim (Emptied-at n k m.cleared at) [
          | inl same ↦ inl (get_elem?-append m.changed grouped.rest n same)
          | inr (dup1, cleared) ↦ inr (dup1, get_elem?-append m.changed grouped.rest n cleared)
        ])

  module _ (selectors : List Name) (after : List Instruction)
      (modifies : get_modified_instructions_1 fed selectors ≡ some after) (p j : ℕ)
      (before group : List Instruction) (i : Instruction)
      (small : suc p < length fed.positions_to_instructions)
      (hb : combine [] p fed.positions_to_instructions ≡ some before)
      (hg : lookup p fed.positions_to_instructions ≡ some group)
      (hj : get_elem? group j ≡ some i) where
    combined-at :
        get_elem? (modified instructions fed selectors grouped).combined (length before + j)
        ≡ some (if contains (not_kept_positions fed selectors) p then empty_instruction i else i)
    combined-at =
        let m = modified instructions fed selectors grouped in
        combine-at (not_kept_positions fed selectors) grouped.last p j fed.positions_to_instructions
          m.combined before group i m.combines (omega (arith, small, grouped.size)) hb hg hj

    -- An instruction of the dispatcher, in the group of a function at a position that is not kept,
    -- is `EMPTY` after the change.
    pub dropped_instruction_lem :
        contains fed.all_positions_related_function p ≡ true
        → ¬ IsKept fed selectors p
        → get_elem? after (length before + j) ≡ some (empty_instruction i)
    dropped_instruction_lem recorded dropped =
        let e = (not_kept_positions_iff fed selectors p).1 (recorded, dropped) in
        elim (after-at selectors after modifies (length before + j) (empty_instruction i)
          (combined-at ∙ rw e refl)) [
            | inl same ↦ same
            | inr (dup1, _) ↦ absurd (empty_is_no-IsDup1 i dup1)
          ]

    -- An instruction of the dispatcher, in a group of no function or at a position that is kept, is
    -- the same after the change, but that a `DUP1` may be `EMPTY`.
    pub kept_instruction_lem :
        (contains fed.all_positions_related_function p ≡ false) ⊎ IsKept fed selectors p
        → (get_elem? after (length before + j) ≡ some i)
          ⊎ (IsDup1 i × (get_elem? after (length before + j) ≡ some (empty_instruction i)))
    kept_instruction_lem kept =
        after-at selectors after modifies (length before + j) i
          (combined-at ∙ rw (is_kept selectors p kept) refl)
