-- ===== src/Dispatcher/States.antt =====
-- The world states whose code is changed.
use smart_executor.Prelude.{
  ◌==◌, eq_refl, contains, Dict, lookup-insert, lookup, insert, ℕ, ◌≡◌, refl, inl, inr, true, false,
  some, List, [], ◌∷◌, leb, Bool-cases, is_some, codes, length, All, nat_eq, list_eq, is_some-elim,
}
use smart_executor.Keys.{Name}
use smart_executor.Dispatcher.Fed.{fresh}
use smart_executor.Dispatcher.Modified.{get_modified_instructions_1_total, grouped}
use smart_executor.Dispatcher.Modify.{
  WorldState, with_instructions, modity_on_multiple_states, update_codes, selectors_of, Code,
  with_selectors, update_code, code_change,
}
use smart_executor.Dispatcher.Emptied.{Emptied-refl, IsAny, Emptied}
use smart_executor.Dispatcher.{feed_instructions_update, InstructionModification, Instruction}

abbrev pub AllPairs : {A B : Type 0} → (A → B → Type 0) → List A → List B → Type 0
AllPairs R [] [] = Unit
AllPairs R [] (y ∷ ys) = ⊥
AllPairs R (x ∷ xs) [] = ⊥
AllPairs R (x ∷ xs) (y ∷ ys) = R x y × AllPairs R xs ys

-- The code of the account `key` has other instructions, and nothing else of the accounts changes.
pub record Recoded (key : ℕ) (P : List Instruction → Type 0) (state after : WorldState)
    : Type 0 where
  pub code : Code
  pub found : lookup key after.accounts ≡ some code
  pub recoded : P code.instruction_list
  pub others : (k : ℕ) → key == k ≡ false → lookup k after.accounts ≡ lookup k state.accounts
  pub same_sequence : after.ftn_seq ≡ state.ftn_seq

module _ (key : ℕ) (P : List Instruction → Type 0) (change : Code → Code)
    (changes : (code : Code) → P (change code).instruction_list) where
  update_code-Recoded :
      (state : WorldState)
      → is_some (lookup key state.accounts) ≡ true
      → (after : WorldState) × (update_code key change state ≡ some after)
        × Recoded key P state after
  unfolding update_code
  update_code-Recoded state h =
      let (code, found) = is_some-elim (lookup key state.accounts) h in
      let accounts = insert key (change code) state.accounts in
      (
        record state { accounts = accounts },
        rw found refl,
        record {
          code = change code;
          found = rw (lookup-insert key key (change code) state.accounts, eq_refl key) refl;
          recoded = changes code;
          others = λ k other. rw (lookup-insert key k (change code) state.accounts, other) refl;
          same_sequence = refl;
        },
      )

  update_codes-Recoded :
      (states : List WorldState)
      → All (λ state. is_some (lookup key state.accounts) ≡ true) states
      → (after : List WorldState) × (update_codes key change states ≡ some after)
        × AllPairs (Recoded key P) states after
  unfolding update_codes
  update_codes-Recoded [] h = ([], refl, tt)
  update_codes-Recoded (state ∷ states) h =
      let (first, e, recoded) = update_code-Recoded state h.0 in
      let (rest, e', recoded') = update_codes-Recoded states h.1 in
      (first ∷ rest, rw (e, e') refl, (recoded, recoded'))

-- Any functions are set on states that have the contract: the change of the states has a result, in
-- which the instructions of the contract are the original ones of which some may be `EMPTY`, and the
-- other accounts and the function sequences stay.
pub modity_on_multiple_states_total :
    (ftn_identifier : Dict Name Name) (contract_address : ℕ) (instructions : List Instruction)
    (fed : InstructionModification)
    → feed_instructions_update (fresh ftn_identifier contract_address instructions) ≡ some fed
    → (states : List WorldState)
    → All (λ state. is_some (lookup fed.contract_address state.accounts) ≡ true) states
    → (functions : List Name)
    → (after : List WorldState) × (modity_on_multiple_states fed states functions ≡ some after)
      × AllPairs (Recoded fed.contract_address (Emptied IsAny instructions)) states after
unfolding modity_on_multiple_states code_change
modity_on_multiple_states_total ftn_identifier contract_address instructions fed feeds states there
      functions =
    let key = fed.contract_address in
    let P = Emptied IsAny instructions in
    let same = (grouped ftn_identifier contract_address instructions fed feeds).same_list in
    let original : P fed.instruction_list = rw same (Emptied-refl instructions) in
    elim (Bool-cases (contains functions (codes "original_instruction_list"))) [
      | inl keeps ↦ rw keeps (
          update_codes-Recoded key P (with_instructions fed.instruction_list) (λ code. original)
            states there)
      | inr changes ↦
          rw changes (elim (Bool-cases (leb (length fed.function_identifier) (length functions))) [
            | inl all ↦ rw all (
                update_codes-Recoded key P (with_instructions fed.instruction_list)
                  (λ code. original) states there)
            | inr some_only ↦
                let selectors = selectors_of fed.function_identifier functions in
                let (after, (e, _, _, emptied, _)) =
                  get_modified_instructions_1_total ftn_identifier contract_address instructions fed
                    feeds selectors in
                rw (some_only, e)
                  (update_codes-Recoded key P (with_selectors after selectors) (λ code. emptied)
                    states there)
          ])
    ]
