-- ===== src/Guider/Prepared.antt =====
-- `_prepare_states` for an answer of `DFS` or `BFS`, on states of the contract.
use smart_executor.Prelude.{
  eq_refl, Nodup, contains, All-lookup, Dict, has_key-eq, lookup, has_key, keys, ℕ, ◌≡◌, refl, sym,
  ◌∙◌, subst, ◌⊎◌, inl, inr, Bool, true, false, Option, some, List, [], ◌∷◌, ◌++◌, arith, ltb,
  length, All, nat_eq, list_eq, ap, Option-cases, is_some-elim,
}
use smart_executor.Guider.Strategies.{search_strategy}
use smart_executor.Keys.{Name}
use mathlib.Core.List.{append-nil}
use smart_executor.Assign.{Coverage}
use smart_executor.Dispatcher.Fed.{fresh}
use smart_executor.Strategy.Takes.{Takes}
use smart_executor.Guider.Guided.{IsGuided, delete_state-IsGuided, HasContract}
use smart_executor.Dispatcher.Modify.{modity_on_multiple_states, WorldState}
use smart_executor.Dispatcher.Emptied.{IsAny, Emptied}
use smart_executor.Strategy.Saved.{IsExecutable}
use smart_executor.Dispatcher.States.{Recoded, AllPairs, modity_on_multiple_states_total}
use smart_executor.Dispatcher.{Instruction, feed_instructions_update, InstructionModification}
use smart_executor.Guider.Iterate.{
  modify_states, prepare_assigned, Guider, delete_states, prepare_states, is_set, states_to_execute,
  last_code, share_codes, share_code,
}
use smart_executor.Strategy.{execute_on, Search, nothing_left, delete_state, Answer}

has_some : (f : Name) (fs : List Name) → ltb 0 (length (f ∷ fs)) ≡ true
has_some f fs = ground arith

-- What an iteration starts with: the states of one key, with a changed dispatcher, or none.
abbrev pub StartsWith :
    ℕ → List Instruction → Dict Name (List WorldState) → List WorldState → Type 0
StartsWith contract instructions world_states open_states =
    (open_states ≡ [])
    ⊎ ((key : Name) × (states : List WorldState) × (lookup key world_states ≡ some states)
        × AllPairs (Recoded contract (Emptied IsAny instructions)) states open_states)

share_code-nil : (address : ℕ) (state : WorldState) → share_code address [] state ≡ state
unfolding share_code last_code
share_code-nil address state = elim (Option-cases (lookup address state.accounts)) [
  | inl missing ↦ rw missing refl
  | inr (code, found) ↦ rw found refl
]

share_codes-nil : (address : ℕ) (states : List WorldState) → share_codes address [] states ≡ states
unfolding share_codes
share_codes-nil address [] = refl
share_codes-nil address (state ∷ states) =
    ap (λ s. s ∷ share_codes address [] states) (share_code-nil address state)
    ∙ ap (◌∷◌ state) (share_codes-nil address states)

module _ (ftn_identifier : Dict Name Name) (contract_address : ℕ) (instructions : List Instruction)
    (fed : InstructionModification)
    (feeds : feed_instructions_update (fresh ftn_identifier contract_address instructions)
      ≡ some fed) where
  module _ (limit : ℕ) (name : Name)
      (assign : List (Name × Coverage)
        → Dict Name (List WorldState)
        → ℕ
        → Search WorldState
        → Option (Answer × Search WorldState))
      (ends : ℕ → ℕ → Bool) (self : Guider (Search WorldState))
      (same : self.instruction_modification ≡ fed)
      (guided : IsGuided limit fed.contract_address self.state_index self.ftn_search_strategy) where
    -- The preparation of an answer has a result.
    abbrev pub Prepares : Answer → Type 0
    Prepares answer =
        (open_states : List WorldState) × (after : Guider (Search WorldState)) × (prepare_assigned
            (search_strategy name assign ends) limit answer (is_set answer.deletable) self
          ≡ some (open_states, after))
        × IsGuided limit fed.contract_address after.state_index after.ftn_search_strategy
        × (after.instruction_modification ≡ fed)
        × StartsWith fed.contract_address instructions self.ftn_search_strategy.world_states
            open_states

    prepare_nothing : Prepares nothing_left
    unfolding prepare_assigned
    prepare_nothing = ([], self, refl, guided, same, inl refl)

    prepare_one :
        (key f : Name) (fs : List Name) (states changed : List WorldState)
        → modity_on_multiple_states fed states (f ∷ fs) ≡ some changed
        → prepare_states
            (search_strategy name assign ends)
            limit
            ((key, states) ∷ [])
            ((key, f ∷ fs) ∷ [])
            true
            self
          ≡ some (
            changed ++ [],
            record self {
              ftn_search_strategy = record self.ftn_search_strategy {
                world_states = delete_state key self.ftn_search_strategy.world_states;
              };
            },
          )
    unfolding prepare_states modify_states delete_states keys lookup
    prepare_one key f fs states changed modifies =
        rw (eq_refl key, has_some f fs, same, modifies)
          (rw (share_codes-nil fed.contract_address changed) refl)

    prepare_state :
        (key : Name) (functions : List Name)
        → has_key key self.ftn_search_strategy.world_states ≡ true
        → contains self.ftn_search_strategy.pending key ≡ false
        → Prepares (execute_on key functions)
    unfolding prepare_assigned states_to_execute
    prepare_state key [] saved taken = ([], self, refl, guided, same, inl refl)
    prepare_state key (f ∷ fs) saved taken =
        let s = self.ftn_search_strategy in
        let (states, found) =
          is_some-elim (lookup key s.world_states) (sym (has_key-eq key s.world_states) ∙ saved) in
        let held =
          All-lookup (All (HasContract fed.contract_address)) key states s.world_states guided.held
            found in
        let (changed, modifies, recoded) =
          modity_on_multiple_states_total ftn_identifier contract_address instructions fed feeds
            states held (f ∷ fs) in
        (
          changed ++ [],
          record self {
            ftn_search_strategy = record s { world_states = delete_state key s.world_states };
          },
          rw (found, has_some f fs) (prepare_one key f fs states changed modifies),
          delete_state-IsGuided limit fed.contract_address self.state_index key s taken guided,
          same,
          inr (key, states, found, rw append-nil recoded),
        )

    -- What the strategy answers is prepared.
    pub prepare_answer :
        (before : Search WorldState) (answer : Answer)
        → Takes before self.ftn_search_strategy answer
        → Nodup before.pending
        → IsExecutable limit self.ftn_search_strategy answer
        → Prepares answer
    prepare_answer before answer t distinct ready = elim t.shape [
      | inl nothing ↦ subst Prepares (sym nothing) prepare_nothing
      | inr (key, functions, e) ↦
          let left =
            subst
              (λ a.
                All (λ c. contains self.ftn_search_strategy.pending c.0 ≡ false) a.states_functions)
              e (t.distinct distinct).1 in
          let there = subst (IsExecutable limit self.ftn_search_strategy) e ready in
          subst Prepares (sym e) (prepare_state key functions there.0.0 left.0)
    ]
