-- ===== src/Guider/Started.antt =====
-- `start_iteration` with `DFS` or `BFS`, on states of the contract.
use smart_executor.Prelude.{
  ◌==◌, Dict, ℕ, ◌≡◌, Bool, false, ◌||◌, Option, some, List, codes, length, All, nat_eq, list_eq,
}
use smart_executor.Dispatcher.Modify.{WorldState}
use smart_executor.Guider.{organize_states}
use smart_executor.Guider.Fresh.{organize_states-Rising}
use smart_executor.Guider.Distinct.{IsNamed}
use smart_executor.Guider.Strategies.{dfs, search_strategy, bfs}
use smart_executor.Keys.{Name}
use smart_executor.Strategy.Takes.{choose_state-Takes, Takes}
use smart_executor.Guider.Prepared.{prepare_answer, StartsWith}
use smart_executor.Strategy.Saved.{
  at_end-IsPush, IsExecutable, assign_states_dfs-IsReady, on_top-IsPush, assign_states_bfs-IsReady,
  IsPush,
}
use smart_executor.Reach.{SetOrder}
use smart_executor.Assign.{Coverage}
use smart_executor.Strategy.{
  termination_bfs, Answer, at_end, assign_states_dfs, add_states, assign_states_bfs, on_top, Search,
  Settings, termination_dfs, assign_round,
}
use smart_executor.Assign.Random.{Draw}
use smart_executor.Guider.Guided.{
  on_top-AddsNew, add_states-IsGuided, IsGuided, HasContract, AddsNew, at_end-AddsNew,
  Takes-IsGuided,
}
use smart_executor.Guider.Iterate.{
  start_iteration_search, Guider, start_iteration, organize, FunctionSearchStrategy,
}
use smart_executor.Dispatcher.{Instruction, feed_instructions_update, InstructionModification}
use smart_executor.Dispatcher.Fed.{fresh}

module _ (ftn_identifier : Dict Name Name) (contract_address : ℕ) (instructions : List Instruction)
    (fed : InstructionModification)
    (feeds : feed_instructions_update (fresh ftn_identifier contract_address instructions)
      ≡ some fed) where
  -- `start_iteration` behind the strategy's answer.
  module _ (order : SetOrder) (settings : Settings) (draws : ℕ → ℕ → Draw)
      (dk_functions : List (Name × Coverage)) (iteration : ℕ) (later : iteration == 2 ≡ false)
      (open_states : List WorldState) (self : Guider (Search WorldState))
      (same : self.instruction_modification ≡ fed)
      (named : All (IsNamed (λ w. w.ftn_seq) settings.seq_len_limit) open_states)
      (held : All (HasContract fed.contract_address) open_states)
      (guided : IsGuided settings.seq_len_limit fed.contract_address self.state_index
        self.ftn_search_strategy) where
    -- The result of an iteration, where `world_states` are those saved before it.
    abbrev Starts :
        FunctionSearchStrategy (Search WorldState) → Dict Name (List WorldState) → Type 0
    Starts strategy world_states =
        (prepared : List WorldState) × (after : Guider (Search WorldState)) × (start_iteration
            strategy settings.seq_len_limit dk_functions iteration open_states self
          ≡ some (prepared, after))
        × IsGuided settings.seq_len_limit fed.contract_address after.state_index
            after.ftn_search_strategy
        × (after.instruction_modification ≡ fed)
        × StartsWith fed.contract_address instructions world_states prepared

    module _ (push : Name → List Name → List Name) (pushes : IsPush push)
        (adds : AddsNew settings.seq_len_limit fed.contract_address push) where
      -- The states of the iteration are among the saved ones.
      added : Search WorldState
      added =
          add_states push settings.seq_len_limit
            (organize_states (λ w. w.ftn_seq) settings.seq_len_limit open_states self.state_index).0
            self.ftn_search_strategy

      next_index : ℕ
      next_index =
          (organize_states (λ w. w.ftn_seq) settings.seq_len_limit open_states self.state_index).1

      added-IsGuided : IsGuided settings.seq_len_limit fed.contract_address next_index added
      unfolding added next_index
      added-IsGuided =
          let (le, rising) =
            organize_states-Rising (HasContract fed.contract_address) (λ w. w.ftn_seq)
              settings.seq_len_limit open_states self.state_index named held in
          add_states-IsGuided settings.seq_len_limit fed.contract_address push self.state_index
            next_index
            (organize_states (λ w. w.ftn_seq) settings.seq_len_limit open_states self.state_index).0
            self.ftn_search_strategy pushes adds rising guided

      -- The answer that a strategy takes from these states is prepared.
      start_search :
          (name : Name)
          (assign : List (Name × Coverage)
            → Dict Name (List WorldState)
            → ℕ
            → Search WorldState
            → Option (Answer × Search WorldState))
          (ends : ℕ → ℕ → Bool) (answer : Answer) (s : Search WorldState)
          → assign dk_functions
              (organize_states
                (λ w. w.ftn_seq)
                settings.seq_len_limit
                open_states
                self.state_index).0
              iteration
              self.ftn_search_strategy
            ≡ some (answer, s)
          → Takes added s answer
          → IsExecutable settings.seq_len_limit s answer
          → (prepared : List WorldState) × (after : Guider (Search WorldState))
            × (start_iteration_search
                  (search_strategy name assign ends)
                  settings.seq_len_limit
                  dk_functions
                  iteration
                  open_states
                  self
                ≡ some (prepared, after))
            × IsGuided settings.seq_len_limit fed.contract_address after.state_index
                after.ftn_search_strategy
            × (after.instruction_modification ≡ fed)
            × StartsWith fed.contract_address instructions s.world_states prepared
      unfolding start_iteration_search organize next_index
      start_search name assign ends answer s h takes executable =
          let guided' =
            Takes-IsGuided settings.seq_len_limit fed.contract_address next_index added s answer
              takes added-IsGuided in
          let (prepared, after, e, kept, im, starts) =
            prepare_answer ftn_identifier contract_address instructions fed feeds
              settings.seq_len_limit name assign ends
              (record self {
                state_index = next_index;
                ftn_search_strategy = s;
                termination = length answer.states_functions == 0 || self.termination;
              })
              same guided' added answer takes added-IsGuided.distinct executable in
          (prepared, after, rw (later, h) e, kept, im, starts)

    -- `DFS`, on states whose function sequences are names without `#` and that have the contract, in
    -- an iteration other than the second, where the strategy has an answer: if the pending keys are
    -- saved, different and made before, and the saved states have the contract, then the iteration
    -- starts without an exception, with no state or with the saved states of one key, whose
    -- instructions are the contract's of which some may be `EMPTY`, and the same holds afterwards.
    pub start_iteration_dfs :
        (answer : Answer) (s : Search WorldState)
        → assign_states_dfs order settings
            (draws iteration)
            dk_functions
            (organize_states (λ w. w.ftn_seq) settings.seq_len_limit open_states self.state_index).0
            self.ftn_search_strategy
          ≡ some (answer, s)
        → Starts (dfs order settings draws) s.world_states
    unfolding start_iteration assign_states_dfs added
    start_iteration_dfs answer s h =
        let limit = settings.seq_len_limit in
        let adds = on_top-AddsNew limit fed.contract_address in
        start_search on_top on_top-IsPush adds (codes "dfs")
          (λ dk_functions states_dict iteration.
            assign_states_dfs order settings (draws iteration) dk_functions states_dict)
          termination_dfs answer s h
          (choose_state-Takes
            (assign_round order settings (draws iteration)
              self.ftn_search_strategy.preprocess_timeout
              self.ftn_search_strategy.preprocess_coverage dk_functions)
            (added on_top on_top-IsPush adds) s answer h)
          (assign_states_dfs-IsReady order settings (draws iteration) dk_functions
            (organize_states (λ w. w.ftn_seq) limit open_states self.state_index).0
            self.ftn_search_strategy s answer guided.ready h).1

    -- The same for `BFS`.
    pub start_iteration_bfs :
        (answer : Answer) (s : Search WorldState)
        → assign_states_bfs order settings
            (draws iteration)
            dk_functions
            (organize_states (λ w. w.ftn_seq) settings.seq_len_limit open_states self.state_index).0
            self.ftn_search_strategy
          ≡ some (answer, s)
        → Starts (bfs order settings draws) s.world_states
    unfolding start_iteration assign_states_bfs added
    start_iteration_bfs answer s h =
        let limit = settings.seq_len_limit in
        let adds = at_end-AddsNew limit fed.contract_address in
        start_search at_end at_end-IsPush adds (codes "bfs")
          (λ dk_functions states_dict iteration.
            assign_states_bfs order settings (draws iteration) dk_functions states_dict)
          (termination_bfs settings) answer s h
          (choose_state-Takes
            (assign_round order settings (draws iteration)
              self.ftn_search_strategy.preprocess_timeout
              self.ftn_search_strategy.preprocess_coverage dk_functions)
            (added at_end at_end-IsPush adds) s answer h)
          (assign_states_bfs-IsReady order settings (draws iteration) dk_functions
            (organize_states (λ w. w.ftn_seq) limit open_states self.state_index).0
            self.ftn_search_strategy s answer guided.ready h).1
