-- ===== src/Guider/Runs.antt =====
-- Runs of the guided search with `DFS` or `BFS`: iterations of the guider, between which the
-- executor leaves any states of the contract.
use smart_executor.Prelude.{
  bind_some, ◌==◌, Dict, values, ℕ, ◌≡◌, refl, sym, ◌∙◌, subst, Bool, false, some, List, All,
  nat_eq, list_eq,
}
use smart_executor.Reach.{SetOrder}
use mathlib.Core.Option.{some-injective}
use smart_executor.Guider.Strategies.{dfs, bfs}
use smart_executor.Guider.Distinct.{IsNamed}
use smart_executor.Guider.Started.{start_iteration_dfs, start_iteration_bfs}
use smart_executor.Dispatcher.Modify.{WorldState}
use smart_executor.Keys.{Name}
use smart_executor.Assign.Random.{Draw}
use smart_executor.Dispatcher.{Instruction, InstructionModification, feed_instructions_update}
use smart_executor.Strategy.{initialize, Settings, Search}
use smart_executor.Dispatcher.Fed.{fresh}
use smart_executor.Assign.{Coverage, FunctionAssignment}
use smart_executor.Guider.Guided.{IsGuided, HasContract}
use smart_executor.Guider.Iterate.{
  start_iteration, organize, start_iteration_search, Guider, end_iteration, FunctionSearchStrategy,
}

module _ (ftn_identifier : Dict Name Name) (contract_address : ℕ) (instructions : List Instruction)
    (fed : InstructionModification)
    (feeds : feed_instructions_update (fresh ftn_identifier contract_address instructions)
      ≡ some fed)
    (order : SetOrder) (settings : Settings) (draws : ℕ → ℕ → Draw) where
  -- The guider after some iterations, from the initialization of the strategy on.
  pub data Run (strategy : FunctionSearchStrategy (Search WorldState))
      : Guider (Search WorldState) → Type 0 where
    begins :
        (flag_one_start_function preprocess_timeout : Bool) (preprocess_coverage : Coverage)
        (function_assignment : FunctionAssignment) (genesis_states : List WorldState)
        (state_index : ℕ)
        → Run strategy (record {
          ftn_search_strategy =
              initialize flag_one_start_function preprocess_timeout preprocess_coverage
                function_assignment;
          instruction_modification = fed;
          termination = false;
          genesis_states = genesis_states;
          state_index = state_index;
        })
    iterates :
        {self after : Guider (Search WorldState)} (dk_functions : List (Name × Coverage))
        (iteration : ℕ) (open_states prepared : List WorldState)
        → Run strategy self
        → iteration == 2 ≡ false
        → All (IsNamed (λ w. w.ftn_seq) settings.seq_len_limit) open_states
        → All (HasContract fed.contract_address) open_states
        → start_iteration strategy settings.seq_len_limit dk_functions iteration open_states self
          ≡ some (prepared, after)
        → Run strategy after
    ends :
        {self : Guider (Search WorldState)} (open_states : List WorldState) (iteration : ℕ)
        → Run strategy self
        → Run strategy (end_iteration strategy settings.seq_len_limit open_states iteration self)

  -- The dispatcher is the one that was fed, and the search is guided.
  abbrev WasGuided : Guider (Search WorldState) → Type 0
  WasGuided self =
      (self.instruction_modification ≡ fed)
      × IsGuided settings.seq_len_limit fed.contract_address self.state_index
          self.ftn_search_strategy

  -- Every iteration of the strategy keeps that.
  abbrev KeepsGuided : FunctionSearchStrategy (Search WorldState) → Type 0
  KeepsGuided strategy =
      (self after : Guider (Search WorldState)) (dk_functions : List (Name × Coverage))
      (iteration : ℕ) (open_states prepared : List WorldState)
      → WasGuided self
      → iteration == 2 ≡ false
      → All (IsNamed (λ w. w.ftn_seq) settings.seq_len_limit) open_states
      → All (HasContract fed.contract_address) open_states
      → start_iteration strategy settings.seq_len_limit dk_functions iteration open_states self
        ≡ some (prepared, after)
      → WasGuided after

  Run-WasGuided :
      (strategy : FunctionSearchStrategy (Search WorldState)) (self : Guider (Search WorldState))
      → KeepsGuided strategy
      → Run strategy self
      → WasGuided self
  unfolding initialize values end_iteration
  Run-WasGuided strategy self keeps (begins flag timeout coverage fa genesis n) = (
    refl,
    record { ready = record { saved = tt; short = tt }; distinct = tt; made = tt; held = tt },
  )
  Run-WasGuided strategy after keeps
        (iterates {self = self} dk iteration opens prepared run later named held e) =
      keeps self after dk iteration opens prepared (Run-WasGuided strategy self keeps run) later
        named held e
  Run-WasGuided strategy after keeps (ends {self = self} opens iteration run) =
      let was = Run-WasGuided strategy self keeps run in
      (
        was.0,
        record {
          ready = was.1.ready;
          distinct = was.1.distinct;
          made = was.1.made;
          held = was.1.held;
        },
      )

  dfs-KeepsGuided : KeepsGuided (dfs order settings draws)
  unfolding start_iteration start_iteration_search organize
  dfs-KeepsGuided self after dk iteration opens prepared was later named held h =
      let h2 = rw later at h in
      let ((answer, s), e, _) = bind_some _ _ _ h2 in
      let (prepared', after', e', kept, im, _) =
        start_iteration_dfs ftn_identifier contract_address instructions fed feeds order settings
          draws dk iteration later opens self was.0 named held was.1 answer s e in
      subst (λ (p : List WorldState × Guider (Search WorldState)). WasGuided p.1)
        (some-injective _ _ (sym e' ∙ h)) (im, kept)

  bfs-KeepsGuided : KeepsGuided (bfs order settings draws)
  unfolding start_iteration start_iteration_search organize
  bfs-KeepsGuided self after dk iteration opens prepared was later named held h =
      let h2 = rw later at h in
      let ((answer, s), e, _) = bind_some _ _ _ h2 in
      let (prepared', after', e', kept, im, _) =
        start_iteration_bfs ftn_identifier contract_address instructions fed feeds order settings
          draws dk iteration later opens self was.0 named held was.1 answer s e in
      subst (λ (p : List WorldState × Guider (Search WorldState)). WasGuided p.1)
        (some-injective _ _ (sym e' ∙ h)) (im, kept)

  -- In every run of the guided search with `DFS`, whatever states of the contract the executor
  -- leaves, if their function sequences are names without `#`: the pending keys are saved,
  -- different, made before and of sequences below the limit, and the saved states have the contract.
  pub Run-dfs-IsGuided :
      (self : Guider (Search WorldState))
      → Run (dfs order settings draws) self
      → IsGuided settings.seq_len_limit fed.contract_address self.state_index
          self.ftn_search_strategy
  Run-dfs-IsGuided self run = (Run-WasGuided (dfs order settings draws) self dfs-KeepsGuided run).1

  -- In every run of the guided search with `BFS`, whatever states of the contract the executor
  -- leaves, if their function sequences are names without `#`: the pending keys are saved,
  -- different, made before and of sequences below the limit, and the saved states have the contract.
  pub Run-bfs-IsGuided :
      (self : Guider (Search WorldState))
      → Run (bfs order settings draws) self
      → IsGuided settings.seq_len_limit fed.contract_address self.state_index
          self.ftn_search_strategy
  Run-bfs-IsGuided self run = (Run-WasGuided (bfs order settings draws) self bfs-KeepsGuided run).1
