-- ===== src/Pruner.antt =====
-- Class `FDG_pruner` of fdg/fdg_pruner.py: the hooks that the plugin sets around an iteration of the
-- executor, and the loop of the executor that calls them. `none` is an exception; the logs and
-- prints are left out.
use smart_executor.Reach.{SetOrder}
use smart_executor.Prelude.{
  ◌>>=◌, ◌==◌, list_beq, filter_by, ℕ, suc, ◌+◌, Bool, true, ◌&&◌, ◌||◌, not, Option, none, some,
  List, [], ◌∷◌, ltb, leb, if◌then◌else◌, codes, length, nat_eq, list_eq, maybe, prepend, contains,
  Dict, map, get_last?, take,
}
use smart_executor.Guider.Strategies.{Preprocessed}
use smart_executor.Assign.{Coverage, is_below}
use smart_executor.Dispatcher.Modify.{feed_instructions, WorldState}
use smart_executor.Keys.{Name}
use smart_executor.Guider.Iterate.{
  Guider, save_genesis_states, start_iteration, FunctionSearchStrategy, end_iteration,
  get_start_sequence, new_guider,
}
use smart_executor.Covered.{
  compute_contract_coverage, PluginCoverage, FunctionCoverage, compute_deep_functions,
  compute_coverage, set_runtime_bytecode, feed_function_intruction_indices,
}
pub mod Stop
pub mod Stops
pub mod Loop
pub mod Starts
pub mod Ends
pub mod Tests

-- What the plugin reads of fdg/global_config.py. The bytecode is what `get_runtime_bytecode` takes
-- of the first state. The address is `none` while it is a text, before
-- the contract is deployed.
pub record PrunerConfig : Type 0 where
  pub random_baseline : ℕ
  pub p1_dl : ℕ
  pub function_coverage_threshold : ℕ
  pub seq_len_limit : ℕ
  pub function_search_strategy : Name
  pub target_runtime_bytecode : Name
  pub contract_address : Option ℕ

-- A strategy with what the plugin asks of it besides the guider.
pub record GuidedStrategy (S : Type 0) : Type 0 where
  pub strategy : FunctionSearchStrategy S
  pub flag_one_start_function : S → Bool
  pub set_one_start_function : S → S
  pub init : List Name → List Name → Preprocessed → Guider S → Guider S

-- The plugin, with `global_config.transaction_count` and the open states of the executor.
pub record FdgPruner (S : Type 0) : Type 0 where
  pub iteration : ℕ
  pub preprocess : Option Preprocessed
  pub function_coverage : FunctionCoverage
  pub guider : Guider S
  pub depth_k : List (Name × Coverage)
  pub transaction_count : ℕ
  pub open_states : List WorldState

module _ {S : Type 0} where
  -- `fdg.global_config.transaction_count = self._iteration_`
  unfoldable pub stop_here : FdgPruner S → FdgPruner S
  stop_here self = record self { transaction_count = self.iteration }

  unfoldable pub stop_if : Bool → FdgPruner S → FdgPruner S
  unfolding stop_here
  stop_if stops self = if stops then stop_here self else self

  -- `_reset`, with the strategy that it chooses
  unfoldable pub reset : S → Dict Name Name → FdgPruner S → FdgPruner S
  unfolding new_guider
  reset strategy method_identifiers self = record self {
    iteration = 0;
    preprocess = none;
    guider = new_guider strategy method_identifiers;
    depth_k = [];
  }

  -- `world_state_filter_hook`, by whether a contract is being created
  unfoldable pub world_state_filter : Bool → FdgPruner S → FdgPruner S
  world_state_filter creates self = if creates then record self { iteration = 0 } else self

  -- `Preprocessing.main_preprocessing_start` runs the preprocessing on the first open state.
  unfoldable pub main_preprocessing_start : FdgPruner S → FdgPruner S
  main_preprocessing_start self = record self { open_states = take 1 self.open_states }

  -- `state.constraints.is_possible` is the method, which is not called: it is true of every state.
  unfoldable pub prune_states : FdgPruner S → FdgPruner S
  unfolding filter_by
  prune_states self = record self { open_states = filter_by (λ state. true) self.open_states }

  unfoldable pub get_depth_k_functions : PrunerConfig → FdgPruner S → FdgPruner S
  unfolding compute_deep_functions
  get_depth_k_functions config self =
      let computed =
        compute_deep_functions config.function_coverage_threshold self.function_coverage in
      record self { function_coverage = computed; depth_k = computed.deep_functions }

  module _ (config : PrunerConfig) (guided : GuidedStrategy S) where
    -- `self.guider.start_iteration(…)`; for `dk_functions=None`, which is not read, stands `[]`.
    unfoldable pub guide : List (Name × Coverage) → FdgPruner S → Option (FdgPruner S)
    unfolding start_iteration
    guide dk_functions self =
        start_iteration guided.strategy config.seq_len_limit dk_functions self.iteration
          self.open_states self.guider
        >>= λ (open_states, guider).
            some (record self { open_states = open_states; guider = guider })

    -- The first iteration: the contract's instructions are fed, and the genesis states saved.
    unfoldable pub start_first : ℕ → WorldState → FdgPruner S → Option (FdgPruner S)
    unfolding feed_instructions save_genesis_states
    start_first contract_address state self =
        feed_instructions state contract_address self.guider.instruction_modification >>= λ fed.
        save_genesis_states guided.strategy config.seq_len_limit self.open_states
          (record self.guider { instruction_modification = fed })
        >>= λ guider. some (record self { guider = guider })

    -- The guided phase
    unfoldable pub start_guided : FdgPruner S → Option (FdgPruner S)
    unfolding get_depth_k_functions guide stop_here
    start_guided self =
        let ready = get_depth_k_functions config self in
        guide ready.depth_k ready >>= λ after.
        some (
          if after.guider.termination then record (stop_here after) { open_states = [] } else after)

    -- The part of the hook behind the first iteration's.
    unfoldable pub start_phase : Preprocessed → FdgPruner S → Option (FdgPruner S)
    unfolding guide start_guided main_preprocessing_start list_beq
    start_phase preprocess self =
        if ltb 0 config.random_baseline || guided.strategy.name == codes "seq"
        then guide [] self
        else (if self.iteration == 1
            then some (main_preprocessing_start (record self { preprocess = some preprocess }))
            else (if leb self.iteration (config.p1_dl + 1) then some self else start_guided self))

    -- The hook in the first iteration, by the open states.
    unfoldable pub start_states :
        Preprocessed → List WorldState → FdgPruner S → Option (FdgPruner S)
    unfolding stop_here start_first start_phase
    start_states preprocess [] self = some (stop_here self)
    start_states preprocess (state ∷ states) self =
        maybe config.contract_address (some self)
          (λ address. start_first address state self >>= λ fed. start_phase preprocess fed)

    -- `start_sym_trans_hook_laserEVM`
    unfoldable pub start_sym_trans : Preprocessed → FdgPruner S → Option (FdgPruner S)
    unfolding prune_states start_states start_phase
    start_sym_trans preprocess before =
        let self = record before { iteration = suc before.iteration } in
        let pruned = prune_states self in
        if self.iteration == 1
        then start_states preprocess pruned.open_states pruned
        else start_phase preprocess self
