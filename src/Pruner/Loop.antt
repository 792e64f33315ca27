-- ===== src/Pruner/Loop.antt =====
-- The loop `_execute_transactions_fdg` of mythril/laser/ethereum/svm.py around the hooks of the
-- plugin, and `execute_preprocessing` of fdg/preprocessing/preprocess.py. Its fuel bounds the rounds.
use smart_executor.Prelude.{
  ◌>>=◌, ◌==◌, list_beq, contains, Dict, ℕ, zero, suc, true, false, ◌&&◌, Option, none, some, List,
  [], ◌∷◌, ltb, if◌then◌else◌, codes, nat_eq, list_eq,
}
use smart_executor.Guider.Strategies.{Preprocessed}
use smart_executor.Covered.{PluginCoverage}
use smart_executor.Reach.{SetOrder}
use smart_executor.Keys.{Name}
use smart_executor.Pruner.Stop.{stop_sym_trans}
use smart_executor.Dispatcher.Modify.{WorldState}
use smart_executor.Pruner.{FdgPruner, PrunerConfig, start_sym_trans, GuidedStrategy}

-- What the executor and the preprocessing do: the open states and the coverage after a message
-- call, in the executor and in the copy that the preprocessing takes, and what the preprocessing
-- finds.
pub record Executor (S : Type 0) : Type 0 where
  pub execute_message_call : FdgPruner S → List WorldState × PluginCoverage
  pub execute_message_call_preprocessing : FdgPruner S → List WorldState × PluginCoverage
  pub preprocessed : Preprocessed
  pub function_instruction_indices : Dict Name (List ℕ)

module _ {S : Type 0} (config : PrunerConfig) (guided : GuidedStrategy S) (order : SetOrder)
    (executor : Executor S) where
  -- The hooks around a call of the executor.
  unfoldable pub run_hooks :
      (FdgPruner S → List WorldState × PluginCoverage) → FdgPruner S → Option (FdgPruner S)
  unfolding start_sym_trans stop_sym_trans
  run_hooks call self = start_sym_trans config guided executor.preprocessed self >>= λ started.
      let (open_states, plugin) = call started in
      stop_sym_trans config guided order executor.function_instruction_indices plugin
        (record started { open_states = open_states })

  -- `execute_preprocessing`, on a copy of the executor
  unfoldable pub execute_preprocessing : FdgPruner S → Option (FdgPruner S)
  unfolding run_hooks
  execute_preprocessing self =
      run_hooks executor.execute_message_call_preprocessing self >>= λ after.
      some (record after { open_states = self.open_states })

  unfoldable pub execute_round : ℕ → FdgPruner S → Option (FdgPruner S)
  unfolding run_hooks execute_preprocessing contains list_beq
  execute_round i self =
      if contains (codes "mine" ∷ codes "bfs" ∷ codes "dfs" ∷ []) config.function_search_strategy
        && i == 0
      then execute_preprocessing self
      else run_hooks executor.execute_message_call self

  -- The outer `none` is the end of the fuel, the inner one an exception.
  unfoldable pub execute_transactions_fdg : ℕ → ℕ → FdgPruner S → Option (Option (FdgPruner S))
  unfolding execute_round
  execute_transactions_fdg zero i self = none
  execute_transactions_fdg (suc fuel) i self = elim (ltb i self.transaction_count) [
    | false ↦ some (some self)
    | true ↦ elim (execute_round i self) [
      | none ↦ some none
      | some after ↦ execute_transactions_fdg fuel (suc i) after
    ]
  ]
