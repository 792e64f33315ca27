-- ===== src/Pruner/Tests.antt =====
-- The contract of two functions, with the strategy `dfs`: the third iteration covers all of it.
use smart_executor.Pruner.Stop.{stop_sym_trans}
use smart_executor.Pruner.Ends.{Ends, execute_transactions_fdg_total}
use smart_executor.Pruner.Stops.{stop_sym_trans-Leaves, Leaves}
use smart_executor.Prelude.{
  ℕ, true, false, Option, none, some, List, [], ◌∷◌, ltb, codes, length, nat_eq, list_eq, Gives,
  ◌≡◌, refl, option_beq, dedup,
}
use smart_executor.Strategy.{Search, termination_dfs, assign_states_dfs}
use smart_executor.Guider.Tests.{start_0, state_f2, draws_3}
use smart_executor.Strategy.Tests.{settings_4}
use smart_executor.Dispatcher.Modify.{WorldState}
use smart_executor.Pruner.Loop.{execute_transactions_fdg, Executor}
use smart_executor.Reach.Tests.{dedup_order}
use smart_executor.Covered.{PluginCoverage}
use smart_executor.Pruner.{FdgPruner, PrunerConfig, GuidedStrategy}
use smart_executor.Dispatcher.{new_modification}
use smart_executor.Dispatcher.Tests.{state_2, ids_2}
use smart_executor.Covered.Tests.{self_4}
use smart_executor.Guider.Strategies.{init, dfs}

abbrev config_dfs : PrunerConfig
config_dfs = record {
  random_baseline = 0;
  p1_dl = 1;
  function_coverage_threshold = 98;
  seq_len_limit = 4;
  function_search_strategy = codes "dfs";
  target_runtime_bytecode = codes "60";
  contract_address = some 9;
}

abbrev guided_dfs : GuidedStrategy (Search WorldState)
guided_dfs = record {
  strategy = dfs dedup_order settings_4 draws_3;
  flag_one_start_function = λ s. s.flag_one_start_function;
  set_one_start_function = λ s. record s { flag_one_start_function = true };
  init = init 4 1;
}

abbrev state_f3 : WorldState
state_f3 = record state_2 { ftn_seq = some (codes "f3" ∷ []) }

-- Half of the contract is covered in the first iterations, and all of it in the third.
abbrev call_2 : FdgPruner (Search WorldState) → List WorldState × PluginCoverage
call_2 self = (
  state_f2 ∷ state_f3 ∷ [],
  (codes "60", (4, true ∷ true ∷ ltb 2 self.iteration ∷ ltb 2 self.iteration ∷ [])) ∷ [],
)

abbrev executor_2 : Executor (Search WorldState)
executor_2 = record {
  execute_message_call = call_2;
  execute_message_call_preprocessing = call_2;
  preprocessed = record {
    timeout = false;
    coverage = none;
    all_functions = codes "f2" ∷ codes "f3" ∷ [];
    read_slots_in_conditions = [];
    write_slots = [];
    read_slots = [];
  };
  function_instruction_indices = (codes "f2", 0 ∷ 1 ∷ []) ∷ (codes "f3", 2 ∷ 3 ∷ []) ∷ [];
}

abbrev pruner_5 : FdgPruner (Search WorldState)
pruner_5 = record {
  iteration = 0;
  preprocess = none;
  function_coverage = record self_4 { function_instruction_indices = []; function_coverage = [] };
  guider = record start_0 { instruction_modification = new_modification ids_2 };
  depth_k = [];
  transaction_count = 5;
  open_states = state_2 ∷ [];
}

-- The state that a run ends in, if it ends without an exception.
abbrev ended : Option (Option (FdgPruner (Search WorldState))) → Option (ℕ × ℕ × ℕ)
ended (some (some self)) = some (self.iteration, self.transaction_count, length self.open_states)
ended _ = none

-- The coverage ends the loop in the third of five iterations.
run_5 :
    ended (execute_transactions_fdg config_dfs guided_dfs dedup_order executor_2 6 0 pruner_5)
    ≡ some (3, 3, 2)
unfolding execute_transactions_fdg termination_dfs option_beq init assign_states_dfs dedup
run_5 = refl

execute_transactions_fdg_total_example :
    (o : Option (FdgPruner (Search WorldState))) × (execute_transactions_fdg config_dfs guided_dfs
        dedup_order executor_2 6 0 pruner_5
      ≡ some o)
    × Gives (Ends 5) o
execute_transactions_fdg_total_example =
    execute_transactions_fdg_total config_dfs guided_dfs dedup_order executor_2 pruner_5 refl

-- The third iteration, in front of its end.
abbrev pruner_3 : FdgPruner (Search WorldState)
pruner_3 = record pruner_5 {
  iteration = 3;
  preprocess = some executor_2.preprocessed;
  open_states = state_f2 ∷ state_f3 ∷ [];
}

stop_sym_trans-Leaves_example :
    Gives
      (Leaves pruner_3)
      (stop_sym_trans config_dfs guided_dfs dedup_order [] (call_2 pruner_3).1 pruner_3)
stop_sym_trans-Leaves_example =
    stop_sym_trans-Leaves config_dfs guided_dfs dedup_order [] (call_2 pruner_3).1 pruner_3
