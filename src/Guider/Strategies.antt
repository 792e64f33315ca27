-- ===== src/Guider/Strategies.antt =====
-- `DFS` and `BFS` of fdg/control/ftn_search_strategy.py, as strategies of the guider.
use smart_executor.Manager.{new_fwrg_manager}
use smart_executor.Strategy.Sequences.{assign_states}
use smart_executor.Fwrg.{Slots}
use smart_executor.Prelude.{
  Dict, ℕ, Bool, Option, List, codes, nat_eq, list_eq, maybe, ◌==◌, length,
}
use smart_executor.Assign.Random.{Draw}
use smart_executor.Dispatcher.Modify.{WorldState}
use smart_executor.Guider.Iterate.{FunctionSearchStrategy, Guider}
use smart_executor.Keys.{Name}
use smart_executor.Reach.{SetOrder}
use smart_executor.Strategy.{
  delete_state, assign_states_bfs, Settings, Search, termination_bfs, Answer, assign_states_dfs,
  termination_dfs, initialize,
}
use smart_executor.Assign.{Coverage, new_function_assignment}

-- A strategy that keeps its fields in a `Search`: `DFS` or `BFS`.
abbrev pub search_strategy :
    Name
    → (List (Name × Coverage)
        → Dict Name (List WorldState)
        → ℕ
        → Search WorldState
        → Option (Answer × Search WorldState))
    → (ℕ → ℕ → Bool)
    → FunctionSearchStrategy (Search WorldState)
search_strategy name assign_states termination = record {
  name = name;
  assign_states = assign_states;
  world_states = λ s. s.world_states;
  delete_state = λ key s. record s { world_states = delete_state key s.world_states };
  update_states = λ states_dict s. s;
  assigned_at_last = λ key s. s;
  termination = λ states_num iteration s. termination states_num iteration;
}

module _ (order : SetOrder) (settings : Settings) (draws : ℕ → ℕ → Draw) where
  abbrev pub dfs : FunctionSearchStrategy (Search WorldState)
  dfs =
      search_strategy (codes "dfs")
        (λ dk_functions states_dict iteration.
          assign_states_dfs order settings (draws iteration) dk_functions states_dict)
        termination_dfs

  abbrev pub bfs : FunctionSearchStrategy (Search WorldState)
  bfs =
      search_strategy (codes "bfs")
        (λ dk_functions states_dict iteration.
          assign_states_bfs order settings (draws iteration) dk_functions states_dict)
        (termination_bfs settings)

-- What the preprocessing leaves for the guider; its coverage may be `None`.
pub record Preprocessed : Type 0 where
  pub timeout : Bool
  pub coverage : Option Coverage
  pub all_functions : List Name
  pub read_slots_in_conditions : Dict Name Slots
  pub write_slots : Dict Name Slots
  pub read_slots : Dict Name Slots

-- `Guider.init` with these strategies
unfoldable pub init :
    ℕ
    → ℕ
    → List Name
    → List Name
    → Preprocessed
    → Guider (Search WorldState)
    → Guider (Search WorldState)
unfolding new_fwrg_manager new_function_assignment initialize
init seq_len_limit execution_times_limit start_functions dk_functions preprocess self =
    let fwrg_manager =
      new_fwrg_manager seq_len_limit start_functions dk_functions
        preprocess.read_slots_in_conditions preprocess.write_slots preprocess.read_slots in
    record self {
      ftn_search_strategy =
          initialize (length start_functions == 1) preprocess.timeout
            (maybe preprocess.coverage (record { covered = 0; total = 1 }) (λ c. c))
            (new_function_assignment execution_times_limit preprocess.all_functions fwrg_manager 0);
    }
