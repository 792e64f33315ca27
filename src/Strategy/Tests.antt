-- ===== src/Strategy/Tests.antt =====
-- Runs of the strategies on the contract of `test_2` in fdg/fwrg_manager.py.
use smart_executor.Prelude.{
  list_beq, contains, dedup, Dict, lookup, insert, has_key, ℕ, zero, suc, ◌≡◌, refl, ◌↔◌, true,
  false, some, List, ◌∷◌, codes, nat_eq, list_eq, [],
}
use smart_executor.Strategy.Sequences.{next_functions}
use smart_executor.Manager.Tests.{manager_2}
use smart_executor.Paths.{Seq}
use smart_executor.Reach.Tests.{dedup_order}
use smart_executor.Assign.{
  FunctionAssignment, read_children, assign_functions, record_assignment, new_function_assignment,
  fallback_case,
}
use smart_executor.Strategy.Saved.{IsReady, IsExecutable, assign_states_baseline-IsReady}
use smart_executor.Assign.Tests.{countdown, last_numbers, functions_4, self_2, targets_2}
use smart_executor.Strategy.Sequences.Next.{next_functions_iff, GoesOn}
use smart_executor.Manager.{get_children_fwrg_T_A, new_fwrg_manager}
use smart_executor.Keys.{Name, get_ftn_seq_from_key_1}
use smart_executor.Strategy.{
  Search, assign_states_dfs, execute_on, assign_states_baseline, pick_state, Settings, Assign,
  assign_states_bfs,
}
use smart_executor.Assign.Random.{random_indices, Draw, assign_functions_for_baseline, pick}

-- World states are numbers here.
abbrev world_1 : Dict Name (List ℕ)
world_1 = (codes "f2#0", 7 ∷ []) ∷ (codes "f4#1", 8 ∷ []) ∷ []

abbrev pub settings_4 : Settings
settings_4 = record {
  seq_len_limit = 4;
  consider_all_reads = false;
  preprocessing_exception = false;
  p1_dl = 1;
}

abbrev pub search_0 : Search ℕ
search_0 = record {
  world_states = [];
  pending = [];
  flag_one_start_function = false;
  preprocess_timeout = false;
  preprocess_coverage = record { covered = 9; total = 10 };
  function_assignment = self_2;
}

abbrev draws_0 : ℕ → Draw
draws_0 n = last_numbers

abbrev after_f3 : FunctionAssignment
after_f3 = record_assignment (codes "f3" ∷ []) self_2

unfoldable pub program : Unit {0}
unfolding new_function_assignment assign_functions record_assignment get_ftn_seq_from_key_1
    fallback_case list_beq contains new_fwrg_manager get_children_fwrg_T_A read_children lookup
    dedup insert has_key assign_states_dfs assign_states_bfs assign_states_baseline next_functions
    assign_functions_for_baseline random_indices pick countdown
program = tt

-- `BFS` takes the first state, `DFS` the last; `f4` has no children, so that `f2` is next there too.
abbrev after_bfs : Search ℕ
after_bfs = record search_0 {
  world_states = world_1;
  pending = codes "f4#1" ∷ [];
  function_assignment = after_f3;
}

bfs_run :
    assign_states_bfs dedup_order settings_4 draws_0 targets_2 world_1 search_0
    ≡ some (execute_on (codes "f2#0") (codes "f3" ∷ []), after_bfs)
unfolding program
bfs_run = refl

abbrev after_dfs : Search ℕ
after_dfs = record search_0 { world_states = world_1; pending = []; function_assignment = after_f3 }

dfs_run :
    assign_states_dfs dedup_order settings_4 draws_0 targets_2 world_1 search_0
    ≡ some (execute_on (codes "f2#0") (codes "f3" ∷ []), after_dfs)
unfolding program
dfs_run = refl

abbrev baseline_0 : Search ℕ
baseline_0 = record search_0 {
  function_assignment = new_function_assignment 5 functions_4 manager_2 2;
}

abbrev after_baseline : Search ℕ
after_baseline = record baseline_0 { world_states = world_1; pending = codes "f4#1" ∷ [] }

baseline_run :
    assign_states_baseline settings_4 draws_0 world_1 baseline_0
    ≡ some (execute_on (codes "f2#0") (codes "f1" ∷ []), after_baseline)
unfolding program
baseline_run = refl

baseline_0-IsReady : IsReady 4 baseline_0
baseline_0-IsReady = record { saved = tt; short = tt }

assign_states_baseline-IsReady_example :
    IsReady 4 after_baseline
    × IsExecutable 4 after_baseline (execute_on (codes "f2#0") (codes "f1" ∷ []))
assign_states_baseline-IsReady_example =
    assign_states_baseline-IsReady settings_4 draws_0 world_1 baseline_0 after_baseline
      (execute_on (codes "f2#0") (codes "f1" ∷ [])) baseline_0-IsReady baseline_run

-- The second state gets the functions.
abbrev assign_second : ℕ → Assign
assign_second zero state_key self = some ([], self)
assign_second (suc n) state_key self = some (codes "f3" ∷ [], self)

pick_second :
    pick_state assign_second (codes "f4#1" ∷ codes "f2#0" ∷ []) self_2
    ≡ some (record {
      choice = some (codes "f2#0", codes "f3" ∷ []);
      left = [];
      function_assignment = self_2;
    })
unfolding pick_state
pick_second = refl

abbrev sequences_2 : List Seq
sequences_2 = (codes "f1" ∷ codes "f4" ∷ []) ∷ (codes "f2" ∷ codes "f3" ∷ codes "f4" ∷ []) ∷ []

next_functions_2 : next_functions (codes "f2" ∷ []) sequences_2 ≡ codes "f3" ∷ []
unfolding program
next_functions_2 = refl

next_functions_iff_example :
    (contains (next_functions (codes "f2" ∷ []) sequences_2) (codes "f3") ≡ true)
    ↔ GoesOn (codes "f2" ∷ []) sequences_2 (codes "f3")
next_functions_iff_example = next_functions_iff (codes "f2" ∷ []) sequences_2 (codes "f3")
