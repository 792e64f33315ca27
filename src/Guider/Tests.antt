-- ===== src/Guider/Tests.antt =====
-- Keys for the states of an iteration. A world state is the sequence that annotates it.
use smart_executor.Dispatcher.{Instruction}
use smart_executor.Guider.Runs.{Run-dfs-IsGuided, iterates, begins, Run-bfs-IsGuided}
use smart_executor.Guider.Strategies.{dfs, bfs}
use smart_executor.Assign.Random.{Draw}
use smart_executor.Reach.Tests.{dedup_order}
use smart_executor.Dispatcher.Modify.{WorldState, modity_on_multiple_states}
use smart_executor.Guider.Started.{start_iteration_dfs}
use smart_executor.Assign.Tests.{self_2, targets_2, last_numbers}
use smart_executor.Guider.Guided.{IsGuided}
use smart_executor.Guider.Iterate.{start_iteration, Guider, share_codes}
use smart_executor.Strategy.{execute_on, assign_states_dfs, Search, delete_state, initialize}
use smart_executor.Guider.Prepared.{StartsWith}
use smart_executor.Dispatcher.Tests.{
  ids_2, fed_2, has_contract_2, code_2, state_2, feeds_2, group_0, group_1, group_2, bodies,
}
use smart_executor.Strategy.Tests.{program, settings_4}
use smart_executor.Assign.{record_assignment}
use smart_executor.Prelude.{
  list_beq, contains, values, ◌≡◌, refl, Option, some, List, [], ◌∷◌, codes, All, nat_eq, list_eq,
  ℕ, false, pop, none, ◌++◌, map, take, drop, lookup, insert,
}
use smart_executor.Guider.{key_seq, organize_states}
use smart_executor.Paths.{Seq}
use smart_executor.Guider.Distinct.{IsNamed, kept_states, values-organize_states}

abbrev seq_of : Seq → Option Seq
seq_of state = some state

abbrev states_3 : List Seq
states_3 = (codes "f1" ∷ []) ∷ [] ∷ (codes "f1" ∷ codes "f2" ∷ []) ∷ (codes "f1" ∷ []) ∷ []

states_3-IsNamed : All (IsNamed seq_of 2) states_3
unfolding key_seq contains
states_3-IsNamed = ((refl, tt), ((refl, tt), (tt, ((refl, tt), tt))))

-- The second `f1` gets a key of its own, and the sequence at the limit none.
states_3-keys :
    (organize_states seq_of 2 states_3 7).0
    ≡ (codes "f1#7", (codes "f1" ∷ []) ∷ [])
      ∷ (codes "constructor#8", [] ∷ [])
      ∷ (codes "f1#9", (codes "f1" ∷ []) ∷ [])
      ∷ []
unfolding organize_states list_beq
states_3-keys = refl

values-organize_states_example :
    values (organize_states seq_of 2 states_3 7).0 ≡ kept_states seq_of 2 states_3
values-organize_states_example = values-organize_states seq_of 2 states_3 7 states_3-IsNamed

-- The world state after a call of `f2`, with the contract of two functions.
abbrev pub state_f2 : WorldState
state_f2 = record state_2 { ftn_seq = some (codes "f2" ∷ []) }

abbrev pub draws_3 : ℕ → ℕ → Draw
draws_3 iteration n = last_numbers

abbrev pub start_0 : Guider (Search WorldState)
start_0 = record {
  ftn_search_strategy = record {
    world_states = [];
    pending = [];
    flag_one_start_function = false;
    preprocess_timeout = false;
    preprocess_coverage = record { covered = 9; total = 10 };
    function_assignment = self_2;
  };
  instruction_modification = fed_2;
  termination = false;
  genesis_states = [];
  state_index = 0;
}

abbrev picked_0 : Search WorldState
picked_0 = record start_0.ftn_search_strategy {
  world_states = (codes "f2#0", state_f2 ∷ []) ∷ [];
  function_assignment = record_assignment (codes "f3" ∷ []) self_2;
}

-- `f2` is the last function of the state, and `f3` is to be executed on it.
dfs_answer :
    assign_states_dfs dedup_order settings_4
      (draws_3 3)
      targets_2
      (organize_states (λ w. w.ftn_seq) 4 (state_f2 ∷ []) 0).0
      start_0.ftn_search_strategy
    ≡ some (execute_on (codes "f2#0") (codes "f3" ∷ []), picked_0)
unfolding program organize_states
dfs_answer = refl

state_f2-IsNamed : All (IsNamed (λ w. w.ftn_seq) 4) (state_f2 ∷ [])
unfolding key_seq contains
state_f2-IsNamed = ((refl, tt), tt)

start_0-IsGuided : IsGuided 4 9 0 start_0.ftn_search_strategy
unfolding values
start_0-IsGuided = record {
  ready = record { saved = tt; short = tt };
  distinct = tt;
  made = tt;
  held = tt;
}

start_iteration_dfs_example :
    (prepared : List WorldState) × (after : Guider (Search WorldState)) × (start_iteration
        (dfs dedup_order settings_4 draws_3)
        4
        targets_2
        3
        (state_f2 ∷ [])
        start_0
      ≡ some (prepared, after))
    × IsGuided 4 9 after.state_index after.ftn_search_strategy
    × (after.instruction_modification ≡ fed_2)
    × StartsWith 9 code_2 picked_0.world_states prepared
start_iteration_dfs_example =
    start_iteration_dfs ids_2 9 code_2 fed_2 feeds_2 dedup_order settings_4 draws_3 targets_2 3 refl
      (state_f2 ∷ []) start_0 refl state_f2-IsNamed (has_contract_2, tt) start_0-IsGuided
      (execute_on (codes "f2#0") (codes "f3" ∷ [])) picked_0 dfs_answer

abbrev empty_of : Instruction → Instruction
empty_of i = record { address = i.address; opcode = codes "EMPTY"; argument = none }

-- `f3` is no function of the contract: all functions are replaced, and the last `DUP1`.
abbrev no_function : List Instruction
no_function = take 9 group_0 ++ map empty_of (drop 9 group_0 ++ group_1 ++ group_2) ++ bodies

abbrev after_f2 : Guider (Search WorldState)
after_f2 = record start_0 {
  ftn_search_strategy = record picked_0 { world_states = [] };
  state_index = 1;
}

first_iteration :
    start_iteration (dfs dedup_order settings_4 draws_3) 4 targets_2 3 (state_f2 ∷ []) start_0
    ≡ some (
      record state_f2 {
        accounts =
            (9, record { identity = 0; instruction_list = no_function; func_hashes = [] }) ∷ [];
      }
          ∷ [],
      after_f2,
    )
unfolding program start_iteration modity_on_multiple_states delete_state pop
first_iteration = refl

Run-dfs-IsGuided_example : IsGuided 4 9 1 after_f2.ftn_search_strategy
unfolding initialize
Run-dfs-IsGuided_example =
    Run-dfs-IsGuided ids_2 9 code_2 fed_2 feeds_2 dedup_order settings_4 draws_3 after_f2 (
      iterates targets_2 3 (state_f2 ∷ []) _
        (begins false false (record { covered = 9; total = 10 }) self_2 [] 0) refl state_f2-IsNamed
        (has_contract_2, tt) first_iteration)

first_bfs_iteration :
    start_iteration (bfs dedup_order settings_4 draws_3) 4 targets_2 3 (state_f2 ∷ []) start_0
    ≡ some (
      record state_f2 {
        accounts =
            (9, record { identity = 0; instruction_list = no_function; func_hashes = [] }) ∷ [];
      }
          ∷ [],
      after_f2,
    )
unfolding program start_iteration modity_on_multiple_states delete_state pop
first_bfs_iteration = refl

Run-bfs-IsGuided_example : IsGuided 4 9 1 after_f2.ftn_search_strategy
unfolding initialize
Run-bfs-IsGuided_example =
    Run-bfs-IsGuided ids_2 9 code_2 fed_2 feeds_2 dedup_order settings_4 draws_3 after_f2 (
      iterates targets_2 3 (state_f2 ∷ []) _
        (begins false false (record { covered = 9; total = 10 }) self_2 [] 0) refl state_f2-IsNamed
        (has_contract_2, tt) first_bfs_iteration)

-- The code that two states share is the one of the last change.
abbrev state_f2_later : WorldState
state_f2_later = record state_f2 {
  accounts = (9, record { identity = 0; instruction_list = no_function; func_hashes = [] }) ∷ [];
}

shared : share_codes 9 (state_f2_later ∷ []) (state_f2 ∷ []) ≡ state_f2_later ∷ []
unfolding share_codes lookup insert
shared = refl
