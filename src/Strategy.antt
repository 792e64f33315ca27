-- ===== src/Strategy.antt =====
-- The search strategies of fdg/control/ftn_search_strategy.py: the base class, `DFS`, `BFS` and
-- `RandomBaseline`. Class `Seq` is in Strategy/Sequences. `World` is the type of the symbolic
-- executor's world states; `deepcopy` of them is the identity.
pub mod Sequences
pub mod Pick
pub mod Saved
pub mod Takes
pub mod Tests
use smart_executor.Reach.{SetOrder}
use smart_executor.Assign.Random.{Draw, assign_functions_timeout, assign_functions_for_baseline}
use smart_executor.Keys.{get_ftn_seq_from_key_1, Name}
use smart_executor.Assign.{
  assign_all_functions, FunctionAssignment, Coverage, is_below, assign_functions,
}
use smart_executor.Prelude.{
  ◌>>=◌, nat_eq, list_eq, Dict, entry, lookup, insert, has_key, pop, ℕ, suc, Bool, true, false,
  ◌||◌, Option, none, some, List, [], ◌∷◌, ◌++◌, leb, if◌then◌else◌, length, ◌==◌, ◌+◌, ◌&&◌,
}

-- What the strategies read of fdg/global_config.py.
pub record Settings : Type 0 where
  pub seq_len_limit : ℕ
  pub consider_all_reads : Bool
  pub preprocessing_exception : Bool
  pub p1_dl : ℕ

-- The answer of `assign_states`: the functions to execute on each chosen state, and the flag, where
-- `none` is `None`.
pub record Answer : Type 0 where
  pub states_functions : Dict Name (List Name)
  pub deletable : Option Bool

abbrev pub nothing_left : Answer
nothing_left = record { states_functions = []; deletable = none }

abbrev pub execute_on : Name → List Name → Answer
execute_on state_key functions = record {
  states_functions = (state_key, functions) ∷ [];
  deletable = some true;
}

-- The fields that `DFS` and `BFS` share. `pending` is the queue, or the stack from its top on: its
-- head is what the next `pop` gives.
pub record Search (World : Type 0) : Type 0 where
  pub world_states : Dict Name (List World)
  pub pending : List Name
  pub flag_one_start_function : Bool
  pub preprocess_timeout : Bool
  pub preprocess_coverage : Coverage
  pub function_assignment : FunctionAssignment

module _ {World : Type 0} where
  -- `save_states`, `get_states` and `delete_state` of the base class
  unfoldable pub save_states : Name → List World → Dict Name (List World) → Dict Name (List World)
  unfolding has_key lookup insert
  save_states key states world_states =
      if has_key key world_states
      then insert key (entry key world_states ++ states) world_states
      else insert key states world_states

  unfoldable pub get_states : Name → Dict Name (List World) → List World
  unfolding lookup
  get_states key world_states = entry key world_states

  unfoldable pub delete_state : Name → Dict Name (List World) → Dict Name (List World)
  unfolding has_key pop
  delete_state key world_states =
      if has_key key world_states then pop key world_states else world_states

  -- `initialize`, on what the constructor set
  unfoldable pub initialize : Bool → Bool → Coverage → FunctionAssignment → Search World
  initialize flag_one_start_function preprocess_timeout preprocess_coverage function_assignment =
      record {
        world_states = [];
        pending = [];
        flag_one_start_function = flag_one_start_function;
        preprocess_timeout = preprocess_timeout;
        preprocess_coverage = preprocess_coverage;
        function_assignment = function_assignment;
      }

  -- A state of a sequence below the limit is saved, and its key is put where `push` says.
  unfoldable pub add_state :
      (Name → List Name → List Name) → ℕ → Name → List World → Search World → Search World
  unfolding get_ftn_seq_from_key_1 insert
  add_state push seq_len_limit key states self =
      if leb seq_len_limit (length (get_ftn_seq_from_key_1 key)) then self else record self {
        world_states = insert key states self.world_states;
        pending = push key self.pending;
      }

  -- `for key, states in states_dict.items()`
  unfoldable pub add_states :
      (Name → List Name → List Name) → ℕ → Dict Name (List World) → Search World → Search World
  unfolding add_state
  add_states push seq_len_limit [] self = self
  add_states push seq_len_limit ((key, states) ∷ states_dict) self =
      add_states push seq_len_limit states_dict (add_state push seq_len_limit key states self)

-- What the `while` loop leaves: the chosen state with its functions, the keys that are left, and
-- the function assignment.
pub record Picked : Type 0 where
  pub choice : Option (Name × List Name)
  pub left : List Name
  pub function_assignment : FunctionAssignment

abbrev pub Assign : Type 0
Assign = Name → FunctionAssignment → Option (List Name × FunctionAssignment)

-- `while True`, by the keys left; the `n`th round assigns by `assign n`.
unfoldable pub pick_state : (ℕ → Assign) → List Name → FunctionAssignment → Option Picked
pick_state assign [] self = some (record { choice = none; left = []; function_assignment = self })
pick_state assign (state_key ∷ pending) self = assign 0 state_key self >>= λ (functions, after).
    elim functions [
      | [] ↦ pick_state (λ n. assign (suc n)) pending after
      | f ∷ fs ↦ some (record {
        choice = some (state_key, f ∷ fs);
        left = pending;
        function_assignment = after;
      })
    ]

abbrev pub answer_of : Option (Name × List Name) → Answer
answer_of none = nothing_left
answer_of (some (state_key, functions)) = execute_on state_key functions

-- How many tenths of the functions are selected after a timeout.
abbrev pub selected_share : Coverage → ℕ
selected_share coverage =
    if is_below 50 coverage then 7 else (if is_below 80 coverage then 5 else 3)

-- `if self.flag_one_start_function`, by the pending keys; `none` is the `IndexError` of `pop`.
unfoldable pub assign_first :
    {World : Type 0} → Search World → List Name → Option (Answer × Search World)
unfolding assign_all_functions
assign_first self [] = none
assign_first self (state_key ∷ pending) =
    let (functions, after) = assign_all_functions self.function_assignment in
    some (
      execute_on state_key functions,
      record self {
        pending = pending;
        flag_one_start_function = false;
        function_assignment = after;
      },
    )

-- `assign_states` behind the loop that saves the states. `none` is an exception there, or in the
-- function assignment.
unfoldable pub choose_state :
    {World : Type 0} → (ℕ → Assign) → Search World → Option (Answer × Search World)
unfolding assign_first pick_state
choose_state assign self =
    if self.flag_one_start_function then assign_first self self.pending else (do
      picked ← pick_state assign self.pending self.function_assignment
      some (
        answer_of picked.choice,
        record self { pending = picked.left; function_assignment = picked.function_assignment },
      ))

-- `stack.append(key)`, by a stack that is listed from its top on, and `queue.append(key)`
abbrev pub on_top : Name → List Name → List Name
on_top key stack = key ∷ stack

abbrev pub at_end : Name → List Name → List Name
at_end key queue = queue ++ key ∷ []

module _ (order : SetOrder) (settings : Settings) (draws : ℕ → Draw) where
  -- The body of the loop in `DFS` and `BFS`.
  unfoldable pub assign_round : Bool → Coverage → List (Name × Coverage) → ℕ → Assign
  unfolding assign_functions_timeout assign_functions
  assign_round preprocess_timeout preprocess_coverage dk_functions n state_key self =
      if preprocess_timeout || settings.preprocessing_exception
      then assign_functions_timeout order settings.seq_len_limit (draws n) state_key dk_functions
          (selected_share preprocess_coverage) self
      else assign_functions order settings.consider_all_reads settings.seq_len_limit state_key
          dk_functions [] [] self

  module _ {World : Type 0} (dk_functions : List (Name × Coverage))
      (states_dict : Dict Name (List World)) (self : Search World) where
    -- `DFS.assign_states`
    unfoldable pub assign_states_dfs : Option (Answer × Search World)
    unfolding add_states choose_state assign_round
    assign_states_dfs =
        choose_state (assign_round self.preprocess_timeout self.preprocess_coverage dk_functions)
          (add_states on_top settings.seq_len_limit states_dict self)

    -- `BFS.assign_states`
    unfoldable pub assign_states_bfs : Option (Answer × Search World)
    unfolding add_states choose_state assign_round
    assign_states_bfs =
        choose_state (assign_round self.preprocess_timeout self.preprocess_coverage dk_functions)
          (add_states at_end settings.seq_len_limit states_dict self)

-- `RandomBaseline.assign_states`, which has no preprocessing
unfoldable pub assign_states_baseline :
    {World : Type 0}
    → Settings
    → (ℕ → Draw)
    → Dict Name (List World)
    → Search World
    → Option (Answer × Search World)
unfolding add_states choose_state assign_functions_for_baseline
assign_states_baseline settings draws states_dict self =
    choose_state (λ n state_key. assign_functions_for_baseline (draws n))
      (add_states at_end settings.seq_len_limit states_dict self)

-- `termination` of the strategies
unfoldable pub termination_dfs : ℕ → ℕ → Bool
termination_dfs states_num iteration = leb iteration 2 && states_num == 0

unfoldable pub termination_bfs : Settings → ℕ → ℕ → Bool
termination_bfs settings states_num iteration =
    leb iteration (settings.p1_dl + 1) && states_num == 0

unfoldable pub termination_baseline : {World : Type 0} → Search World → ℕ → ℕ → Bool
termination_baseline self states_num iteration =
    if leb iteration 1 then states_num == 0 else length self.pending == 0
