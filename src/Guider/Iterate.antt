-- ===== src/Guider/Iterate.antt =====
-- Class `Guider` of fdg/control/guider.py: the steps around an iteration of the symbolic executor.
-- `deepcopy` of a state copies all but the codes of its
-- accounts, and `none` is an exception.
use smart_executor.Prelude.{
  option_eq, ◌>>=◌, prepend, ◌==◌, list_beq, contains, Dict, lookup, keys, ℕ, Bool, false, ◌||◌,
  Option, none, some, List, [], ◌∷◌, ◌++◌, ltb, if◌then◌else◌, codes, length, head?, nat_eq,
  list_eq, maybe, insert,
}
use smart_executor.Strategy.{Answer}
use smart_executor.Mine.{constructor_name}
use smart_executor.Keys.{Name}
use smart_executor.Assign.{Coverage}
use smart_executor.Dispatcher.Modify.{WorldState, modity_on_multiple_states, Code}
use smart_executor.Dispatcher.{new_modification, InstructionModification}
use smart_executor.Guider.{organize_states}

-- Class `FunctionSearchStrategy` of fdg/control/ftn_search_strategy.py, as the guider uses it.
pub record FunctionSearchStrategy (S : Type 0) : Type 0 where
  pub name : Name
  pub assign_states :
      List (Name × Coverage) → Dict Name (List WorldState) → ℕ → S → Option (Answer × S)
  pub world_states : S → Dict Name (List WorldState)
  pub delete_state : Name → S → S
  pub update_states : Dict Name (List WorldState) → S → S
  pub assigned_at_last : Name → S → S
  pub termination : ℕ → ℕ → S → Bool

pub record Guider (S : Type 0) : Type 0 where
  pub ftn_search_strategy : S
  pub instruction_modification : InstructionModification
  pub termination : Bool
  pub genesis_states : List WorldState
  pub state_index : ℕ

module _ {S : Type 0} where
  -- `Guider.__init__`
  unfoldable pub new_guider : S → Dict Name Name → Guider S
  new_guider ftn_search_strategy method_identifiers = record {
    ftn_search_strategy = ftn_search_strategy;
    instruction_modification = new_modification method_identifiers;
    termination = false;
    genesis_states = [];
    state_index = 0;
  }

-- The code in the last of the states that has this object.
unfoldable pub last_code : ℕ → ℕ → List WorldState → Option Code
unfolding lookup
last_code address identity [] = none
last_code address identity (state ∷ states) =
    maybe (last_code address identity states)
      (lookup address state.accounts >>= λ code.
        if code.identity == identity then some code else none)
      (λ code. some code)

unfoldable pub share_code : ℕ → List WorldState → WorldState → WorldState
unfolding last_code lookup insert
share_code address later state =
    maybe (lookup address state.accounts >>= λ code. last_code address code.identity later) state
      (λ code. record state { accounts = insert address code state.accounts })

-- What is done later to a code object is seen in all states that share it.
unfoldable pub share_codes : ℕ → List WorldState → List WorldState → List WorldState
unfolding share_code
share_codes address later [] = []
share_codes address later (state ∷ states) =
    share_code address later state ∷ share_codes address later states

-- The loop of `_prepare_states` over the states.
unfoldable pub modify_states :
    InstructionModification
    → Dict Name (List Name)
    → Dict Name (List WorldState)
    → Option (List WorldState)
unfolding lookup share_codes
modify_states modification states_functions [] = some []
modify_states modification states_functions ((key, states) ∷ states_dict) =
    let rest = modify_states modification states_functions states_dict in
    lookup key states_functions >>= λ next_functions.
    if ltb 0 (length next_functions)
    then (modity_on_multiple_states modification states next_functions >>= λ modified.
        rest >>= λ modified_states.
        some
          (share_codes modification.contract_address modified_states modified ++ modified_states))
    else rest

-- The states of the keys that have functions, from `world_states`.
unfoldable pub states_to_execute :
    Dict Name (List Name) → Dict Name (List WorldState) → Option (Dict Name (List WorldState))
unfolding lookup
states_to_execute [] world_states = some []
states_to_execute ((key, functions) ∷ states_functions) world_states =
    let rest = states_to_execute states_functions world_states in
    if ltb 0 (length functions)
    then (lookup key world_states >>= λ states. prepend (key, states) rest)
    else rest

-- `if flag_wd_del`, where `None` is false
abbrev pub is_set : Option Bool → Bool
is_set none = false
is_set (some flag) = flag

module _ {S : Type 0} (strategy : FunctionSearchStrategy S) (seq_len_limit : ℕ) where
  unfoldable pub delete_states : List Name → S → S
  delete_states [] s = s
  delete_states (key ∷ keys) s = delete_states keys (strategy.delete_state key s)

  unfoldable pub prepare_states :
      Dict Name (List WorldState)
      → Dict Name (List Name)
      → Bool
      → Guider S
      → Option (List WorldState × Guider S)
  unfolding modify_states delete_states keys
  prepare_states states_dict states_functions flag_wd_del self =
      modify_states self.instruction_modification states_functions states_dict
      >>= λ modified_states. some (
        modified_states,
        if flag_wd_del
            then record self {
              ftn_search_strategy = delete_states (keys states_dict) self.ftn_search_strategy;
            }
            else self,
      )

  -- `organize_states` on the object
  unfoldable pub organize : List WorldState → Guider S → Dict Name (List WorldState) × Guider S
  unfolding organize_states
  organize states self =
      let (states_dict, state_index) =
        organize_states (λ w. w.ftn_seq) seq_len_limit states self.state_index in
      (states_dict, record self { state_index = state_index })

  -- The states that are assigned functions, and their preparation.
  unfoldable pub prepare_assigned : Answer → Bool → Guider S → Option (List WorldState × Guider S)
  unfolding states_to_execute prepare_states
  prepare_assigned answer flag_wd_del self =
      states_to_execute answer.states_functions (strategy.world_states self.ftn_search_strategy)
      >>= λ states_dict. prepare_states states_dict answer.states_functions flag_wd_del self

  module _ (dk_functions : List (Name × Coverage)) (iteration : ℕ) where
    -- `start_iteration` with the strategy `seq`
    unfoldable pub start_iteration_seq :
        List WorldState → Guider S → Option (List WorldState × Guider S)
    unfolding organize prepare_states prepare_assigned
    start_iteration_seq open_states self =
        if iteration == 1
        then (let states_dict = (constructor_name, open_states) ∷ [] in
            strategy.assign_states [] states_dict iteration self.ftn_search_strategy
            >>= λ (answer, s).
                prepare_states states_dict answer.states_functions (is_set answer.deletable)
                  (record self { ftn_search_strategy = s }))
        else (let (states_dict, organized) = organize open_states self in
            strategy.assign_states [] states_dict iteration organized.ftn_search_strategy
            >>= λ (answer, s).
                let assigned = record organized { ftn_search_strategy = s } in
                if ltb 0 (length answer.states_functions)
                then prepare_assigned answer (is_set answer.deletable) assigned
                else some (open_states, assigned))

    -- `start_iteration` with the strategy `baseline`
    unfoldable pub start_iteration_baseline :
        List WorldState → Guider S → Option (List WorldState × Guider S)
    unfolding organize prepare_assigned
    start_iteration_baseline open_states self =
        if iteration == 1
        then some (self.genesis_states, self)
        else (let (states_dict, organized) = organize open_states self in
            strategy.assign_states [] states_dict iteration organized.ftn_search_strategy
            >>= λ (answer, s).
                prepare_assigned answer false (record organized { ftn_search_strategy = s }))

    -- `start_iteration` with the strategies `bfs`, `dfs` and `mine`
    unfoldable pub start_iteration_search :
        List WorldState → Guider S → Option (List WorldState × Guider S)
    unfolding organize prepare_assigned
    start_iteration_search open_states self =
        if iteration == 2
        then some (self.genesis_states, self)
        else (let (states_dict, organized) = organize open_states self in
            strategy.assign_states dk_functions states_dict iteration organized.ftn_search_strategy
            >>= λ (answer, s). prepare_assigned answer (is_set answer.deletable) (record organized {
              ftn_search_strategy = s;
              termination = length answer.states_functions == 0 || organized.termination;
            }))

    unfoldable pub start_iteration :
        List WorldState → Guider S → Option (List WorldState × Guider S)
    unfolding start_iteration_seq start_iteration_baseline start_iteration_search list_beq
    start_iteration open_states self =
        if strategy.name == codes "seq"
        then start_iteration_seq open_states self
        else (if strategy.name == codes "baseline"
            then start_iteration_baseline open_states self
            else start_iteration_search open_states self)

  -- `end_iteration`. The length of the last sequence is passed to `termination`, which no strategy
  -- reads.
  unfoldable pub end_iteration : List WorldState → ℕ → Guider S → Guider S
  end_iteration open_states iteration self = record self {
    termination = strategy.termination (length open_states) iteration self.ftn_search_strategy;
  }

  -- `save_genesis_states`; `none` is the IndexError for no state.
  unfoldable pub save_genesis_states : List WorldState → Guider S → Option (Guider S)
  unfolding organize keys list_beq
  save_genesis_states states self =
      let saved = record self { genesis_states = states } in
      if strategy.name == codes "mine"
      then (let (states_dict, organized) = organize states saved in
          head? (keys states_dict) >>= λ key. some (record organized {
            ftn_search_strategy =
                strategy.assigned_at_last key
                  (strategy.update_states states_dict organized.ftn_search_strategy);
          }))
      else some saved

-- `get_start_sequence`
unfoldable pub start_sequences_from :
    List (Option (List Name)) → List WorldState → List (Option (List Name))
unfolding contains
start_sequences_from found [] = found
start_sequences_from found (state ∷ states) =
    start_sequences_from
      (if contains found state.ftn_seq then found else found ++ state.ftn_seq ∷ []) states

unfoldable pub get_start_sequence : List WorldState → List (Option (List Name))
unfolding start_sequences_from
get_start_sequence open_states = start_sequences_from [] open_states
