-- ===== src/Mine/Rounds.antt =====
-- `assign_states` of class `Mine`, fdg/control/mine.py. What is random or a choice of Python may be
-- another in each round: `scorings n` is that of the `n`th.
-- How many tenths of the functions are selected, by the coverage of the preprocessing.
pub mod Enough
use smart_executor.Prelude.{
  ◌>>=◌, Dict, ℕ, zero, suc, false, ◌||◌, Option, none, some, List, [], ◌∷◌, map, if◌then◌else◌,
  length, nat_eq, list_eq,
}
use smart_executor.Keys.{Name}
use smart_executor.Mine.{update_states, filter_states, Mine, WorldView}
use smart_executor.Assign.Random.{select_functions_randomly, assign_functions_timeout_mine}
use smart_executor.Reach.{SetOrder}
use smart_executor.Mine.Pickup.{Scoring, pickup_a_state}
use smart_executor.Assign.{
  FunctionAssignment, Coverage, assign_functions, assign_all_functions, is_below,
}
use smart_executor.Strategy.{Assign, Answer, nothing_left, Settings, execute_on}

abbrev pub mine_share : Coverage → ℕ
mine_share coverage =
    if is_below 50 coverage
    then 7
    else (if is_below 80 coverage then 5 else (if is_below 90 coverage then 3 else 1))

module _ {World : Type 0} where
  abbrev pub with_queue : List Name → Mine World → Mine World
  with_queue queue self = record self { search = record self.search { pending = queue } }

  abbrev pub with_assignment : FunctionAssignment → Mine World → Mine World
  with_assignment fa self = record self { search = record self.search { function_assignment = fa } }

  -- `while True`, by rounds; `none` where the rounds do not reach to the end of the queue.
  unfoldable pub mine_rounds :
      (ℕ → Scoring)
      → (ℕ → Assign)
      → List Name
      → ℕ
      → ℕ
      → List Name
      → Mine World
      → Option (Answer × Mine World)
  unfolding pickup_a_state
  mine_rounds scorings assign targets n fuel [] self = some (nothing_left, with_queue [] self)
  mine_rounds scorings assign targets n zero (key ∷ queue) self = none
  mine_rounds scorings assign targets n (suc fuel) (key ∷ queue) self =
      pickup_a_state (scorings n) self targets (key ∷ queue) >>= λ (state_key, rest).
      assign n state_key self.search.function_assignment >>= λ (functions, fa). elim functions [
        | [] ↦ mine_rounds scorings assign targets (suc n) fuel rest (with_assignment fa self)
        | f ∷ fs ↦ some (
          execute_on state_key (f ∷ fs),
          record (with_queue rest (with_assignment fa self)) {
            state_key_assigned_at_last = state_key;
          },
        )
      ]

  -- Case 1 of `assign_states_normal` and `assign_states_timeout`; `none` is `IndexError`.
  unfoldable pub assign_only : List Name → Mine World → Option (Answer × Mine World)
  unfolding assign_all_functions
  assign_only [] self = none
  assign_only (state_key ∷ queue) self =
      let (functions, fa) = assign_all_functions self.search.function_assignment in
      some (
        execute_on state_key functions,
        record self {
          search = record self.search {
            pending = queue;
            flag_one_start_function = false;
            function_assignment = fa;
          };
          state_key_assigned_at_last = state_key;
        },
      )

  module _ (order : SetOrder) (view : WorldView World) (settings : Settings)
      (scorings : ℕ → Scoring) where
    -- `if len(states_dict) > 0`: the states are saved and filtered.
    unfoldable pub save_new_states : Dict Name (List World) → Mine World → Option (Mine World)
    unfolding update_states filter_states
    save_new_states [] self = some self
    save_new_states ((key, states) ∷ states_dict) self =
        filter_states (update_states order view ((key, states) ∷ states_dict) self)

    -- Both cases, given how functions are assigned to a state.
    unfoldable pub assign_case :
        (ℕ → Assign) → List (Name × Coverage) → Mine World → Option (Answer × Mine World)
    unfolding assign_only mine_rounds
    assign_case assign dk_functions self =
        if self.search.flag_one_start_function
        then assign_only self.search.pending self
        else mine_rounds scorings assign (map (λ d. d.0) dk_functions) 0
            (length self.search.pending) self.search.pending self

    unfoldable pub assign_states_normal :
        List (Name × Coverage) → Dict Name (List World) → Mine World → Option (Answer × Mine World)
    unfolding save_new_states assign_case assign_functions
    assign_states_normal [] states_dict self = some (nothing_left, self)
    assign_states_normal (dk ∷ dk_functions) states_dict self =
        save_new_states states_dict self >>= λ saved.
        assign_case
          (λ n state_key fa.
            assign_functions (scorings n).order settings.consider_all_reads settings.seq_len_limit
              state_key (dk ∷ dk_functions) [] [] fa)
          (dk ∷ dk_functions) saved

    unfoldable pub assign_states_timeout :
        List (Name × Coverage)
        → Dict Name (List World)
        → ℕ
        → Mine World
        → Option (Answer × Mine World)
    unfolding save_new_states assign_case select_functions_randomly assign_functions_timeout_mine
    assign_states_timeout dk_functions states_dict percent_of_functions self =
        save_new_states states_dict self >>= λ saved.
        assign_case
          (λ n state_key fa.
            select_functions_randomly (scorings n).draw percent_of_functions fa >>= λ selected.
            assign_functions_timeout_mine (scorings n).order settings.seq_len_limit state_key
              dk_functions selected fa)
          dk_functions saved

    unfoldable pub assign_states_mine :
        List (Name × Coverage) → Dict Name (List World) → Mine World → Option (Answer × Mine World)
    unfolding assign_states_normal assign_states_timeout
    assign_states_mine dk_functions states_dict self =
        if self.search.preprocess_timeout || settings.preprocessing_exception
        then assign_states_timeout dk_functions states_dict
            (mine_share self.search.preprocess_coverage) self
        else assign_states_normal dk_functions states_dict self
