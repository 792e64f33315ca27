-- ===== src/Mine/Tests.antt =====
-- Runs of `Mine` on the contract of `test_2` in fdg/fwrg_manager.py.
use smart_executor.Assign.Counted.{HasCounters}
use smart_executor.Mine.Filter.Passed.{IsPassedOver}
use smart_executor.Prelude.{
  list_beq, contains, Dict, lookup, append_at, ℕ, ◌+◌, ◌/◌, ◌≤◌, ◌≡◌, refl, true, some, List, [],
  ◌∷◌, is_some, codes, All, nat_eq, list_eq, has_key, ◌<◌, none, length,
}
use smart_executor.Mine.Filter.Kept.{filter_queue_lem}
use smart_executor.Assign.Tests.{last_numbers, not_reachable-counted, targets_2-counted, targets_2}
use smart_executor.Manager.{new_fwrg_manager}
use smart_executor.Mine.Pickup.Total.{pickup_a_state_total}
use smart_executor.Mine.Pickup.Highest.{pickup_a_state_lem}
use smart_executor.Strategy.Tests.{search_0}
use smart_executor.Reach.Tests.{dedup_order}
use smart_executor.Fwrg.{get_reads_in_conditions}
use smart_executor.Assign.Times.{occurrences}
use smart_executor.Mine.Rounds.{mine_rounds}
use smart_executor.Mine.Rounds.Enough.{mine_rounds_total}
use smart_executor.Assign.{new_function_assignment, assign_functions}
use smart_executor.Mine.Pickup.{
  shares, Scoring, break_a_tie, pickup_a_state, evaluate_state, reads_of_targets, state_value,
}
use smart_executor.Mine.{filter_queue, two_list_equal, Mine, starts_with, ends_with}
use smart_executor.Keys.{get_key_1_prefix, Name}

abbrev first_step : Dict ℕ (List Name)
first_step = (1, codes "b" ∷ []) ∷ []

abbrev written_4 : Dict Name (Dict ℕ (List Name))
written_4 =
    (codes "f2#0", first_step)
    ∷ (codes "f2#1", first_step)
    ∷ (codes "f2#2", first_step)
    ∷ (codes "f2#3", first_step)
    ∷ (codes "f3#4", first_step)
    ∷ []

abbrev queue_5 : List Name
queue_5 =
    codes "f2#0"
    ∷ codes "f2#1"
    ∷ codes "f2#2"
    ∷ codes "f2#3"
    ∷ codes "f3#4"
    ∷ codes "fallback#f3#fallback#5"
    ∷ []

abbrev kept_4 : List Name
kept_4 = codes "f2#0" ∷ codes "f2#1" ∷ codes "f2#2" ∷ codes "f3#4" ∷ []

whole_sum : List (ℕ × ℕ) → ℕ
whole_sum [] = 0
whole_sum ((n, d) ∷ quotients) = n / d + whole_sum quotients

-- The sum of the quotients by whole numbers stands for that of the floats.
abbrev scoring_0 : Scoring
scoring_0 = record { order = dedup_order; value = whole_sum; draw = last_numbers }

abbrev mine_0 : Mine ℕ
mine_0 = record {
  search = search_0;
  state_storage = (codes "f2#0", codes "b" ∷ []) ∷ (codes "f1#1", codes "a" ∷ []) ∷ [];
  written_slots_in_depth_str = [];
  state_key_assigned_at_last = [];
}

abbrev queue_2 : List Name
queue_2 = codes "f1#1" ∷ codes "f2#0" ∷ []

abbrev targets_f3 : List Name
targets_f3 = codes "f3" ∷ []

program : Unit {0}
unfolding filter_queue pickup_a_state list_beq contains new_function_assignment new_fwrg_manager
    whole_sum starts_with ends_with get_key_1_prefix append_at evaluate_state break_a_tie lookup
    shares reads_of_targets get_reads_in_conditions two_list_equal mine_rounds
program = tt

filter_run : filter_queue written_4 queue_5 ≡ some kept_4
unfolding program
filter_run = refl

filter_queue_lem_example :
    All
      (λ k.
        (contains queue_5 k ≡ true)
        × (p : Name) × (get_key_1_prefix k ≡ some p)
        × (¬ IsPassedOver p))
      kept_4
    × ((k p : Name)
        → contains queue_5 k ≡ true
        → get_key_1_prefix k ≡ some p
        → ¬ IsPassedOver p
        → (j : Name) × (contains kept_4 j ≡ true) × (get_key_1_prefix j ≡ some p))
filter_queue_lem_example = filter_queue_lem written_4 queue_5 kept_4 filter_run

-- `f3` reads the slot that the state after `f2` has written.
pickup_run :
    pickup_a_state scoring_0 mine_0 targets_f3 queue_2 ≡ some (codes "f2#0", codes "f1#1" ∷ [])
unfolding program
pickup_run = refl

pickup_a_state_lem_example :
    ((j : Name) → occurrences queue_2 j ≡ occurrences (codes "f2#0" ∷ codes "f1#1" ∷ []) j)
    × All
        (λ k.
          state_value scoring_0 mine_0 targets_f3 k
          ≤ state_value scoring_0 mine_0 targets_f3 (codes "f2#0"))
        queue_2
    × (1 < length queue_2
        → All (λ k. is_some (evaluate_state scoring_0 mine_0 targets_f3 k) ≡ true) queue_2)
pickup_a_state_lem_example =
    pickup_a_state_lem scoring_0 mine_0 targets_f3 queue_2 (codes "f2#0") (codes "f1#1" ∷ [])
      pickup_run

-- Without recorded storage the evaluation fails.
unrecorded :
    pickup_a_state scoring_0 (record mine_0 { state_storage = [] }) targets_f3 queue_2 ≡ none
unfolding program
unrecorded = refl

queue_2-stored : All (λ k. has_key k mine_0.state_storage ≡ true) queue_2
unfolding program has_key
queue_2-stored = (refl, (refl, tt))

pickup_a_state_total_example : is_some (pickup_a_state scoring_0 mine_0 targets_f3 queue_2) ≡ true
pickup_a_state_total_example =
    pickup_a_state_total scoring_0 mine_0 targets_f3 (codes "f1#1") (codes "f2#0" ∷ [])
      queue_2-stored

search_0-HasCounters : HasCounters targets_2 search_0.function_assignment
search_0-HasCounters = (targets_2-counted, not_reachable-counted)

mine_rounds_total_example :
    is_some (
      mine_rounds
        (λ n. scoring_0)
        (λ m state_key fa. assign_functions dedup_order true 4 state_key targets_2 [] [] fa)
        targets_f3
        0
        2
        queue_2
        mine_0)
    ≡ true
mine_rounds_total_example =
    mine_rounds_total (λ n. scoring_0) true 4 targets_2 targets_f3 0 queue_2 mine_0
      search_0-HasCounters queue_2-stored
