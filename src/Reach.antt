-- ===== src/Reach.antt =====
-- Bounded reachability: `can_reach_targets` and `get_targets_be_reached` of class
-- `FunctionAssignment`, fdg/control/function_assignment.py. `children` is the graph's
-- `get_children_fwrg_T_A`.
pub mod Within
pub mod Decide
pub mod Collect
pub mod Tests
use smart_executor.Keys.{Name}
use smart_executor.Prelude.{
  nat_eq, list_eq, Nodup, contains, filter_by, ℕ, zero, suc, ◌≡◌, Bool, true, false, ◌&&◌, not,
  Option, none, some, List, ◌∷◌, ◌++◌, ltb, if◌then◌else◌, length, [],
}

-- `list(set(names))`. Python leaves the order of a set open.
pub record SetOrder : Type 0 where
  pub list_set : List Name → List Name
  pub contains-list_set :
      (names : List Name) (a : Name) → contains (list_set names) a ≡ contains names a
  pub list_set-Nodup : (names : List Name) → Nodup (list_set names)

module _ (order : SetOrder) (children : Name → List Name) (targets : List Name) where
  -- `for func in functions`; `none` is the `return True`, else it is `all_children`.
  unfoldable pub scan_functions : List Name → List Name → Option (List Name)
  unfolding contains filter_by
  scan_functions [] all_children = some all_children
  scan_functions (func ∷ functions) all_children =
      if ltb 0 (length (filter_by (contains targets) (children func)))
      then none
      else scan_functions functions (all_children ++ children func)

  -- `while depth<max_depth`, by the rounds left
  unfoldable pub reach_rounds : ℕ → List Name → Bool
  unfolding scan_functions
  reach_rounds zero functions = false
  reach_rounds (suc rounds) functions = elim (scan_functions functions []) [
    | none ↦ true
    | some all_children ↦ reach_rounds rounds (order.list_set all_children)
  ]

  unfoldable pub can_reach_targets : Name → ℕ → Bool
  unfolding contains reach_rounds
  can_reach_targets ftn max_depth =
      if contains targets ftn then true else reach_rounds max_depth (ftn ∷ [])

  -- `for child in children`
  unfoldable pub collect_reached : List Name → List Name → List Name
  unfolding contains
  collect_reached [] reached = reached
  collect_reached (child ∷ cs) reached = collect_reached cs (
      if contains targets child && not (contains reached child)
      then reached ++ child ∷ []
      else reached)

  -- `for func in functions`: `targets_be_reached` and `all_children`
  unfoldable pub collect_functions : List Name → List Name × List Name → List Name × List Name
  unfolding collect_reached
  collect_functions [] found = found
  collect_functions (func ∷ functions) (reached, all_children) =
      collect_functions functions
        (collect_reached (children func) reached, all_children ++ children func)

  unfoldable pub collect_rounds : ℕ → List Name → List Name → List Name
  unfolding collect_functions
  collect_rounds zero functions reached = reached
  collect_rounds (suc rounds) functions reached =
      let found = collect_functions functions (reached, []) in
      collect_rounds rounds (order.list_set found.1) found.0

  unfoldable pub get_targets_be_reached : Name → ℕ → List Name
  unfolding contains collect_rounds
  get_targets_be_reached ftn max_depth =
      collect_rounds max_depth (ftn ∷ []) (if contains targets ftn then ftn ∷ [] else [])
