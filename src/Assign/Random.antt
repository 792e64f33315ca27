-- ===== src/Assign/Random.antt =====
-- The random choices of class `FunctionAssignment`, and its functions that use them:
-- `select_functions_randomly`, `assign_functions_for_baseline`, `assign_functions_timeout` and
-- `assign_functions_timeout_mine`, fdg/control/function_assignment.py.
pub mod Share
pub mod Timeout
use smart_executor.Keys.{Name}
use smart_executor.Paths.{Seq}
use smart_executor.Manager.{get_children_all_reads}
use smart_executor.Reach.{SetOrder}
use smart_executor.Assign.{
  Coverage, FunctionAssignment, unless_fallback, select_dk, reaching, permit_once,
  record_assignment,
}
use smart_executor.Prelude.{
  ◌>>=◌, nat_eq, list_eq, Nodup, contains, ℕ, suc, ◌+◌, ◌*◌, ◌/◌, ◌≤◌, ◌<◌, ◌≡◌, ◌&&◌, Option, none,
  some, List, [], ◌∷◌, ◌++◌, ltb, leb, if◌then◌else◌, length, All,
}

-- What `np.random.choice(range(n), size=k, replace=False)` gives: `k` different numbers below `n`.
pub record Draw : Type 0 where
  pub indices : ℕ → ℕ → List ℕ
  pub length-indices : (n k : ℕ) → k ≤ n → length (indices n k) ≡ k
  pub indices-Nodup : (n k : ℕ) → Nodup (indices n k)
  pub indices-All : (n k : ℕ) → All (λ i. i < n) (indices n k)

-- `random_indices(0, n - 1, k)`; more numbers than there are raise `ValueError`.
unfoldable pub random_indices : Draw → ℕ → ℕ → Option (List ℕ)
random_indices draw n k = if leb k n then some (draw.indices n k) else none

-- `[ftn for idx, ftn in enumerate(ftns) if idx in select_indices]`, from position `idx` on
unfoldable pub pick : List ℕ → ℕ → List Name → List Name
unfolding contains
pick select_indices idx [] = []
pick select_indices idx (ftn ∷ ftns) =
    let rest = pick select_indices (suc idx) ftns in
    if contains select_indices idx then ftn ∷ rest else rest

-- `math.ceil((percent/10)*n)`
abbrev pub share : ℕ → ℕ → ℕ
share percent n = (percent * n + 9) / 10

unfoldable pub select_share : Draw → ℕ → List Name → Option (List Name)
unfolding random_indices pick
select_share draw percent ftns =
    random_indices draw (length ftns) (share percent (length ftns)) >>= λ select_indices.
    some (pick select_indices 0 ftns)

unfoldable pub select_functions_randomly : Draw → ℕ → FunctionAssignment → Option (List Name)
unfolding select_share
select_functions_randomly draw percentage self = select_share draw percentage self.all_functions

unfoldable pub assign_functions_for_baseline :
    Draw → FunctionAssignment → Option (List Name × FunctionAssignment)
unfolding select_share
assign_functions_for_baseline draw self =
    let percent = if ltb 10 self.random_select_percent then 10 else self.random_select_percent in
    select_share draw percent self.all_functions >>= λ selected_functions.
    some (selected_functions, record self { random_select_percent = percent })

-- `if percent_of_functions < 10: if len(…) > 3: …`
unfoldable pub select_of_considered : Draw → ℕ → List Name → Option (List Name)
unfolding select_share
select_of_considered draw percent_of_functions ftns =
    if ltb percent_of_functions 10 && ltb 3 (length ftns)
    then select_share draw percent_of_functions ftns
    else some ftns

module _ (order : SetOrder) (seq_len_limit : ℕ) where
  -- The last lines of both timeout variants.
  unfoldable pub assign_union :
      List Name → List Name → FunctionAssignment → List Name × FunctionAssignment
  unfolding record_assignment
  assign_union selected children self =
      let assigned = order.list_set (selected ++ children) in
      if ltb 0 (length assigned)
      then (assigned, record_assignment assigned self)
      else (assigned, self)

  -- The children of the graph of all reads that reach a target.
  unfoldable pub timeout_children : Seq → Name → List Name → FunctionAssignment → List Name
  unfolding reaching permit_once get_children_all_reads
  timeout_children ftn_seq last targets self = permit_once ftn_seq (
      reaching order seq_len_limit self.fwrg_manager targets ftn_seq
        (get_children_all_reads self.fwrg_manager last))

  -- The lines behind the fallback case, given how functions are selected.
  unfoldable pub assign_selected :
      (List Name → Option (List Name))
      → Seq
      → Name
      → List (Name × Coverage)
      → FunctionAssignment
      → Option (List Name × FunctionAssignment)
  unfolding select_dk timeout_children assign_union
  assign_selected select ftn_seq last dk_functions self = do
    considered ← select_dk self.assignment_times self.times_limit dk_functions
    selected ← select considered
    some (assign_union selected (timeout_children ftn_seq last considered self) self)

  unfoldable pub assign_functions_timeout :
      Draw
      → Name
      → List (Name × Coverage)
      → ℕ
      → FunctionAssignment
      → Option (List Name × FunctionAssignment)
  unfolding unless_fallback assign_selected select_of_considered
  assign_functions_timeout draw state_key dk_functions percent_of_functions self =
      unless_fallback
        (λ ftn_seq last.
          assign_selected (select_of_considered draw percent_of_functions) ftn_seq last dk_functions
            self)
        state_key self

  unfoldable pub assign_functions_timeout_mine :
      Name
      → List (Name × Coverage)
      → List Name
      → FunctionAssignment
      → Option (List Name × FunctionAssignment)
  unfolding unless_fallback assign_selected
  assign_functions_timeout_mine state_key dk_functions randomly_selected_functions self =
      unless_fallback
        (λ ftn_seq last.
          assign_selected (λ considered. some randomly_selected_functions) ftn_seq last dk_functions
            self)
        state_key self
