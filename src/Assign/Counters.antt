-- ===== src/Assign/Counters.antt =====
-- The counters after a call of `assign_functions`.
use smart_executor.Assign.Steps.{steps, unless_fallback_lem}
use smart_executor.Keys.{Name, get_ftn_seq_from_key_1}
use smart_executor.Assign.Times.{occurrences, lookup-count_assignment}
use smart_executor.Assign.{
  fallback_case, assign_functions, assign_by_graph, Coverage, FunctionAssignment,
}
use smart_executor.Reach.{SetOrder}
use smart_executor.Prelude.{
  ◌>>=◌, nat_eq, list_eq, lookup, ℕ, ◌+◌, ◌≡◌, sym, ap, ◌∙◌, Bool, some, List, [], get_last?,
}

-- A call of `assign_functions` that passes the fallback case adds one to the counter of a function
-- for each time that it is assigned, and leaves the other counters and the set of the functions
-- with a counter as they were.
pub lookup-assign_functions :
    (order : SetOrder) (flag : Bool) (limit : ℕ) (state_key last : Name)
    (dk_functions : List (Name × Coverage)) (not_to_execute : List Name)
    (self after : FunctionAssignment) (assigned : List Name) (f : Name)
    → get_last? (get_ftn_seq_from_key_1 state_key) ≡ some last
    → fallback_case self last ≡ []
    → assign_functions order flag limit state_key dk_functions [] not_to_execute self
      ≡ some (assigned, after)
    → lookup f after.assignment_times
      ≡ (lookup f self.assignment_times >>= λ n. some (n + occurrences assigned f))
unfolding assign_functions
lookup-assign_functions order flag limit state_key last dk_functions not_to_execute self after
      assigned f e plain h =
    let ftn_seq = get_ftn_seq_from_key_1 state_key in
    let s = steps order flag limit ftn_seq last dk_functions not_to_execute self assigned after (
      sym (
        unless_fallback_lem
          (λ q l. assign_by_graph order flag limit q l dk_functions not_to_execute self) state_key
          last self e plain)
      ∙ h) in
    ap (lookup f) s.times ∙ lookup-count_assignment assigned self.assignment_times f
