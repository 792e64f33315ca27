-- ===== src/Assign/Total.antt =====
-- When `assign_functions` has a result.
use smart_executor.Keys.RoundTrip.{get_ftn_seq_from_key_1-is_some}
use smart_executor.Reach.{SetOrder}
use smart_executor.Keys.{Name, get_ftn_seq_from_key_1}
use smart_executor.Paths.{Seq}
use smart_executor.Assign.Left.{select_dk-is_some, select_not_reachable-is_some}
use smart_executor.Assign.{
  Coverage, assign_by_graph, FunctionAssignment, select_not_reachable, select_dk, unless_fallback,
  assign_functions, unless_fallback_of,
}
use smart_executor.Prelude.{
  nat_eq, list_eq, has_key, ℕ, ◌≡◌, refl, inl, inr, Bool, true, Option, some, List, [], ◌∷◌, arith,
  Option-cases, is_some, get_last?, All,
}

-- Without a missing counter there is a result.
by_graph_total :
    (order : SetOrder) (flag : Bool) (limit : ℕ) (ftn_seq : Seq) (last : Name)
    (dk_functions : List (Name × Coverage)) (not_to_execute : List Name) (self : FunctionAssignment)
    → All (λ d. has_key d.0 self.assignment_times ≡ true) dk_functions
    → All
        (λ f. has_key f self.assignment_times ≡ true)
        self.fwrg_manager.update_fwrg.dk_not_reachable
    → is_some (assign_by_graph order flag limit ftn_seq last dk_functions not_to_execute self)
      ≡ true
unfolding assign_by_graph
by_graph_total order flag limit ftn_seq last dk_functions not_to_execute self counted counted' =
    let left = select_dk-is_some self.assignment_times self.times_limit dk_functions counted in
    let unreached =
      select_not_reachable-is_some self.assignment_times self.times_limit
        self.fwrg_manager.update_fwrg.dk_not_reachable counted' in
    elim (Option-cases (select_dk self.assignment_times self.times_limit dk_functions)) [
      | inl e ↦ absurd (ground arith)
      | inr (l, e) ↦
          elim (Option-cases (
            select_not_reachable self.assignment_times self.times_limit
              self.fwrg_manager.update_fwrg.dk_not_reachable)) [
                | inl e' ↦ absurd (ground arith)
                | inr (l', e') ↦ rw (e, e') refl
              ]
    ]

unless_fallback_of-is_some :
    (assign : Seq → Name → Option (List Name × FunctionAssignment)) (ftn_seq : Seq) (last : Name)
    (self : FunctionAssignment)
    → get_last? ftn_seq ≡ some last
    → is_some (assign ftn_seq last) ≡ true
    → is_some (unless_fallback_of assign ftn_seq self) ≡ true
unfolding unless_fallback_of
unless_fallback_of-is_some assign ftn_seq last self e h = rw (e, unless_fallback_of) (ground arith)

-- If each listed target and each target that no path reaches has a counter, then a call of
-- `assign_functions` has a result, whatever the state's key is.
pub assign_functions_total :
    (order : SetOrder) (flag : Bool) (limit : ℕ) (state_key : Name)
    (dk_functions : List (Name × Coverage)) (to_execute not_to_execute : List Name)
    (self : FunctionAssignment)
    → All (λ d. has_key d.0 self.assignment_times ≡ true) dk_functions
    → All
        (λ f. has_key f self.assignment_times ≡ true)
        self.fwrg_manager.update_fwrg.dk_not_reachable
    → is_some
        (assign_functions order flag limit state_key dk_functions to_execute not_to_execute self)
      ≡ true
unfolding assign_functions unless_fallback
assign_functions_total order flag limit state_key dk_functions (f ∷ fs) not_to_execute self counted
      counted' =
    refl
assign_functions_total order flag limit state_key dk_functions [] not_to_execute self counted
      counted' =
    let ftn_seq = get_ftn_seq_from_key_1 state_key in
    elim (Option-cases (get_last? ftn_seq)) [
      | inl e ↦ absurd (ground (arith, get_ftn_seq_from_key_1-is_some state_key))
      | inr (last, e) ↦
          unless_fallback_of-is_some
            (λ q l. assign_by_graph order flag limit q l dk_functions not_to_execute self) ftn_seq
            last self e
            (by_graph_total order flag limit ftn_seq last dk_functions not_to_execute self counted
              counted')
    ]
