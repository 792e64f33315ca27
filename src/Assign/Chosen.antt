-- ===== src/Assign/Chosen.antt =====
-- Which functions `assign_functions` assigns.
use smart_executor.Assign.Steps.{
  is_child, steps, graphs, contains-choose_children, unless_fallback_lem, contains-read_children,
}
use smart_executor.Keys.{Name, get_ftn_seq_from_key_1}
use smart_executor.Paths.{Seq}
use smart_executor.Manager.{FwrgManager, get_children_fwrg_T_A}
use smart_executor.Reach.{SetOrder}
use smart_executor.Assign.{
  read_children, choose_children, Coverage, FunctionAssignment, assign_by_graph, fallback_case,
  assign_functions, [], subst,
}
use smart_executor.Reach.Within.{Within, ReachesTarget}
use smart_executor.Reach.Decide.{can_reach_targets_iff}
use smart_executor.Assign.Left.{
  listed_below, listed_left, is_repeated, select_dk_lem, select_not_reachable_lem,
}
use smart_executor.Prelude.{
  nat_eq, list_eq, contains, ℕ, ◌-◌, ◌≡◌, sym, ap, ◌∙◌, ◌↔◌, ◌⊎◌, inl, inr, Bool, true, false, some,
  List, arith, Bool-cases, length, get_last?,
}

-- Why a function is assigned.
pub record IsAssigned (consider_all_reads : Bool) (seq_len_limit : ℕ) (ftn_seq : Seq) (last : Name)
    (dk_functions : List (Name × Coverage)) (not_to_execute : List Name)
    (self after : FunctionAssignment) (f : Name) : Type 0 where
  pub once : is_repeated ftn_seq f ≡ false
  pub reason :
      ((is_child consider_all_reads self.fwrg_manager last f ≡ true)
        × (contains not_to_execute f ≡ false)
        × (t : Name) × (listed_left self.assignment_times self.times_limit dk_functions t ≡ true)
        × Within
            (get_children_fwrg_T_A after.fwrg_manager)
            (seq_len_limit - length ftn_seq - 1)
            f
            t)
      ⊎ (listed_below self.assignment_times self.times_limit
            self.fwrg_manager.update_fwrg.dk_not_reachable f
          ≡ true)

module _ (order : SetOrder) (flag : Bool) (limit : ℕ) (ftn_seq : Seq) (last : Name)
    (dk_functions : List (Name × Coverage)) (not_to_execute : List Name)
    (self : FunctionAssignment) where
  abbrev after_reads : FwrgManager
  after_reads = graphs order flag limit ftn_seq last dk_functions not_to_execute self

  abbrev Reason : List Name → List Name → Name → Type 0
  Reason dk_left considered f =
      ((is_child flag self.fwrg_manager last f ≡ true)
        × (contains not_to_execute f ≡ false)
        × ReachesTarget (get_children_fwrg_T_A after_reads) dk_left (limit - length ftn_seq - 1) f)
      ⊎ (contains considered f ≡ true)

  chosen_iff :
      (dk_left considered : List Name) (f : Name)
      → (contains
            (choose_children order limit after_reads dk_left considered not_to_execute ftn_seq
              (read_children order flag last self.fwrg_manager).0)
            f
          ≡ true)
        ↔ ((is_repeated ftn_seq f ≡ false) × Reason dk_left considered f)
  chosen_iff dk_left considered f =
      let children = (read_children order flag last self.fwrg_manager).0 in
      let e =
        contains-choose_children order limit after_reads dk_left considered not_to_execute ftn_seq
          children f in
      let c = contains-read_children order flag last self.fwrg_manager f in
      let reach =
        can_reach_targets_iff order (get_children_fwrg_T_A after_reads) dk_left f
          (limit - length ftn_seq - 1) in
      (
        λ h. (
          ground arith,
          elim (Bool-cases (contains considered f)) [
            | inl listed ↦ inr listed
            | inr unlisted ↦ inl (ground arith, ground arith, reach.0 (ground arith))
          ],
        ),
        λ (once, why). elim why [
          | inl (child, allowed, found) ↦ let r = reach.1 found in ground arith
          | inr listed ↦ ground arith
        ],
      )

  by_graph_iff :
      (assigned : List Name) (after : FunctionAssignment) (f : Name)
      → assign_by_graph order flag limit ftn_seq last dk_functions not_to_execute self
        ≡ some (assigned, after)
      → (contains assigned f ≡ true)
        ↔ IsAssigned flag limit ftn_seq last dk_functions not_to_execute self after f
  by_graph_iff assigned after f h =
      let s =
        steps order flag limit ftn_seq last dk_functions not_to_execute self assigned after h in
      let both = chosen_iff s.dk_left s.considered f in
      let e = ap (λ fs. contains fs f) s.chosen in
      let m = ap get_children_fwrg_T_A s.manager in
      let depth = limit - length ftn_seq - 1 in
      let left =
        select_dk_lem self.assignment_times self.times_limit dk_functions s.dk_left s.left in
      let unreached =
        select_not_reachable_lem self.assignment_times self.times_limit
          self.fwrg_manager.update_fwrg.dk_not_reachable s.considered s.not_reachable f in
      (
        λ is.
            let (once, why) = both.0 (e ∙ is) in
            record {
              once = once;
              reason = elim why [
                | inl (child, allowed, (t, target, w)) ↦ inl (
                  child,
                  allowed,
                  t,
                  sym (left t) ∙ target,
                  subst (λ c. Within c depth f t) (sym m) w,
                )
                | inr listed ↦ inr (sym unreached ∙ listed)
              ];
            },
        λ a.
            sym e
            ∙ both.1 (
              a.once,
              elim a.reason [
                | inl (child, allowed, t, target, w) ↦
                    inl (child, allowed, (t, left t ∙ target, subst (λ c. Within c depth f t) m w))
                | inr listed ↦ inr (unreached ∙ listed)
              ],
            ),
      )

-- For any order in which Python lists a set, a state whose sequence ends at `last` and is no
-- fallback case, and a call without given functions that has a result: a function is assigned
-- exactly when it does not stand in the sequence before its last place, and is either a child of
-- `last` that is not excluded and from which a path of the augmented graph that the call leaves,
-- within the depth that the sequence leaves, leads to a target that its counter or its coverage
-- leaves, or a target that no path reaches with its counter below the limit.
pub assign_functions_iff :
    (order : SetOrder) (flag : Bool) (limit : ℕ) (state_key last : Name)
    (dk_functions : List (Name × Coverage)) (not_to_execute : List Name)
    (self after : FunctionAssignment) (assigned : List Name) (f : Name)
    → get_last? (get_ftn_seq_from_key_1 state_key) ≡ some last
    → fallback_case self last ≡ []
    → assign_functions order flag limit state_key dk_functions [] not_to_execute self
      ≡ some (assigned, after)
    → (contains assigned f ≡ true)
      ↔ IsAssigned flag limit
          (get_ftn_seq_from_key_1 state_key)
          last
          dk_functions
          not_to_execute
          self
          after
          f
unfolding assign_functions
assign_functions_iff order flag limit state_key last dk_functions not_to_execute self after assigned
      f e plain h =
    let ftn_seq = get_ftn_seq_from_key_1 state_key in
    by_graph_iff order flag limit ftn_seq last dk_functions not_to_execute self assigned after f (
      sym (
        unless_fallback_lem
          (λ q l. assign_by_graph order flag limit q l dk_functions not_to_execute self) state_key
          last self e plain)
      ∙ h)
