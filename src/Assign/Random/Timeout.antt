-- ===== src/Assign/Random/Timeout.antt =====
-- Which functions the timeout variants assign.
use smart_executor.Assign.Steps.{unless_fallback_lem}
use smart_executor.Reach.Within.{Within}
use smart_executor.Paths.{Seq}
use mathlib.Core.Option.{some-injective}
use smart_executor.Reach.Decide.{can_reach_targets_iff}
use smart_executor.Assign.Left.{select_dk_lem, is_repeated, listed_left, permit_once_lem}
use smart_executor.Keys.{Name, get_ftn_seq_from_key_1}
use smart_executor.Assign.Random.{
  assign_union, timeout_children, assign_functions_timeout_mine, assign_selected,
}
use smart_executor.Manager.{get_children_all_reads, get_children_fwrg_T_A}
use smart_executor.Reach.{SetOrder, can_reach_targets}
use smart_executor.Assign.{select_dk, fallback_case, Coverage, reaching, FunctionAssignment}
use smart_executor.Prelude.{
  bind_some, nat_eq, list_eq, contains-append, contains-filter_by, contains, filter_by, ℕ, ◌-◌, ◌≡◌,
  sym, ap, ◌∙◌, subst, ◌↔◌, ◌⊎◌, inl, inr, Bool, true, false, ◌||◌, Option, some, List, [], ◌++◌,
  arith, ltb, Bool-cases, length, get_last?,
}

-- Why a function is assigned that was not selected.
pub record IsTimeoutChild (seq_len_limit : ℕ) (ftn_seq : Seq) (last : Name)
    (dk_functions : List (Name × Coverage)) (self : FunctionAssignment) (f : Name) : Type 0 where
  pub once : is_repeated ftn_seq f ≡ false
  pub child : contains (get_children_all_reads self.fwrg_manager last) f ≡ true
  pub target : Name
  pub is_target : listed_left self.assignment_times self.times_limit dk_functions target ≡ true
  pub within :
      Within (get_children_fwrg_T_A self.fwrg_manager) (seq_len_limit - length ftn_seq - 1) f target

module _ (order : SetOrder) (limit : ℕ) (ftn_seq : Seq) (last : Name)
    (dk_functions : List (Name × Coverage)) (self : FunctionAssignment) where
  timeout_children_iff :
      (considered : List Name) (f : Name)
      → select_dk self.assignment_times self.times_limit dk_functions ≡ some considered
      → (contains (timeout_children order limit ftn_seq last considered self) f ≡ true)
        ↔ IsTimeoutChild limit ftn_seq last dk_functions self f
  unfolding timeout_children reaching
  timeout_children_iff considered f e =
      let children = get_children_all_reads self.fwrg_manager last in
      let depth = limit - length ftn_seq - 1 in
      let graph = get_children_fwrg_T_A self.fwrg_manager in
      let reach : Name → Bool = λ child. can_reach_targets order graph considered child depth in
      let parts = permit_once_lem ftn_seq (filter_by reach children) f in
      let both = contains-filter_by reach children f in
      let decide = can_reach_targets_iff order graph considered f depth in
      let left = select_dk_lem self.assignment_times self.times_limit dk_functions considered e in
      (
        λ m.
            let (t, target, w) = decide.0 (ground arith) in
            record {
              once = ground arith;
              child = ground arith;
              target = t;
              is_target = sym (left t) ∙ target;
              within = w;
            },
        λ c.
            let r = decide.1 (c.target, left c.target ∙ c.is_target, c.within) in
            let once = c.once in let child = c.child in ground arith,
      )

  assign_union-contains :
      (selected children : List Name) (f : Name)
      → contains (assign_union order limit selected children self).0 f
        ≡ contains selected f || contains children f
  unfolding assign_union
  assign_union-contains selected children f =
      let all = order.list_set (selected ++ children) in
      let same =
        order.contains-list_set (selected ++ children) f ∙ contains-append selected children f in
      elim (Bool-cases (ltb 0 (length all))) [ inl many ↦ rw many same | inr empty ↦ rw empty same ]

  assign_selected_iff :
      (select : List Name → Option (List Name)) (assigned : List Name) (after : FunctionAssignment)
      → assign_selected order limit select ftn_seq last dk_functions self ≡ some (assigned, after)
      → (considered : List Name) × (select_dk self.assignment_times self.times_limit dk_functions
          ≡ some considered)
        × (selected : List Name) × (select considered ≡ some selected)
        × ((f : Name)
            → (contains assigned f ≡ true) ↔ (
                (contains selected f ≡ true)
                ⊎ IsTimeoutChild limit ftn_seq last dk_functions self f))
  unfolding assign_selected
  assign_selected_iff select assigned after h =
      let (considered, e, h') = bind_some _ _ _ h in
      let (selected, e', done) = bind_some _ _ _ h' in
      (
        considered,
        e,
        selected,
        e',
        λ f.
            let children = timeout_children order limit ftn_seq last considered self in
            let union = assign_union-contains selected children f in
            let same = ap (λ p. contains p.0 f) (some-injective _ _ done) in
            let child = timeout_children_iff considered f e in
            (
              λ m. elim (Bool-cases (contains selected f)) [
                | inl here ↦ inl here
                | inr other ↦ inr (child.0 (ground arith))
              ],
              λ why. elim why [
                | inl here ↦ ground arith
                | inr c ↦ let m = child.1 c in ground arith
              ],
            ),
      )

-- For any order in which Python lists a set, and a state whose sequence ends at `last` and is no
-- fallback case: where `assign_functions_timeout_mine` has a result, a function is assigned exactly
-- when it is one of the given functions, or a child of `last` in the graph of all reads that does
-- not stand in the sequence before its last place and from which a path of the augmented graph,
-- within the depth that the sequence leaves, leads to a target that its counter or its coverage
-- leaves.
pub assign_functions_timeout_mine_iff :
    (order : SetOrder) (limit : ℕ) (state_key last : Name) (dk_functions : List (Name × Coverage))
    (randomly_selected : List Name) (self after : FunctionAssignment) (assigned : List Name)
    (f : Name)
    → get_last? (get_ftn_seq_from_key_1 state_key) ≡ some last
    → fallback_case self last ≡ []
    → assign_functions_timeout_mine order limit state_key dk_functions randomly_selected self
      ≡ some (assigned, after)
    → (contains assigned f ≡ true) ↔ (
        (contains randomly_selected f ≡ true)
        ⊎ IsTimeoutChild limit (get_ftn_seq_from_key_1 state_key) last dk_functions self f)
unfolding assign_functions_timeout_mine
assign_functions_timeout_mine_iff order limit state_key last dk_functions randomly_selected self
      after assigned f e plain h =
    let ftn_seq = get_ftn_seq_from_key_1 state_key in
    let (considered, e1, selected, e2, found) =
      assign_selected_iff order limit ftn_seq last dk_functions self
        (λ considered. some randomly_selected) assigned after
        (sym (
            unless_fallback_lem
              (λ q l.
                assign_selected order limit (λ c. some randomly_selected) q l dk_functions self)
              state_key last self e plain)
          ∙ h) in
    subst
      (λ fs.
        (contains assigned f ≡ true)
        ↔ ((contains fs f ≡ true) ⊎ IsTimeoutChild limit ftn_seq last dk_functions self f))
      (sym (some-injective _ _ e2)) (found f)
