-- ===== src/Assign/Steps.antt =====
-- What `assign_functions` has computed where it has a result.
use smart_executor.Prelude.{
  bind_some, contains-append, contains-filter_by, contains, filter_by, ℕ, ◌-◌, ◌≡◌, refl, sym, ap,
  ◌∙◌, inl, inr, Bool, ◌&&◌, ◌||◌, not, Option, some, List, [], ◌++◌, arith, Bool-cases, length,
  get_last?, nat_eq, list_eq,
}
use smart_executor.Paths.{Seq}
use mathlib.Core.Option.{some-injective}
use smart_executor.Keys.{get_ftn_seq_from_key_1, Name}
use smart_executor.Assign.{
  choose_children, fallback_case, count_assignment, assign_by_graph, Coverage, unless_fallback_of,
  reaching, record_assignment, FunctionAssignment, read_children, select_dk, append_missing,
  unless_fallback, select_not_reachable,
}
use smart_executor.Assign.Left.{append_missing_lem, is_repeated, permit_once_lem}
use smart_executor.Reach.{SetOrder, can_reach_targets}
use smart_executor.Manager.{get_children_fwrg_T_A, get_children_all_reads, FwrgManager}

-- The function is a child of the last function, in the augmented graph or, if all reads are
-- considered, in the graph of all reads.
abbrev pub is_child : Bool → FwrgManager → Name → Name → Bool
is_child consider_all_reads manager last f =
    contains (get_children_fwrg_T_A manager last) f
    || consider_all_reads && contains (get_children_all_reads manager last) f

pub contains-read_children :
    (order : SetOrder) (flag : Bool) (last : Name) (manager : FwrgManager) (f : Name)
    → contains (read_children order flag last manager).0 f ≡ is_child flag manager last f
unfolding read_children
contains-read_children order flag last manager f =
    let both = get_children_fwrg_T_A manager last ++ get_children_all_reads manager last in
    elim (Bool-cases flag) [
      | inl on ↦ rw on (
          order.contains-list_set both f
          ∙ contains-append (get_children_fwrg_T_A manager last)
              (get_children_all_reads manager last) f)
      | inr off ↦ rw off (ground arith)
    ]

pub contains-choose_children :
    (order : SetOrder) (limit : ℕ) (manager : FwrgManager)
    (dk_left considered not_to_execute : List Name) (ftn_seq : Seq) (children : List Name)
    (f : Name)
    → contains
        (choose_children order limit manager dk_left considered not_to_execute ftn_seq children)
        f
      ≡ (can_reach_targets order
              (get_children_fwrg_T_A manager)
              dk_left
              f
              (limit - length ftn_seq - 1)
            && (not (contains not_to_execute f) && contains children f)
          || contains considered f)
        && not (is_repeated ftn_seq f)
unfolding choose_children reaching
contains-choose_children order limit manager dk_left considered not_to_execute ftn_seq children f =
    let allowed = filter_by (λ child. not (contains not_to_execute child)) children in
    let reach : Name → Bool = λ child.
      can_reach_targets order (get_children_fwrg_T_A manager) dk_left child
        (limit - length ftn_seq - 1) in
    permit_once_lem ftn_seq (append_missing considered (filter_by reach allowed)) f
    ∙ ground (
      arith,
      append_missing_lem considered (filter_by reach allowed) f,
      contains-filter_by reach allowed f,
      contains-filter_by (λ child. not (contains not_to_execute child)) children f,
    )

module _ (order : SetOrder) (flag : Bool) (limit : ℕ) (ftn_seq : Seq) (last : Name)
    (dk_functions : List (Name × Coverage)) (not_to_execute : List Name)
    (self : FunctionAssignment) where
  abbrev pub graphs : FwrgManager
  graphs = (read_children order flag last self.fwrg_manager).1

  -- What `assign_by_graph` has computed where it has a result.
  pub record Steps (assigned : List Name) (after : FunctionAssignment) : Type 0 where
    pub dk_left : List Name
    pub considered : List Name
    pub left : select_dk self.assignment_times self.times_limit dk_functions ≡ some dk_left
    pub not_reachable :
        select_not_reachable self.assignment_times self.times_limit
          self.fwrg_manager.update_fwrg.dk_not_reachable
        ≡ some considered
    pub chosen :
        choose_children order limit graphs dk_left considered not_to_execute ftn_seq
          (read_children order flag last self.fwrg_manager).0
        ≡ assigned
    pub manager : after.fwrg_manager ≡ graphs
    pub times : after.assignment_times ≡ count_assignment assigned self.assignment_times

  pub steps :
      (assigned : List Name) (after : FunctionAssignment)
      → assign_by_graph order flag limit ftn_seq last dk_functions not_to_execute self
        ≡ some (assigned, after)
      → Steps assigned after
  unfolding assign_by_graph record_assignment
  steps assigned after h =
      let (dk_left, left, h') = bind_some _ _ _ h in
      let (considered, not_reachable, done) = bind_some _ _ _ h' in
      let pair = some-injective _ _ done in
      record {
        dk_left = dk_left;
        considered = considered;
        left = left;
        not_reachable = not_reachable;
        chosen = ap (λ p. p.0) pair;
        manager = sym (ap (λ p. p.1.fwrg_manager) pair);
        times =
            sym (ap (λ p. p.1.assignment_times) pair)
            ∙ ap (λ fs. count_assignment fs self.assignment_times) (ap (λ p. p.0) pair);
      }

-- Past the fallback case.
past_fallback :
    (assign : Seq → Name → Option (List Name × FunctionAssignment)) (ftn_seq : Seq) (last : Name)
    (self : FunctionAssignment)
    → get_last? ftn_seq ≡ some last
    → fallback_case self last ≡ []
    → unless_fallback_of assign ftn_seq self ≡ assign ftn_seq last
unfolding unless_fallback_of
past_fallback assign ftn_seq last self e plain = rw (e, unless_fallback_of) (rw plain refl)

pub unless_fallback_lem :
    (assign : Seq → Name → Option (List Name × FunctionAssignment)) (state_key last : Name)
    (self : FunctionAssignment)
    → get_last? (get_ftn_seq_from_key_1 state_key) ≡ some last
    → fallback_case self last ≡ []
    → unless_fallback assign state_key self ≡ assign (get_ftn_seq_from_key_1 state_key) last
unfolding unless_fallback
unless_fallback_lem assign state_key last self e plain =
    past_fallback assign (get_ftn_seq_from_key_1 state_key) last self e plain
