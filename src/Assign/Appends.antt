-- ===== src/Assign/Appends.antt =====
-- What `assign_functions` does to the augmented graph: `children += children_o` appends to the
-- graph's own list.
use smart_executor.Assign.Steps.{steps, unless_fallback_lem}
use smart_executor.Reach.{SetOrder}
use smart_executor.Targets.{Graph}
use smart_executor.Assign.{
  fallback_case, Coverage, assign_by_graph, read_children, extend_augmented, FunctionAssignment,
  assign_functions,
}
use smart_executor.Manager.{get_children_all_reads, FwrgManager}
use smart_executor.Keys.{get_ftn_seq_from_key_1, Name, name_iff}
use smart_executor.Prelude.{
  ◌==◌, nat_eq, list_eq, entry, entry-insert, has_key, ℕ, ◌≡◌, sym, ap, ◌∙◌, inl, inr, Bool, ◌&&◌,
  some, List, [], ◌++◌, arith, if◌then◌else◌, Bool-cases, get_last?,
}

abbrev pub augmented : FwrgManager → Graph
augmented manager = manager.update_fwrg.fwrg_targets_augmented

entry-extend_augmented :
    (last f : Name) (more : List Name) (manager : FwrgManager)
    → entry f (augmented (extend_augmented last more manager)) ≡ (
        if last == f && has_key last (augmented manager)
        then entry f (augmented manager) ++ more
        else entry f (augmented manager))
unfolding extend_augmented
entry-extend_augmented last f more manager = elim (Bool-cases (has_key last (augmented manager))) [
  | inl there ↦ elim (Bool-cases (last == f)) [
    | inl same ↦ rw there (
        ground (
          arith,
          entry-insert last f (entry last (augmented manager) ++ more) (augmented manager),
          ap (λ x. entry x (augmented manager)) ((name_iff last f).0 same),
        ))
    | inr other ↦ rw there (
        ground
          (arith, entry-insert last f (entry last (augmented manager) ++ more) (augmented manager)))
  ]
  | inr missing ↦ rw missing (ground arith)
]

entry-read_children :
    (order : SetOrder) (flag : Bool) (last f : Name) (manager : FwrgManager)
    → entry f (augmented (read_children order flag last manager).1) ≡ (
        if flag && last == f && has_key last (augmented manager)
        then entry f (augmented manager) ++ get_children_all_reads manager f
        else entry f (augmented manager))
unfolding read_children
entry-read_children order flag last f manager = elim (Bool-cases flag) [
  | inl on ↦ elim (Bool-cases (last == f)) [
    | inl same ↦ rw on (
        ground (
          arith,
          entry-extend_augmented last f (get_children_all_reads manager last) manager,
          ap (λ x. get_children_all_reads manager x) ((name_iff last f).0 same),
        ))
    | inr other ↦ rw on (
        ground (arith, entry-extend_augmented last f (get_children_all_reads manager last) manager))
  ]
  | inr off ↦ rw off (ground arith)
]

-- A call of `assign_functions` that passes the fallback case changes the augmented graph where all
-- reads are considered: if the graph lists children for the last function of the state, then each
-- call appends the function's children in the graph of all reads to the list, those included that
-- it holds already. Every other list stays the same.
pub entry-assign_functions :
    (order : SetOrder) (flag : Bool) (limit : ℕ) (state_key last : Name)
    (dk_functions : List (Name × Coverage)) (not_to_execute : List Name)
    (self after : FunctionAssignment) (assigned : List Name) (f : Name)
    → get_last? (get_ftn_seq_from_key_1 state_key) ≡ some last
    → fallback_case self last ≡ []
    → assign_functions order flag limit state_key dk_functions [] not_to_execute self
      ≡ some (assigned, after)
    → entry f (augmented after.fwrg_manager) ≡ (
        if flag && last == f && has_key last (augmented self.fwrg_manager)
        then entry f (augmented self.fwrg_manager) ++ get_children_all_reads self.fwrg_manager f
        else entry f (augmented self.fwrg_manager))
unfolding assign_functions
entry-assign_functions order flag limit state_key last dk_functions not_to_execute self after
      assigned f e plain h =
    let ftn_seq = get_ftn_seq_from_key_1 state_key in
    let s = steps order flag limit ftn_seq last dk_functions not_to_execute self assigned after (
      sym (
        unless_fallback_lem
          (λ q l. assign_by_graph order flag limit q l dk_functions not_to_execute self) state_key
          last self e plain)
      ∙ h) in
    ap (λ m. entry f (augmented m)) s.manager
    ∙ entry-read_children order flag last f self.fwrg_manager
