-- ===== src/Assign/Counted.antt =====
-- The functions with counters stay those that `assign_functions` asks for.
use smart_executor.Prelude.{
  has_key, ℕ, ◌≡◌, refl, sym, ap, ◌∙◌, subst, ◌⊎◌, inl, inr, Bool, true, false, Option, some, List,
  [], ◌∷◌, arith, Bool-cases, Option-cases, get_last?, All, All-map, nat_eq, list_eq, is_some-elim,
}
use smart_executor.Assign.Total.{assign_functions_total}
use smart_executor.Paths.{Seq}
use smart_executor.Reach.{SetOrder}
use smart_executor.Assign.Steps.{steps}
use mathlib.Core.Option.{some-injective}
use smart_executor.Keys.{get_ftn_seq_from_key_1, Name}
use smart_executor.Assign.Times.{has_key-record_assignment}
use smart_executor.Keys.RoundTrip.{get_ftn_seq_from_key_1-is_some}
use smart_executor.Manager.{FwrgManager}
use smart_executor.Assign.{
  fallback_case, Coverage, unless_fallback_of, assign_by_graph, assign_functions, extend_augmented,
  FunctionAssignment, record_assignment, read_children, unless_fallback,
}

-- The functions that `assign_functions` asks for have counters.
abbrev pub HasCounters : List (Name × Coverage) → FunctionAssignment → Type 0
HasCounters dk_functions self =
    All (λ d. has_key d.0 self.assignment_times ≡ true) dk_functions
    × All (λ f. has_key f self.assignment_times ≡ true)
        self.fwrg_manager.update_fwrg.dk_not_reachable

-- Either branch behind the fallback case.
fallback_or :
    (functions : List Name) (self after : FunctionAssignment) (assigned : List Name)
    (rest : Option (List Name × FunctionAssignment))
    → (elim functions [ f ∷ fs ↦ some (f ∷ fs, self) | [] ↦ rest ]) ≡ some (assigned, after)
    → (self ≡ after) ⊎ (rest ≡ some (assigned, after))
fallback_or [] self after assigned rest h = inr h
fallback_or (f ∷ fs) self after assigned rest h =
    inl (ap (λ (p : List Name × FunctionAssignment). p.1) (some-injective _ _ h))

unless_fallback_or :
    (assign : Seq → Name → Option (List Name × FunctionAssignment)) (ftn_seq : Seq) (last : Name)
    (self after : FunctionAssignment) (assigned : List Name)
    → get_last? ftn_seq ≡ some last
    → unless_fallback_of assign ftn_seq self ≡ some (assigned, after)
    → (self ≡ after) ⊎ (assign ftn_seq last ≡ some (assigned, after))
unfolding unless_fallback_of
unless_fallback_or assign ftn_seq last self after assigned e h =
    fallback_or (fallback_case self last) self after assigned (assign ftn_seq last)
      (rw (e, unless_fallback_of) at h)

dk_not_reachable-read_children :
    (order : SetOrder) (flag : Bool) (last : Name) (manager : FwrgManager)
    → (read_children order flag last manager).1.update_fwrg.dk_not_reachable
      ≡ manager.update_fwrg.dk_not_reachable
unfolding read_children extend_augmented
dk_not_reachable-read_children order false last manager = refl
dk_not_reachable-read_children order true last manager =
    elim (Bool-cases (has_key last manager.update_fwrg.fwrg_targets_augmented)) [
      | inl there ↦ rw there refl
      | inr new ↦ rw new refl
    ]

module _ (order : SetOrder) (flag : Bool) (limit : ℕ) (dk_functions : List (Name × Coverage)) where
  by_graph-HasCounters :
      (ftn_seq : Seq) (last : Name) (self after : FunctionAssignment) (assigned : List Name)
      → assign_by_graph order flag limit ftn_seq last dk_functions [] self ≡ some (assigned, after)
      → HasCounters dk_functions self
      → HasCounters dk_functions after
  unfolding record_assignment
  by_graph-HasCounters ftn_seq last self after assigned h counted =
      let s = steps order flag limit ftn_seq last dk_functions [] self assigned after h in
      let kept : (f : Name)
          → has_key f self.assignment_times ≡ true
          → has_key f after.assignment_times ≡ true =
        λ f there. ap (has_key f) s.times ∙ has_key-record_assignment assigned self f ∙ there in
      let same : after.fwrg_manager.update_fwrg.dk_not_reachable
          ≡ self.fwrg_manager.update_fwrg.dk_not_reachable =
        ap (λ m. m.update_fwrg.dk_not_reachable) s.manager
        ∙ dk_not_reachable-read_children order flag last self.fwrg_manager in
      (
        All-map (λ d. has_key d.0 self.assignment_times ≡ true) dk_functions
            (λ d there. kept d.0 there) counted.0,
        subst (All (λ f. has_key f after.assignment_times ≡ true)) (sym same) (
            All-map (λ f. has_key f self.assignment_times ≡ true)
              self.fwrg_manager.update_fwrg.dk_not_reachable (λ f there. kept f there) counted.1),
      )

  assign_functions-HasCounters :
      (state_key : Name) (self after : FunctionAssignment) (assigned : List Name)
      → assign_functions order flag limit state_key dk_functions [] [] self ≡ some (assigned, after)
      → HasCounters dk_functions self
      → HasCounters dk_functions after
  unfolding assign_functions unless_fallback
  assign_functions-HasCounters state_key self after assigned h counted =
      let ftn_seq = get_ftn_seq_from_key_1 state_key in
      elim (Option-cases (get_last? ftn_seq)) [
        | inl e ↦ absurd (ground (arith, get_ftn_seq_from_key_1-is_some state_key))
        | inr (last, e) ↦
            elim (unless_fallback_or
              (λ q l. assign_by_graph order flag limit q l dk_functions [] self) ftn_seq last self
              after assigned e h) [
                | inl same ↦ subst (HasCounters dk_functions) same counted
                | inr made ↦ by_graph-HasCounters ftn_seq last self after assigned made counted
              ]
      ]

  pub assign_functions-Keeps :
      (state_key : Name) (self : FunctionAssignment)
      → HasCounters dk_functions self
      → (assigned : List Name) × (after : FunctionAssignment) × (assign_functions order flag limit
            state_key dk_functions [] [] self
          ≡ some (assigned, after))
        × HasCounters dk_functions after
  assign_functions-Keeps state_key self counted =
      let ((assigned, after), e) =
        is_some-elim (assign_functions order flag limit state_key dk_functions [] [] self) (
          assign_functions_total order flag limit state_key dk_functions [] [] self counted.0
            counted.1) in
      (assigned, after, e, assign_functions-HasCounters state_key self after assigned e counted)
