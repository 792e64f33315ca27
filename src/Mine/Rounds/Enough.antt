-- ===== src/Mine/Rounds/Enough.antt =====
-- As many rounds as there are states are enough.
use smart_executor.Assign.Counted.{assign_functions-Keeps, HasCounters}
use smart_executor.Mine.Pickup.Highest.{picked_evaluated}
use smart_executor.Prelude.{
  bind_some, ℕ, zero, suc, ◌≤◌, ◌≡◌, refl, sym, ap, ◌∙◌, inl, inr, true, some, List, [], ◌∷◌, arith,
  Option-cases, is_some, length, nat_eq, list_eq, has_key, subst, Bool, All,
}
use smart_executor.Keys.{Name}
use smart_executor.Assign.{FunctionAssignment, assign_functions, Coverage}
use smart_executor.Mine.Sorted.{length-sort_desc, All-sort_desc}
use smart_executor.Mine.Pickup.Total.{pickup_a_state_total}
use mathlib.Core.Option.{some-injective}
use smart_executor.Mine.{sort_desc, Mine}
use smart_executor.Strategy.{execute_on, Assign}
use smart_executor.Mine.Pickup.{pop_at, Scoring, pickup_a_state, choose_position, state_value}
use smart_executor.Mine.Rounds.{with_queue, mine_rounds, with_assignment}

length-pop_at :
    (i : ℕ) (queue : List Name) (key : Name) (rest : List Name)
    → pop_at i queue ≡ some (key, rest)
    → length queue ≡ suc (length rest)
unfolding pop_at
length-pop_at i [] key rest h = cc
length-pop_at zero (x ∷ queue) key rest h =
    ap (λ (p : Name × List Name). suc (length p.1)) (some-injective _ _ h)
length-pop_at (suc i) (x ∷ queue) key rest h =
    let (found, more, done) = bind_some (pop_at i queue) _ _ h in
    let e = length-pop_at i queue found.0 found.1 more in
    ap suc e ∙ ap (λ (p : Name × List Name). suc (length p.1)) (some-injective _ _ done)

pop_at-All :
    (P : Name → Type 0) (i : ℕ) (queue : List Name) (key : Name) (rest : List Name)
    → pop_at i queue ≡ some (key, rest)
    → All P queue
    → All P rest
unfolding pop_at
pop_at-All P i [] key rest h all = cc
pop_at-All P zero (x ∷ queue) key rest h all =
    subst (λ (p : Name × List Name). All P p.1) (some-injective _ _ h) all.1
pop_at-All P (suc i) (x ∷ queue) key rest h all =
    let (found, more, done) = bind_some (pop_at i queue) _ _ h in
    subst (λ (p : Name × List Name). All P p.1) (some-injective _ _ done)
      (all.0, pop_at-All P i queue found.0 found.1 more all.1)

-- The queue that is left is shorter, and holds no other keys.
pickup_a_state-rest :
    {World : Type 0} (P : Name → Type 0) (scoring : Scoring) (self : Mine World)
    (targets queue : List Name) (key : Name) (rest : List Name)
    → pickup_a_state scoring self targets queue ≡ some (key, rest)
    → All P queue
    → (length queue ≡ suc (length rest)) × All P rest
unfolding pickup_a_state
pickup_a_state-rest P scoring self targets [] key rest h all = cc
pickup_a_state-rest P scoring self targets (only ∷ []) key rest h all =
    subst (λ (p : Name × List Name). (1 ≡ suc (length p.1)) × All P p.1) (some-injective _ _ h)
      (refl, tt)
pickup_a_state-rest P scoring self targets (a ∷ b ∷ queue) key rest h all =
    let score = state_value scoring self targets in
    let sorted = sort_desc score (a ∷ b ∷ queue) in
    let (evaluated, chosen) = picked_evaluated scoring self targets a b queue (key, rest) h in
    let (i, found, popped) = bind_some (choose_position scoring self targets sorted) _ _ chosen in
    (
      sym (length-sort_desc score (a ∷ b ∷ queue)) ∙ length-pop_at i sorted key rest popped,
      pop_at-All P i sorted key rest popped (All-sort_desc P score (a ∷ b ∷ queue) all),
    )

-- A call of the function assignment has a result where `Inv` holds, and keeps it.
abbrev pub Keeps : (FunctionAssignment → Type 0) → (ℕ → Assign) → Type 0
Keeps Inv assign =
    (n : ℕ) (key : Name) (fa : FunctionAssignment)
    → Inv fa
    → (functions : List Name) × (after : FunctionAssignment) × (assign n key fa
        ≡ some (functions, after))
      × Inv after

module _ {World : Type 0} (Inv : FunctionAssignment → Type 0) (scorings : ℕ → Scoring)
    (assign : ℕ → Assign) (keeps : Keeps Inv assign) (targets : List Name) where
  mine_rounds-is_some :
      (n fuel : ℕ) (queue : List Name) (self : Mine World)
      → Inv self.search.function_assignment
      → All (λ k. has_key k self.state_storage ≡ true) queue
      → length queue ≤ fuel
      → is_some (mine_rounds scorings assign targets n fuel queue self) ≡ true
  unfolding mine_rounds
  mine_rounds-is_some n fuel [] self inv stored h = refl
  mine_rounds-is_some n zero (key ∷ queue) self inv stored h = absurd (omega arith)
  mine_rounds-is_some n (suc fuel) (key ∷ queue) self inv stored h =
      elim (Option-cases (pickup_a_state (scorings n) self targets (key ∷ queue))) [
        | inl missing ↦
            absurd (ground (arith, pickup_a_state_total (scorings n) self targets key queue stored))
        | inr ((state_key, rest), e) ↦
            let (functions, after, e2, inv2) =
              keeps n state_key self.search.function_assignment inv in
            let (one_less, left) =
              pickup_a_state-rest (λ k. has_key k self.state_storage ≡ true) (scorings n) self
                targets (key ∷ queue) state_key rest e stored in
            let more =
              mine_rounds-is_some (suc n) fuel rest (with_assignment after self) inv2 left
                (omega arith) in
            rw (e, e2)
              (elim functions
                as (λ fs.
                  is_some (elim fs [
                    | [] ↦
                        mine_rounds scorings assign targets (suc n) fuel rest
                          (with_assignment after self)
                    | f ∷ fs' ↦ some (
                      execute_on state_key (f ∷ fs'),
                      record (with_queue rest (with_assignment after self)) {
                        state_key_assigned_at_last = state_key;
                      },
                    )
                  ])
                  ≡ true) [ [] ↦ more | f ∷ fs ↦ refl ])
      ]

-- The rounds of `assign_states_normal` end with an answer, and as many rounds as there are keys in
-- the queue are enough: if the storage of each key is recorded, and each listed target and each
-- target that no path reaches has a counter.
pub mine_rounds_total :
    {World : Type 0} (scorings : ℕ → Scoring) (flag : Bool) (limit : ℕ)
    (dk_functions : List (Name × Coverage)) (targets : List Name) (n : ℕ) (queue : List Name)
    (self : Mine World)
    → HasCounters dk_functions self.search.function_assignment
    → All (λ k. has_key k self.state_storage ≡ true) queue
    → is_some (
        mine_rounds scorings
          (λ m state_key fa.
            assign_functions (scorings m).order flag limit state_key dk_functions [] [] fa)
          targets
          n
          (length queue)
          queue
          self)
      ≡ true
mine_rounds_total scorings flag limit dk_functions targets n queue self counted stored =
    mine_rounds-is_some (HasCounters dk_functions) scorings _
      (λ m state_key fa.
        assign_functions-Keeps (scorings m).order flag limit dk_functions state_key fa)
      targets n (length queue) queue self counted stored (omega arith)
