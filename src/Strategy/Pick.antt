-- ===== src/Strategy/Pick.antt =====
-- How the loop that picks a state goes, as a step relation.
use smart_executor.Prelude.{
  bind_some, ℕ, suc, ◌≡◌, subst, none, some, List, ◌∷◌, nat_eq, list_eq, [],
}
use mathlib.Core.Option.{some-injective}
use smart_executor.Keys.{Name}
use smart_executor.Assign.{FunctionAssignment}
use smart_executor.Strategy.{Assign, Picked, pick_state}

pub data Went : (ℕ → Assign) → FunctionAssignment → List Name → Picked → Type 0 where
  none_left :
      {assign : ℕ → Assign} {self : FunctionAssignment}
      → Went assign self [] (record { choice = none; left = []; function_assignment = self })
  chosen :
      {assign : ℕ → Assign} {self after : FunctionAssignment} {state_key f : Name}
      {pending fs : List Name}
      → assign 0 state_key self ≡ some (f ∷ fs, after)
      → Went assign self (state_key ∷ pending) (record {
        choice = some (state_key, f ∷ fs);
        left = pending;
        function_assignment = after;
      })
  skipped :
      {assign : ℕ → Assign} {self after : FunctionAssignment} {state_key : Name}
      {pending : List Name} {picked : Picked}
      → assign 0 state_key self ≡ some ([], after)
      → Went (λ n. assign (suc n)) after pending picked
      → Went assign self (state_key ∷ pending) picked

module _ (assign : ℕ → Assign) (self : FunctionAssignment) (state_key : Name) (pending : List Name)
    (picked : Picked) where
  round :
      (functions : List Name) (after : FunctionAssignment)
      → assign 0 state_key self ≡ some (functions, after)
      → ((picked' : Picked)
          → pick_state (λ n. assign (suc n)) pending after ≡ some picked'
          → Went (λ n. assign (suc n)) after pending picked')
      → (elim functions [
        | [] ↦ pick_state (λ n. assign (suc n)) pending after
        | f ∷ fs ↦ some (record {
          choice = some (state_key, f ∷ fs);
          left = pending;
          function_assignment = after;
        })
      ])
        ≡ some picked
      → Went assign self (state_key ∷ pending) picked
  round [] after e ih h = skipped e (ih picked h)
  round (f ∷ fs) after e ih h =
      subst (λ p. Went assign self (state_key ∷ pending) p) (some-injective _ _ h) (chosen e)

pub pick_state-Went :
    (assign : ℕ → Assign) (pending : List Name) (self : FunctionAssignment) (picked : Picked)
    → pick_state assign pending self ≡ some picked
    → Went assign self pending picked
unfolding pick_state
pick_state-Went assign [] self picked h =
    subst (λ p. Went assign self [] p) (some-injective _ _ h) none_left
pick_state-Went assign (state_key ∷ pending) self picked h =
    let ((functions, after), e, h') = bind_some (assign 0 state_key self) _ _ h in
    round assign self state_key pending picked functions after e
      (pick_state-Went (λ n. assign (suc n)) pending after) h'
