-- ===== src/Strategy/Takes.antt =====
-- What a strategy takes from its pending states, each of which it gives once.
use smart_executor.Prelude.{
  bind_some, Nodup, contains, ℕ, ◌≡◌, refl, subst, ◌⊎◌, inl, inr, false, Option, none, some, List,
  Bool-cases, All, nat_eq, list_eq, [], ◌∷◌,
}
use smart_executor.Keys.{Name}
use smart_executor.Strategy.Saved.{Went-All}
use smart_executor.Assign.{FunctionAssignment, assign_all_functions}
use mathlib.Core.Option.{some-injective}
use smart_executor.Strategy.{
  answer_of, execute_on, nothing_left, Assign, assign_first, pick_state, Search, Picked,
  choose_state, Answer,
}
use smart_executor.Strategy.Pick.{
  none_left, chosen, skipped, Went, pick_state-Went, chosen, skipped,
}

-- The strategy answers for at most one state, and takes it and others out of the pending ones.
pub record Takes {World : Type 0} (self after : Search World) (answer : Answer) : Type 1 where
  pub same_world : after.world_states ≡ self.world_states
  pub fewer : (P : Name → Type 0) → All P self.pending → All P after.pending
  pub distinct :
      Nodup self.pending
      → Nodup after.pending × All (λ c. contains after.pending c.0 ≡ false) answer.states_functions
  pub shape :
      (answer ≡ nothing_left)
      ⊎ ((key : Name) × (functions : List Name) × (answer ≡ execute_on key functions))

Went-Nodup :
    {assign : ℕ → Assign} {fa : FunctionAssignment} {pending : List Name} {picked : Picked}
    → Went assign fa pending picked
    → Nodup pending
    → Nodup picked.left
      × All (λ c. contains picked.left c.0 ≡ false) (answer_of picked.choice).states_functions
Went-Nodup none_left h = (tt, tt)
Went-Nodup (chosen e) h = (h.1, (h.0, tt))
Went-Nodup (skipped e went) h = Went-Nodup went h.1

answer_shape :
    (choice : Option (Name × List Name))
    → (answer_of choice ≡ nothing_left)
      ⊎ ((key : Name) × (functions : List Name) × (answer_of choice ≡ execute_on key functions))
answer_shape none = inl refl
answer_shape (some (key, functions)) = inr (key, functions, refl)

module _ {World : Type 0} where
  first_round-Takes :
      (self after : Search World) (answer : Answer) (pending : List Name)
      → self.pending ≡ pending
      → assign_first self pending ≡ some (answer, after)
      → Takes self after answer
  unfolding assign_first
  first_round-Takes self after answer [] e h = cc
  first_round-Takes self after answer (key ∷ rest) e h =
      subst (λ (p : Answer × Search World). Takes self p.1 p.0) (some-injective _ _ h)
        (record {
          same_world = refl;
          fewer = λ P hs. (subst (All P) e hs).1;
          distinct = λ d. let different = subst Nodup e d in (different.1, (different.0, tt));
          shape = inr (key, (assign_all_functions self.function_assignment).0, refl);
        })

  pub choose_state-Takes :
      (assign : ℕ → Assign) (self after : Search World) (answer : Answer)
      → choose_state assign self ≡ some (answer, after)
      → Takes self after answer
  unfolding choose_state
  choose_state-Takes assign self after answer h = elim (Bool-cases self.flag_one_start_function) [
    | inl first ↦ first_round-Takes self after answer self.pending refl (rw first at h)
    | inr later ↦
        let h2 = rw later at h in
        let (picked, e, done) =
          bind_some (pick_state assign self.pending self.function_assignment) _ _ h2 in
        let went = pick_state-Went assign self.pending self.function_assignment picked e in
        subst (λ (p : Answer × Search World). Takes self p.1 p.0) (some-injective _ _ done)
          (record {
            same_world = refl;
            fewer = λ P h. (Went-All P went h).0;
            distinct = Went-Nodup went;
            shape = answer_shape picked.choice;
          })
  ]
