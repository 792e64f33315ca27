-- ===== src/Strategy/Saved.antt =====
-- Every pending state is saved and shorter than the limit.
use smart_executor.Reach.{SetOrder}
use mathlib.Core.Option.{some-injective}
use smart_executor.Assign.Random.{Draw, assign_functions_for_baseline}
use smart_executor.Prelude.{
  ◌==◌, eq_refl, Dict, lookup-insert, has_key-eq, insert, has_key, keys, ℕ, ◌<◌, ◌≡◌, inl, inr,
  true, ◌||◌, List, ◌∷◌, arith, leb, Bool-cases, length, All, All-append, All-map, nat_eq, list_eq,
  bind_some, subst, some, [],
}
use smart_executor.Keys.{get_ftn_seq_from_key_1, Name}
use smart_executor.Strategy.Pick.{
  none_left, chosen, skipped, Went, pick_state-Went, chosen, skipped,
}
use smart_executor.Assign.{FunctionAssignment, Coverage}
use smart_executor.Strategy.{
  at_end, Picked, Search, add_states, on_top, answer_of, Assign, add_state, Answer,
  assign_states_baseline, pick_state, Settings, assign_states_bfs, assign_states_dfs, assign_round,
  choose_state, assign_first,
}

-- The invariant of the strategies: every pending key has saved states, and its sequence is shorter
-- than the limit.
pub record IsReady {World : Type 0} (seq_len_limit : ℕ) (self : Search World) : Type 0 where
  pub saved : All (λ key. has_key key self.world_states ≡ true) self.pending
  pub short : All (λ key. length (get_ftn_seq_from_key_1 key) < seq_len_limit) self.pending

-- The chosen states are saved, and their sequences shorter than the limit.
abbrev pub IsExecutable : {World : Type 0} → ℕ → Search World → Answer → Type 0
IsExecutable seq_len_limit self answer =
    All
      (λ chosen.
        (has_key chosen.0 self.world_states ≡ true)
        × (length (get_ftn_seq_from_key_1 chosen.0) < seq_len_limit))
      answer.states_functions

-- A way to put a key among the pending ones.
abbrev pub IsPush : (Name → List Name → List Name) → Type 1
IsPush push =
    (P : Name → Type 0) (key : Name) (keys : List Name) → P key → All P keys → All P (push key keys)

pub on_top-IsPush : IsPush on_top
on_top-IsPush P key keys p ps = (p, ps)

pub at_end-IsPush : IsPush at_end
at_end-IsPush P key keys p ps = All-append P keys (key ∷ []) ps (p, tt)

All-both :
    {A : Type 0} (P Q : A → Type 0) (xs : List A) → All P xs → All Q xs → All (λ x. P x × Q x) xs
All-both P Q [] ps qs = tt
All-both P Q (x ∷ xs) ps qs = ((ps.0, qs.0), All-both P Q xs ps.1 qs.1)

-- What the loop picks was pending, and what it leaves is still pending.
pub Went-All :
    {assign : ℕ → Assign} {fa : FunctionAssignment} {pending : List Name} {picked : Picked}
    (P : Name → Type 0)
    → Went assign fa pending picked
    → All P pending
    → All P picked.left × All (λ chosen. P chosen.0) (answer_of picked.choice).states_functions
Went-All P none_left h = (tt, tt)
Went-All P (chosen e) h = (h.1, (h.0, tt))
Went-All P (skipped e went) h = Went-All P went h.1

module _ {World : Type 0} (limit : ℕ) where
  has_key-insert :
      (k j : Name) (states : List World) (d : Dict Name (List World))
      → has_key j (insert k states d) ≡ k == j || has_key j d
  has_key-insert k j states d =
      ground (arith, has_key-eq j (insert k states d), has_key-eq j d, lookup-insert k j states d)

  pub add_state-IsReady :
      (push : Name → List Name → List Name) (key : Name) (states : List World) (self : Search World)
      → IsPush push
      → IsReady limit self
      → IsReady limit (add_state push limit key states self)
  unfolding add_state
  add_state-IsReady push key states self is ready =
      elim (Bool-cases (leb limit (length (get_ftn_seq_from_key_1 key)))) [
        | inl long ↦ rw long ready
        | inr short ↦
            let now = insert key states self.world_states in
            rw short (record {
              saved =
                  is (λ k. has_key k now ≡ true) key self.pending
                    (ground (arith, has_key-insert key key states self.world_states, eq_refl key))
                    (All-map (λ k. has_key k self.world_states ≡ true) self.pending
                      (λ k old. ground (arith, has_key-insert key k states self.world_states))
                      ready.saved);
              short =
                  is (λ k. length (get_ftn_seq_from_key_1 k) < limit) key self.pending
                    (ground arith) ready.short;
            })
      ]

  add_states-IsReady :
      (push : Name → List Name → List Name) (states_dict : Dict Name (List World))
      (self : Search World)
      → IsPush push
      → IsReady limit self
      → IsReady limit (add_states push limit states_dict self)
  unfolding add_states
  add_states-IsReady push [] self is ready = ready
  add_states-IsReady push ((key, states) ∷ states_dict) self is ready =
      add_states-IsReady push states_dict (add_state push limit key states self) is
        (add_state-IsReady push key states self is ready)

  -- The first round takes what is pending and assigns all functions to it.
  first_round :
      (self : Search World) (pending : List Name) (answer : Answer) (after : Search World)
      → All (λ key. has_key key self.world_states ≡ true) pending
      → All (λ key. length (get_ftn_seq_from_key_1 key) < limit) pending
      → assign_first self pending ≡ some (answer, after)
      → IsReady limit after × IsExecutable limit after answer
  unfolding assign_first
  first_round self [] answer after saved short h = cc
  first_round self (key ∷ rest) answer after saved short h =
      subst (λ (p : Answer × Search World). IsReady limit p.1 × IsExecutable limit p.1 p.0)
        (some-injective _ _ h)
        (record { saved = saved.1; short = short.1 }, ((saved.0, short.0), tt))

  choose_state-IsReady :
      (assign : ℕ → Assign) (self after : Search World) (answer : Answer)
      → IsReady limit self
      → choose_state assign self ≡ some (answer, after)
      → IsReady limit after × IsExecutable limit after answer
  unfolding choose_state
  choose_state-IsReady assign self after answer ready h =
      elim (Bool-cases self.flag_one_start_function) [
        | inl first ↦
            first_round self self.pending answer after ready.saved ready.short (rw first at h)
        | inr later ↦
            let h2 = rw later at h in
            let (picked, e, done) =
              bind_some (pick_state assign self.pending self.function_assignment) _ _ h2 in
            let went = pick_state-Went assign self.pending self.function_assignment picked e in
            let (saved, chosen_saved) =
              Went-All (λ k. has_key k self.world_states ≡ true) went ready.saved in
            let (short, chosen_short) =
              Went-All (λ k. length (get_ftn_seq_from_key_1 k) < limit) went ready.short in
            subst (λ (p : Answer × Search World). IsReady limit p.1 × IsExecutable limit p.1 p.0)
              (some-injective _ _ done)
              (
                record { saved = saved; short = short },
                All-both (λ c. has_key c.0 self.world_states ≡ true)
                    (λ c. length (get_ftn_seq_from_key_1 c.0) < limit)
                    (answer_of picked.choice).states_functions chosen_saved chosen_short,
              )
      ]

-- For `DFS`: if every pending state is saved and shorter than the limit, then the same holds after a
-- call of `assign_states` that has a result, and the states that it answers are saved and shorter
-- than the limit too.
pub assign_states_dfs-IsReady :
    {World : Type 0} (order : SetOrder) (settings : Settings) (draws : ℕ → Draw)
    (dk_functions : List (Name × Coverage)) (states_dict : Dict Name (List World))
    (self after : Search World) (answer : Answer)
    → IsReady settings.seq_len_limit self
    → assign_states_dfs order settings draws dk_functions states_dict self ≡ some (answer, after)
    → IsReady settings.seq_len_limit after × IsExecutable settings.seq_len_limit after answer
unfolding assign_states_dfs
assign_states_dfs-IsReady order settings draws dk_functions states_dict self after answer ready h =
    let limit = settings.seq_len_limit in
    choose_state-IsReady limit
      (assign_round order settings draws self.preprocess_timeout self.preprocess_coverage
        dk_functions)
      (add_states on_top limit states_dict self) after answer
      (add_states-IsReady limit on_top states_dict self on_top-IsPush ready) h

-- For `BFS`: if every pending state is saved and shorter than the limit, then the same holds after a
-- call of `assign_states` that has a result, and the states that it answers are saved and shorter
-- than the limit too.
pub assign_states_bfs-IsReady :
    {World : Type 0} (order : SetOrder) (settings : Settings) (draws : ℕ → Draw)
    (dk_functions : List (Name × Coverage)) (states_dict : Dict Name (List World))
    (self after : Search World) (answer : Answer)
    → IsReady settings.seq_len_limit self
    → assign_states_bfs order settings draws dk_functions states_dict self ≡ some (answer, after)
    → IsReady settings.seq_len_limit after × IsExecutable settings.seq_len_limit after answer
unfolding assign_states_bfs
assign_states_bfs-IsReady order settings draws dk_functions states_dict self after answer ready h =
    let limit = settings.seq_len_limit in
    choose_state-IsReady limit
      (assign_round order settings draws self.preprocess_timeout self.preprocess_coverage
        dk_functions)
      (add_states at_end limit states_dict self) after answer
      (add_states-IsReady limit at_end states_dict self at_end-IsPush ready) h

-- For `RandomBaseline`: if every pending state is saved and shorter than the limit, then the same
-- holds after a call of `assign_states` that has a result, and the states that it answers are saved
-- and shorter than the limit too.
pub assign_states_baseline-IsReady :
    {World : Type 0} (settings : Settings) (draws : ℕ → Draw) (states_dict : Dict Name (List World))
    (self after : Search World) (answer : Answer)
    → IsReady settings.seq_len_limit self
    → assign_states_baseline settings draws states_dict self ≡ some (answer, after)
    → IsReady settings.seq_len_limit after × IsExecutable settings.seq_len_limit after answer
unfolding assign_states_baseline
assign_states_baseline-IsReady settings draws states_dict self after answer ready h =
    let limit = settings.seq_len_limit in
    choose_state-IsReady limit (λ n state_key. assign_functions_for_baseline (draws n))
      (add_states at_end limit states_dict self) after answer
      (add_states-IsReady limit at_end states_dict self at_end-IsPush ready) h
