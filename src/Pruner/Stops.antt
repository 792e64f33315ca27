-- ===== src/Pruner/Stops.antt =====
-- What the hooks change of the open states, of the iteration and of the number of transactions.
use smart_executor.Keys.{Name}
use smart_executor.Guider.Iterate.{get_start_sequence}
use smart_executor.Guider.Strategies.{Preprocessed}
use smart_executor.Reach.{SetOrder}
use smart_executor.Prelude.{
  filter_by, ◌≡◌, refl, sym, ap, ◌∙◌, ◌⊎◌, inl, inr, Bool, true, false, List, [], ◌∷◌, nat_eq,
  list_eq, Gives, ◌==◌, contains, ◌&&◌, Bool-cases, codes, length, ◌>>=◌, Gives-elim, Gives->>=,
  ◌+◌, some, if-intro, leb, Dict, ℕ, Option, none, ltb, maybe-intro,
}
use smart_executor.Covered.{PluginCoverage, compute_contract_coverage, compute_coverage}
use smart_executor.Pruner.{
  GuidedStrategy, FdgPruner, PrunerConfig, prune_states, stop_here, stop_if, get_depth_k_functions,
}
use smart_executor.Pruner.Stop.{
  end_guided, stop_baseline, stop_seq, may_stop, make_ready, note_one_state, stop_iteration,
  check_stop, covers_contract, last_functions, stop_set, stop_guided, stop_covered, stop_sym_trans,
}

-- The number of transactions is left, or set to the iteration.
abbrev pub Counts : {S : Type 0} → FdgPruner S → FdgPruner S → Type 0
Counts before after =
    (after.iteration ≡ before.iteration)
    × ((after.transaction_count ≡ before.transaction_count)
        ⊎ (after.transaction_count ≡ after.iteration))

-- Besides, the open states are left.
abbrev pub Leaves : {S : Type 0} → FdgPruner S → FdgPruner S → Type 0
Leaves before after = Counts before after × (after.open_states ≡ before.open_states)

filter_by_all : {A : Type 0} (xs : List A) → filter_by (λ x. true) xs ≡ xs
unfolding filter_by
filter_by_all [] = refl
filter_by_all (x ∷ xs) = ap (◌∷◌ x) (filter_by_all xs)

module _ {S : Type 0} where
  pub Counts-trans : (a b c : FdgPruner S) → Counts a b → Counts b c → Counts a c
  Counts-trans a b c h k = (
    k.0 ∙ h.0,
    elim k.1 [
      | inr set ↦ inr set
      | inl same ↦ elim h.1 [
        | inl before ↦ inl (same ∙ before)
        | inr set ↦ inr (same ∙ set ∙ sym k.0)
      ]
    ],
  )

  Leaves-trans : (a b c : FdgPruner S) → Leaves a b → Leaves b c → Leaves a c
  Leaves-trans a b c h k = (Counts-trans a b c h.0 k.0, k.1 ∙ h.1)

  Gives-Leaves :
      (a b : FdgPruner S) (o : Option (FdgPruner S))
      → Leaves a b
      → Gives (Leaves b) o
      → Gives (Leaves a) o
  Gives-Leaves a b none h k = tt
  Gives-Leaves a b (some c) h k = Leaves-trans a b c h k

  prune_states-Leaves : (a : FdgPruner S) → Leaves a (prune_states a)
  unfolding prune_states
  prune_states-Leaves a = ((refl, inl refl), filter_by_all a.open_states)

  stop_if-Leaves : (stops : Bool) (a : FdgPruner S) → Leaves a (stop_if stops a)
  unfolding stop_if stop_here
  stop_if-Leaves true a = ((refl, inr refl), refl)
  stop_if-Leaves false a = ((refl, inl refl), refl)

  module _ (config : PrunerConfig) (guided : GuidedStrategy S) where
    note_one_state-Leaves : (a : FdgPruner S) → Leaves a (note_one_state config guided a)
    unfolding note_one_state
    note_one_state-Leaves a = elim (Bool-cases (a.iteration == 1 && length a.open_states == 1)) [
      | inl one ↦ rw one ((refl, inl refl), refl)
      | inr other ↦ rw other ((refl, inl refl), refl)
    ]

    -- The coverage and the end of the guider's iteration, in the middle of a hook.
    stop_seq-Leaves :
        (plugin : PluginCoverage) (a : FdgPruner S) → Leaves a (stop_seq config guided plugin a)
    unfolding stop_seq end_guided prune_states
    stop_seq-Leaves plugin a =
        let pruned = prune_states a in
        let ended = end_guided config guided (record pruned {
          function_coverage =
              compute_contract_coverage config.target_runtime_bytecode plugin
                pruned.function_coverage;
        }) in
        Leaves-trans a pruned (stop_seq config guided plugin a) (prune_states-Leaves a)
          (stop_if-Leaves ended.guider.termination ended)

    stop_baseline-Leaves :
        (plugin : PluginCoverage) (a : FdgPruner S)
        → Leaves a (stop_baseline config guided plugin a)
    unfolding stop_baseline stop_seq
    stop_baseline-Leaves plugin a =
        let checked = stop_seq config guided plugin a in
        let started = note_one_state config guided checked in
        Leaves-trans a checked (stop_baseline config guided plugin a) (stop_seq-Leaves plugin a) (
          Leaves-trans checked started (stop_baseline config guided plugin a)
            (note_one_state-Leaves checked)
            (stop_if-Leaves
              (covers_contract config guided config.function_coverage_threshold started
                && may_stop config guided started)
              started))

    module _ (order : SetOrder) where
      check_stop-Leaves : (a : FdgPruner S) → Leaves a (check_stop config guided order a)
      unfolding check_stop
      check_stop-Leaves a =
          let checked = stop_if a.guider.termination a in
          Leaves-trans a checked (check_stop config guided order a)
            (stop_if-Leaves a.guider.termination a) (stop_if-Leaves _ checked)

      make_ready-Leaves :
          (preprocess : Preprocessed) (a : FdgPruner S)
          → Gives (Leaves a) (make_ready config guided order preprocess a)
      unfolding make_ready get_depth_k_functions
      make_ready-Leaves preprocess a =
          elim (Bool-cases
            (contains (codes "bfs" ∷ codes "dfs" ∷ codes "mine" ∷ []) guided.strategy.name)) [
              | inl searches ↦ rw searches (
                  Gives->>= (Leaves a)
                    (last_functions config guided order (get_start_sequence a.open_states)) _
                    (λ start_functions last. ((refl, inl refl), refl)))
              | inr other ↦ rw other ((refl, inl refl), refl)
            ]

      -- The end of the basic phase.
      end_basic-Leaves :
          (preprocess : Preprocessed) (a : FdgPruner S)
          → Gives (Leaves a) (
              make_ready config guided order preprocess a >>= λ ready.
              some (check_stop config guided order ready))
      end_basic-Leaves preprocess a =
          Gives->>= (Leaves a) (make_ready config guided order preprocess a) _ (λ ready made.
            Leaves-trans a ready (check_stop config guided order ready)
              (Gives-elim (Leaves a) (make_ready config guided order preprocess a)
                (make_ready-Leaves preprocess a) made)
              (check_stop-Leaves ready))

      -- The end of the guider's iteration, and the checks.
      check_ended-Leaves :
          (a : FdgPruner S) → Leaves a (check_stop config guided order (end_guided config guided a))
      unfolding end_guided
      check_ended-Leaves a = check_stop-Leaves (end_guided config guided a)

      stop_guided-Leaves :
          (preprocess : Preprocessed) (a : FdgPruner S)
          → Gives (Leaves a) (stop_guided config guided order preprocess a)
      unfolding stop_guided end_guided stop_here
      stop_guided-Leaves preprocess a =
          let ended = end_guided config guided a in
          if-intro (Gives (Leaves a)) (ended.iteration == config.p1_dl + 1)
            (λ last.
              if-intro (Gives (Leaves a)) ended.guider.termination
                (λ ends. ((refl, inr refl), refl)) (λ goes. end_basic-Leaves preprocess ended))
            (λ later. check_ended-Leaves a)

      stop_covered-Leaves :
          (preprocess : Preprocessed) (a : FdgPruner S)
          → Gives (Leaves a) (stop_covered config guided order preprocess a)
      unfolding stop_covered stop_here
      stop_covered-Leaves preprocess a =
          if-intro (Gives (Leaves a)) (a.iteration == 2 && length a.open_states == 0)
            (λ empty. ((refl, inr refl), refl))
            (λ other.
              if-intro (Gives (Leaves a)) (leb a.iteration config.p1_dl)
                (λ basic. check_stop-Leaves a) (λ guides. stop_guided-Leaves preprocess a))

      stop_iteration-Leaves :
          (preprocess : Preprocessed) (plugin : PluginCoverage) (a : FdgPruner S)
          → Gives (Leaves a) (stop_iteration config guided order preprocess plugin a)
      unfolding stop_iteration
      stop_iteration-Leaves preprocess plugin a =
          let pruned = prune_states a in
          Gives->>= (Leaves a) (compute_coverage plugin pruned.function_coverage) _
            (λ coverage computed.
              let covered = record pruned { function_coverage = coverage } in
              Gives-Leaves a covered _ (prune_states-Leaves a)
                (stop_covered-Leaves preprocess covered))

      stop_set-Leaves :
          (indices : Dict Name (List ℕ)) (plugin : PluginCoverage) (a : FdgPruner S)
          → Gives (Leaves a) (stop_set config guided order indices plugin a)
      unfolding stop_set
      stop_set-Leaves indices plugin a =
          maybe-intro (Gives (Leaves a)) a.preprocess ((refl, inl refl), refl)
            (λ preprocess.
              if-intro (Gives (Leaves a)) (a.iteration == 1) (λ first. ((refl, inl refl), refl))
                (λ later. stop_iteration-Leaves preprocess plugin a))

      -- The hook at the end of an iteration, if it raises no exception, leaves the iteration and
      -- all open states (no state is pruned), and leaves the number of transactions or sets it to
      -- the iteration.
      pub stop_sym_trans-Leaves :
          (indices : Dict Name (List ℕ)) (plugin : PluginCoverage) (a : FdgPruner S)
          → Gives (Leaves a) (stop_sym_trans config guided order indices plugin a)
      unfolding stop_sym_trans
      stop_sym_trans-Leaves indices plugin a =
          if-intro (Gives (Leaves a)) (ltb 0 config.random_baseline)
            (λ baseline. stop_baseline-Leaves plugin a)
            (λ searches.
              if-intro
                (λ ended. Gives (Leaves a) (stop_set config guided order indices plugin ended))
                (guided.strategy.name == codes "seq")
                (λ seq.
                  Gives-Leaves a (stop_seq config guided plugin a) _ (stop_seq-Leaves plugin a)
                    (stop_set-Leaves indices plugin (stop_seq config guided plugin a)))
                (λ other. stop_set-Leaves indices plugin a))
