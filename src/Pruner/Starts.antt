-- ===== src/Pruner/Starts.antt =====
-- What the hook at the start of an iteration, and a whole iteration, change of the iteration and of
-- the number of transactions.
use smart_executor.Pruner.Stop.{stop_sym_trans}
use smart_executor.Reach.{SetOrder}
use smart_executor.Covered.{PluginCoverage}
use smart_executor.Pruner.Loop.{Executor, run_hooks, execute_round, execute_preprocessing}
use smart_executor.Prelude.{
  Gives, Gives->>=, if-intro, ◌==◌, ℕ, suc, ◌+◌, refl, inl, inr, ◌||◌, Option, none, some, List, [],
  ltb, leb, codes, nat_eq, list_eq, Gives-elim, maybe-intro, contains, ◌&&◌, ◌∷◌, Gives-map,
}
use smart_executor.Guider.Strategies.{Preprocessed}
use smart_executor.Guider.Iterate.{start_iteration, save_genesis_states}
use smart_executor.Assign.{Coverage}
use smart_executor.Keys.{Name}
use smart_executor.Pruner.Stops.{Counts, Counts-trans, Leaves, stop_sym_trans-Leaves}
use smart_executor.Dispatcher.Modify.{WorldState, feed_instructions}
use smart_executor.Pruner.{
  FdgPruner, stop_here, start_first, start_guided, start_phase, PrunerConfig, get_depth_k_functions,
  guide, start_sym_trans, GuidedStrategy, prune_states, start_states, main_preprocessing_start,
}

module _ {S : Type 0} where
  -- The next iteration, in which the number of transactions is left or set to it.
  abbrev pub Advances : FdgPruner S → FdgPruner S → Type 0
  Advances before after = Counts (record before { iteration = suc before.iteration }) after

  Gives-Counts :
      (a b : FdgPruner S) (o : Option (FdgPruner S))
      → Counts a b
      → Gives (Counts b) o
      → Gives (Counts a) o
  Gives-Counts a b none h k = tt
  Gives-Counts a b (some c) h k = Counts-trans a b c h k

  module _ (config : PrunerConfig) (guided : GuidedStrategy S) where
    guide-Counts :
        (dk_functions : List (Name × Coverage)) (a : FdgPruner S)
        → Gives (Counts a) (guide config guided dk_functions a)
    unfolding guide
    guide-Counts dk_functions a =
        Gives->>= (Counts a)
          (start_iteration guided.strategy config.seq_len_limit dk_functions a.iteration
            a.open_states a.guider)
          _ (λ started done. (refl, inl refl))

    start_first-Counts :
        (contract_address : ℕ) (state : WorldState) (a : FdgPruner S)
        → Gives (Counts a) (start_first config guided contract_address state a)
    unfolding start_first
    start_first-Counts contract_address state a =
        Gives->>= (Counts a)
          (feed_instructions state contract_address a.guider.instruction_modification) _
          (λ fed feeds.
            Gives->>= (Counts a)
              (save_genesis_states guided.strategy config.seq_len_limit a.open_states
                (record a.guider { instruction_modification = fed }))
              _ (λ guider saves. (refl, inl refl)))

    start_guided-Counts : (a : FdgPruner S) → Gives (Counts a) (start_guided config guided a)
    unfolding start_guided get_depth_k_functions stop_here
    start_guided-Counts a =
        let ready = get_depth_k_functions config a in
        Gives->>= (Counts a) (guide config guided ready.depth_k ready) _ (λ after guides.
          let counts : Counts a after =
            Gives-elim (Counts ready) (guide config guided ready.depth_k ready)
              (guide-Counts ready.depth_k ready) guides in
          if-intro (Counts a) after.guider.termination (λ ends. (counts.0, inr refl))
            (λ goes. counts))

    start_phase-Counts :
        (preprocess : Preprocessed) (a : FdgPruner S)
        → Gives (Counts a) (start_phase config guided preprocess a)
    unfolding start_phase main_preprocessing_start
    start_phase-Counts preprocess a =
        if-intro (Gives (Counts a))
          (ltb 0 config.random_baseline || guided.strategy.name == codes "seq")
          (λ baseline. guide-Counts [] a)
          (λ searches.
            if-intro (Gives (Counts a)) (a.iteration == 1) (λ first. (refl, inl refl))
              (λ later.
                if-intro (Gives (Counts a)) (leb a.iteration (config.p1_dl + 1))
                  (λ basic. (refl, inl refl)) (λ guides. start_guided-Counts a)))

    start_states-Counts :
        (preprocess : Preprocessed) (states : List WorldState) (a : FdgPruner S)
        → Gives (Counts a) (start_states config guided preprocess states a)
    unfolding start_states stop_here
    start_states-Counts preprocess [] a = (refl, inr refl)
    start_states-Counts preprocess (state ∷ states) a =
        maybe-intro (Gives (Counts a)) config.contract_address (refl, inl refl)
          (λ address.
            Gives->>= (Counts a) (start_first config guided address state a) _ (λ fed feeds.
              Gives-Counts a fed _
                (Gives-elim (Counts a) (start_first config guided address state a)
                  (start_first-Counts address state a) feeds)
                (start_phase-Counts preprocess fed)))

    pub start_sym_trans-Advances :
        (preprocess : Preprocessed) (a : FdgPruner S)
        → Gives (Advances a) (start_sym_trans config guided preprocess a)
    unfolding start_sym_trans prune_states
    start_sym_trans-Advances preprocess a =
        let next = record a { iteration = suc a.iteration } in
        let pruned = prune_states next in
        if-intro (Gives (Advances a)) (next.iteration == 1)
          (λ first. start_states-Counts preprocess pruned.open_states pruned)
          (λ later. start_phase-Counts preprocess next)

  module _ (config : PrunerConfig) (guided : GuidedStrategy S) (order : SetOrder)
      (executor : Executor S) where
    run_hooks-Advances :
        (call : FdgPruner S → List WorldState × PluginCoverage) (a : FdgPruner S)
        → Gives (Advances a) (run_hooks config guided order executor call a)
    unfolding run_hooks
    run_hooks-Advances call a =
        Gives->>= (Advances a) (start_sym_trans config guided executor.preprocessed a) _
          (λ started starts.
            let called = record started { open_states = (call started).0 } in
            Gives-Counts (record a { iteration = suc a.iteration }) started _
              (Gives-elim (Advances a) (start_sym_trans config guided executor.preprocessed a)
                (start_sym_trans-Advances config guided executor.preprocessed a) starts)
              (Gives-map (Leaves called) (Counts started)
                (stop_sym_trans config guided order executor.function_instruction_indices
                  (call started).1 called)
                (λ after leaves. leaves.0)
                (stop_sym_trans-Leaves config guided order executor.function_instruction_indices
                  (call started).1 called)))

    pub execute_round-Advances :
        (i : ℕ) (a : FdgPruner S)
        → Gives (Advances a) (execute_round config guided order executor i a)
    unfolding execute_round execute_preprocessing
    execute_round-Advances i a =
        if-intro (Gives (Advances a))
          (contains (codes "mine" ∷ codes "bfs" ∷ codes "dfs" ∷ []) config.function_search_strategy
            && i == 0)
          (λ preprocesses.
            Gives->>= (Advances a)
              (run_hooks config guided order executor executor.execute_message_call_preprocessing a)
              _
              (λ after runs.
                (Gives-elim (Advances a)
                  (run_hooks config guided order executor
                    executor.execute_message_call_preprocessing a)
                  (run_hooks-Advances executor.execute_message_call_preprocessing a) runs)))
          (λ guides. run_hooks-Advances executor.execute_message_call a)
