-- ===== src/Pruner/Stop.antt =====
-- Class `FDG_pruner` of fdg/fdg_pruner.py: the hook at the end of an iteration.
use smart_executor.Prelude.{
  ◌>>=◌, maybe, prepend, ◌==◌, list_beq, contains, Dict, ℕ, ◌+◌, Bool, ◌&&◌, ◌||◌, not, Option,
  none, some, List, [], ◌∷◌, map, ltb, leb, if◌then◌else◌, codes, length, get_last?, nat_eq,
  list_eq,
}
use smart_executor.Assign.{is_below}
use smart_executor.Guider.Iterate.{get_start_sequence, end_iteration}
use smart_executor.Guider.Strategies.{Preprocessed}
use smart_executor.Reach.{SetOrder}
use smart_executor.Covered.{
  compute_contract_coverage, feed_function_intruction_indices, PluginCoverage, compute_coverage,
  set_runtime_bytecode,
}
use smart_executor.Keys.{Name}
use smart_executor.Pruner.{
  get_depth_k_functions, prune_states, stop_here, stop_if, PrunerConfig, GuidedStrategy, FdgPruner,
}

module _ {S : Type 0} where
  module _ (config : PrunerConfig) (guided : GuidedStrategy S) where
    -- `end_iteration`, and the check of its flag
    unfoldable pub end_guided : FdgPruner S → FdgPruner S
    unfolding end_iteration
    end_guided self = record self {
      guider =
          end_iteration guided.strategy config.seq_len_limit self.open_states self.iteration
            self.guider;
    }

    unfoldable pub covers_contract : ℕ → FdgPruner S → Bool
    covers_contract threshold self = not (is_below threshold self.function_coverage.coverage)

    unfoldable pub may_stop : FdgPruner S → Bool
    may_stop self = not (guided.flag_one_start_function self.guider.ftn_search_strategy)

    -- `if self._iteration_ == 1 and len(laserEVM.open_states) == 1`
    unfoldable pub note_one_state : FdgPruner S → FdgPruner S
    note_one_state self =
        if self.iteration == 1 && length self.open_states == 1
        then record self {
          guider = record self.guider {
            ftn_search_strategy = guided.set_one_start_function self.guider.ftn_search_strategy;
          };
        }
        else self

    -- The hook for the random baseline
    unfoldable pub stop_baseline : PluginCoverage → FdgPruner S → FdgPruner S
    unfolding prune_states compute_contract_coverage end_guided stop_if note_one_state
        covers_contract may_stop
    stop_baseline plugin self =
        let pruned = prune_states self in
        let covered = record pruned {
          function_coverage =
              compute_contract_coverage config.target_runtime_bytecode plugin
                pruned.function_coverage;
        } in
        let ended = end_guided covered in
        let checked = stop_if ended.guider.termination ended in
        let started = note_one_state checked in
        stop_if (covers_contract config.function_coverage_threshold started && may_stop started)
          started

    -- The hook for the strategy `seq`
    unfoldable pub stop_seq : PluginCoverage → FdgPruner S → FdgPruner S
    unfolding prune_states compute_contract_coverage end_guided stop_if
    stop_seq plugin self =
        let pruned = prune_states self in
        let ended = end_guided (record pruned {
          function_coverage =
              compute_contract_coverage config.target_runtime_bytecode plugin
                pruned.function_coverage;
        }) in
        stop_if ended.guider.termination ended

  module _ (config : PrunerConfig) (guided : GuidedStrategy S) (order : SetOrder) where
    -- `[seq[-1] for seq in sequences if len(seq)>0]`; `None` has no length (TypeError).
    unfoldable pub last_functions : List (Option (List Name)) → Option (List Name)
    last_functions [] = some []
    last_functions (none ∷ sequences) = none
    last_functions (some seq ∷ sequences) =
        let rest = last_functions sequences in maybe (get_last? seq) rest (λ ftn. prepend ftn rest)

    -- The end of the basic phase: the guider is made ready.
    unfoldable pub make_ready : Preprocessed → FdgPruner S → Option (FdgPruner S)
    unfolding get_start_sequence last_functions get_depth_k_functions contains list_beq
    make_ready preprocess self =
        let sequences = get_start_sequence self.open_states in
        if contains (codes "bfs" ∷ codes "dfs" ∷ codes "mine" ∷ []) guided.strategy.name
        then (let ready = get_depth_k_functions config self in
            last_functions sequences >>= λ start_functions. some (record ready {
              guider =
                  guided.init (order.list_set start_functions) (map (λ d. d.0) ready.depth_k)
                    preprocess ready.guider;
            }))
        else some self

    -- The checks at the end of the hook.
    unfoldable pub check_stop : FdgPruner S → FdgPruner S
    unfolding stop_if covers_contract may_stop list_beq
    check_stop self =
        let checked = stop_if self.guider.termination self in
        let threshold = config.function_coverage_threshold in
        let covers =
          covers_contract config guided threshold checked
          && (not (guided.strategy.name == codes "mine")
              || covers_contract config guided (threshold + 1) checked) in
        stop_if (covers && may_stop config guided checked) checked

    -- The end of the basic phase, or of a guided iteration.
    unfoldable pub stop_guided : Preprocessed → FdgPruner S → Option (FdgPruner S)
    unfolding end_guided stop_here make_ready check_stop
    stop_guided preprocess self =
        let ended = end_guided config guided self in
        if ended.iteration == config.p1_dl + 1
        then (if ended.guider.termination
            then some (stop_here ended)
            else (make_ready preprocess ended >>= λ ready. some (check_stop ready)))
        else some (check_stop ended)

    -- What follows the coverage.
    unfoldable pub stop_covered : Preprocessed → FdgPruner S → Option (FdgPruner S)
    unfolding stop_here check_stop stop_guided
    stop_covered preprocess self =
        if self.iteration == 2 && length self.open_states == 0
        then some (stop_here self)
        else (if leb self.iteration config.p1_dl
            then some (check_stop self)
            else stop_guided preprocess self)

    -- The hook from the second iteration on.
    unfoldable pub stop_iteration :
        Preprocessed → PluginCoverage → FdgPruner S → Option (FdgPruner S)
    unfolding prune_states compute_coverage stop_covered
    stop_iteration preprocess plugin self =
        let pruned = prune_states self in
        compute_coverage plugin pruned.function_coverage >>= λ coverage.
        stop_covered preprocess (record pruned { function_coverage = coverage })

    -- What follows the branch for `seq`: `preprocess` is `None` until the first iteration has made it.
    unfoldable pub stop_set :
        Dict Name (List ℕ) → PluginCoverage → FdgPruner S → Option (FdgPruner S)
    unfolding stop_iteration feed_function_intruction_indices set_runtime_bytecode
    stop_set indices plugin self = maybe self.preprocess (some self) (λ preprocess.
        if self.iteration == 1
        then some (record self {
          function_coverage =
              set_runtime_bytecode config.target_runtime_bytecode
                (feed_function_intruction_indices indices self.function_coverage);
        })
        else stop_iteration preprocess plugin self)

    -- `stop_sym_trans_hook_laserEVM`, with what the preprocessing found of the functions
    unfoldable pub stop_sym_trans :
        Dict Name (List ℕ) → PluginCoverage → FdgPruner S → Option (FdgPruner S)
    unfolding stop_baseline stop_seq stop_set list_beq
    stop_sym_trans indices plugin self =
        if ltb 0 config.random_baseline
        then some (stop_baseline config guided plugin self)
        else stop_set indices plugin (
            if guided.strategy.name == codes "seq"
            then stop_seq config guided plugin self
            else self)
