-- ===== src/Pruner/Ends.antt =====
-- The loop `_execute_transactions_fdg` ends, and where it ends.
use smart_executor.Prelude.{
  Gives, ℕ, zero, suc, ◌+◌, ◌≤◌, ◌<◌, ◌≡◌, inl, inr, Option, some, arith, ltb, Bool-cases, nat_eq,
  list_eq, Gives-elim, Gives-map, refl, none, ltb→lt, Option-cases, ltb→ge,
}
use smart_executor.Pruner.Starts.{Advances, execute_round-Advances}
use smart_executor.Reach.{SetOrder}
use smart_executor.Pruner.Loop.{Executor, execute_transactions_fdg, execute_round}
use smart_executor.Pruner.{GuidedStrategy, FdgPruner, PrunerConfig}

-- The last iteration is the number of transactions, which has not grown.
abbrev pub Ends : {S : Type 0} → ℕ → FdgPruner S → Type 0
Ends transaction_count after =
    (after.iteration ≡ after.transaction_count) × (after.transaction_count ≤ transaction_count)

module _ {S : Type 0} where
  -- A round either leaves the number of transactions or is the last.
  advance-lem :
      (i : ℕ) (before after : FdgPruner S)
      → before.iteration ≡ i
      → i < before.transaction_count
      → Advances before after
      → (after.iteration ≡ suc i)
        × (suc i ≤ after.transaction_count)
        × (after.transaction_count ≤ before.transaction_count)
  advance-lem i before after at more (next, counts) = elim counts [
    | inl same ↦ omega arith
    | inr set ↦ omega arith
  ]

  module _ (config : PrunerConfig) (guided : GuidedStrategy S) (order : SetOrder)
      (executor : Executor S) where
    execute_transactions_fdg-Ends :
        (fuel i : ℕ) (self : FdgPruner S)
        → self.iteration ≡ i
        → i ≤ self.transaction_count
        → self.transaction_count < i + fuel
        → (o : Option (FdgPruner S)) × (execute_transactions_fdg config guided order executor fuel i
              self
            ≡ some o)
          × Gives (Ends self.transaction_count) o
    unfolding execute_transactions_fdg
    execute_transactions_fdg-Ends zero i self at below enough = absurd (omega arith)
    execute_transactions_fdg-Ends (suc fuel) i self at below enough =
        elim (Bool-cases (ltb i self.transaction_count)) [
          | inr ends ↦ (some self, rw (ends, execute_transactions_fdg) refl, omega (arith, ltb→ge))
          | inl more ↦ elim (Option-cases (execute_round config guided order executor i self)) [
            | inl fails ↦ (none, (rw (more, execute_transactions_fdg) rw fails refl), tt)
            | inr (after, runs) ↦
                let advances = advance-lem i self after at (ltb→lt i self.transaction_count more) (
                  Gives-elim (Advances self) (execute_round config guided order executor i self)
                    (execute_round-Advances config guided order executor i self) runs) in
                let (o, result, ends) =
                  execute_transactions_fdg-Ends fuel (suc i) after advances.0 advances.1
                    (omega arith) in
                (
                  o,
                  (rw (more, execute_transactions_fdg) rw runs result),
                  Gives-map (Ends after.transaction_count) (Ends self.transaction_count) o
                      (λ end (e, l). (e, omega arith)) ends,
                )
          ]
        ]

    -- From iteration 0 the loop ends after as many rounds as `transaction_count` says at most, and
    -- the fuel of one more suffices: it raises an exception, or ends in the iteration that
    -- `transaction_count` is then, which is not greater than at the start.
    pub execute_transactions_fdg_total :
        (self : FdgPruner S)
        → self.iteration ≡ 0
        → (o : Option (FdgPruner S)) × (execute_transactions_fdg config guided order executor
              (suc self.transaction_count)
              0
              self
            ≡ some o)
          × Gives (Ends self.transaction_count) o
    execute_transactions_fdg_total self at =
        execute_transactions_fdg-Ends (suc self.transaction_count) 0 self at (omega arith)
          (omega arith)
