-- ===== src/Covered.antt =====
-- Class `FunctionCoverage` of fdg/function_coverage.py: how much of each function was executed, and
-- which functions are still deep. The coverage plugin's record is an argument: for each bytecode the
-- number of instructions, and which of them were visited.
use smart_executor.Percent.{percent, at_most}
use smart_executor.Prelude.{
  ◌>>=◌, prepend, ◌==◌, list_beq, filter_by, Dict, lookup, insert, ℕ, suc, ◌*◌, Bool, ◌&&◌, Option,
  none, some, List, [], ◌∷◌, map, ltb, leb, if◌then◌else◌, codes, length, get_elem?, nat_eq,
  list_eq,
}
use smart_executor.Keys.{Name}
use smart_executor.Assign.{Coverage, is_below}
pub mod Tests

abbrev pub PluginCoverage : Type 0
PluginCoverage = Dict Name (ℕ × List Bool)

pub record FunctionCoverage : Type 0 where
  pub function_instruction_indices : Dict Name (List ℕ)
  pub contract_bytecode : Name
  pub function_coverage : Dict Name Coverage
  pub coverage : Coverage
  pub deep_functions : List (Name × Coverage)
  pub deep_functions_1st_time : List (Name × Coverage)

-- The loop of `feed_function_intruction_indices`
unfoldable pub zero_coverage : Dict Name (List ℕ) → Dict Name Coverage → Dict Name Coverage
unfolding insert list_beq
zero_coverage [] coverage = coverage
zero_coverage ((ftn, []) ∷ indices) coverage = zero_coverage indices coverage
zero_coverage ((ftn, i ∷ is) ∷ indices) coverage = zero_coverage indices (
    if ftn == codes "constructor"
    then coverage
    else insert ftn (record { covered = 0; total = length (i ∷ is) }) coverage)

unfoldable pub feed_function_intruction_indices :
    Dict Name (List ℕ) → FunctionCoverage → FunctionCoverage
unfolding zero_coverage
feed_function_intruction_indices indices self = record self {
  function_instruction_indices = indices;
  function_coverage = zero_coverage indices self.function_coverage;
}

-- `sum(status)`
unfoldable pub count_true : List Bool → ℕ
count_true [] = 0
count_true (b ∷ bs) = if b then suc (count_true bs) else count_true bs

-- `instr_array[ftn_instruction_indices]`; `none` is `IndexError`.
unfoldable pub select_status : List Bool → List ℕ → Option (List Bool)
select_status record_ [] = some []
select_status record_ (i ∷ is) = get_elem? record_ i >>= λ b. prepend b (select_status record_ is)

-- The coverage of a function, as it was where an instruction is not in the contract.
unfoldable pub cover_function : List Bool → List ℕ → Coverage → Coverage
unfolding select_status count_true
cover_function record_ indices cov = elim (select_status record_ indices) [
  | none ↦ cov
  | some status ↦ record { covered = count_true status; total = length status }
]

-- `for ftn, cov in self.function_coverage.items()`; `none` is `KeyError`.
unfoldable pub cover_functions :
    List Bool → Dict Name (List ℕ) → Dict Name Coverage → Option (Dict Name Coverage)
unfolding cover_function lookup
cover_functions record_ indices [] = some []
cover_functions record_ indices ((ftn, cov) ∷ coverage) =
    if cov.covered == cov.total
    then prepend (ftn, cov) (cover_functions record_ indices coverage)
    else lookup ftn indices >>= λ is.
        prepend (ftn, cover_function record_ is cov) (cover_functions record_ indices coverage)

unfoldable pub compute_coverage : PluginCoverage → FunctionCoverage → Option FunctionCoverage
unfolding cover_functions count_true lookup
compute_coverage plugin self = elim (lookup self.contract_bytecode plugin) [
  | none ↦ some self
  | some (total, []) ↦ some (record self { coverage = record { covered = 0; total = total } })
  | some (total, b ∷ bs) ↦
      cover_functions (b ∷ bs) self.function_instruction_indices self.function_coverage
      >>= λ function_coverage. some (record self {
        coverage = record { covered = count_true (b ∷ bs); total = total };
        function_coverage = function_coverage;
      })
]

unfoldable pub set_runtime_bytecode : Name → FunctionCoverage → FunctionCoverage
set_runtime_bytecode runtime_bytecode self = record self { contract_bytecode = runtime_bytecode }

unfoldable pub compute_contract_coverage :
    Name → PluginCoverage → FunctionCoverage → FunctionCoverage
unfolding lookup count_true
compute_contract_coverage runtime_bytecode plugin self = elim (lookup runtime_bytecode plugin) [
  | none ↦ self
  | some (total, visited) ↦ record self {
    coverage = record { covered = count_true visited; total = total };
  }
]

-- The coverage is not 0 and below the threshold.
unfoldable pub is_deep : ℕ → Name × Coverage → Bool
unfolding is_below
is_deep threshold (ftn, cov) = ltb 0 cov.covered && is_below threshold cov

-- `sort(key=lambda x: x[1])` on floats
unfoldable pub covers_less : Coverage → Coverage → Bool
unfolding at_most percent
covers_less a b = at_most (percent a.covered a.total) (percent b.covered b.total)

unfoldable pub insert_covered : Name × Coverage → List (Name × Coverage) → List (Name × Coverage)
unfolding covers_less
insert_covered x [] = x ∷ []
insert_covered x (y ∷ ys) = if covers_less x.1 y.1 then x ∷ y ∷ ys else y ∷ insert_covered x ys

unfoldable pub sort_covered : List (Name × Coverage) → List (Name × Coverage)
unfolding insert_covered
sort_covered [] = []
sort_covered (x ∷ xs) = insert_covered x (sort_covered xs)

-- The sort is in place: where the functions of the first time are the same list, they are sorted
-- with it.
unfoldable pub compute_deep_functions : ℕ → FunctionCoverage → FunctionCoverage
unfolding sort_covered filter_by is_deep
compute_deep_functions threshold self =
    let deep = sort_covered (filter_by (is_deep threshold) self.function_coverage) in
    record self {
      deep_functions = deep;
      deep_functions_1st_time = elim self.deep_functions_1st_time [ [] ↦ deep | d ∷ ds ↦ d ∷ ds ];
    }

-- `get_coverage_for_a_function`; `none` is -1.
unfoldable pub get_coverage_for_a_function : FunctionCoverage → Name → Option Coverage
unfolding lookup
get_coverage_for_a_function self ftn_name = lookup ftn_name self.function_coverage

unfoldable pub get_deep_functions_1st_time : FunctionCoverage → List Name
get_deep_functions_1st_time self = map (λ d. d.0) self.deep_functions_1st_time
