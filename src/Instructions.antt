-- ===== src/Instructions.antt =====
-- Class `InstructionCoverage` of fdg/preprocessing/instruction_coverage.py: which instructions the
-- preprocessing executes, in all and in each function. A hook calls it for every executed state.
use smart_executor.Prelude.{
  ◌>>=◌, maybe, prepend, ◌==◌, list_beq, contains, Dict, entry, lookup, insert, ℕ, zero, suc, Bool,
  true, false, Option, none, some, List, [], ◌∷◌, ◌++◌, map, if◌then◌else◌, codes, nat_eq, list_eq,
}
use smart_executor.Targets.Organize.{recorded}
use smart_executor.Covered.{PluginCoverage, count_true}
use smart_executor.Assign.{Coverage}
use smart_executor.Keys.{Name}
pub mod Collected
pub mod Tests

-- What it reads of a `GlobalState`.
pub record ExecutedState : Type 0 where
  pub bytecode : Name
  pub number_of_instructions : ℕ
  pub pc : ℕ
  pub active_function_name : Name
  pub opcode : Name

pub record InstructionCoverage : Type 0 where
  pub coverage : PluginCoverage
  pub contract_coverage : Coverage
  pub function_instruction_indices : Dict Name (List ℕ)
  pub function_instruction_complete_status : Dict Name Bool

-- `__init__`
unfoldable pub new_instruction_coverage : List Name → InstructionCoverage
new_instruction_coverage functions = record {
  coverage = [];
  contract_coverage = record { covered = 0; total = 1 };
  function_instruction_indices = map (λ ftn. (ftn, [])) functions;
  function_instruction_complete_status = map (λ ftn. (ftn, false)) functions;
}

-- `visited[pc] = True`; `none` is `IndexError`.
unfoldable pub visit : ℕ → List Bool → Option (List Bool)
visit pc [] = none
visit zero (b ∷ bs) = some (true ∷ bs)
visit (suc pc) (b ∷ bs) = prepend b (visit pc bs)

-- `[False] * number_of_instructions`
unfoldable pub unvisited : ℕ → List Bool
unvisited zero = []
unvisited (suc n) = false ∷ unvisited n

-- `if pc not in indices: indices.append(pc)`
unfoldable pub add_index : ℕ → List ℕ → List ℕ
unfolding contains
add_index pc indices = if contains indices pc then indices else indices ++ pc ∷ []

unfoldable pub collect_function_instructions :
    ExecutedState → InstructionCoverage → InstructionCoverage
unfolding add_index insert contains list_beq
collect_function_instructions state self =
    let function = state.active_function_name in
    if function == codes "constructor" then self else record self {
      function_instruction_indices =
          insert function (add_index state.pc (entry function self.function_instruction_indices))
            self.function_instruction_indices;
      function_instruction_complete_status =
          if contains (codes "STOP" ∷ codes "RETURN" ∷ []) state.opcode
          then insert function true self.function_instruction_complete_status
          else self.function_instruction_complete_status;
    }

-- `self.coverage[code]`, which is made for a new code.
unfoldable pub code_coverage : ExecutedState → InstructionCoverage → ℕ × List Bool
unfolding lookup unvisited
code_coverage state self =
    maybe (lookup state.bytecode self.coverage)
      (state.number_of_instructions, unvisited state.number_of_instructions) (λ recorded. recorded)

unfoldable pub update_coverage : ExecutedState → InstructionCoverage → Option InstructionCoverage
unfolding insert code_coverage visit collect_function_instructions
update_coverage state self =
    let recorded = code_coverage state self in
    visit state.pc recorded.1 >>= λ visits. some (
      collect_function_instructions state
        (record self { coverage = insert state.bytecode (recorded.0, visits) self.coverage }))

-- The calls of the hook for the states, in their order.
unfoldable pub update_coverages :
    List ExecutedState → InstructionCoverage → Option InstructionCoverage
unfolding update_coverage
update_coverages [] self = some self
update_coverages (state ∷ states) self =
    update_coverage state self >>= λ after. update_coverages states after

-- It returns `compute_coverage`: of the first code, whose executed instruction makes the total
-- positive; `None` without a code.
unfoldable pub call_at_end_of_preprocessing :
    InstructionCoverage → Option Coverage × InstructionCoverage
unfolding count_true
call_at_end_of_preprocessing self = elim self.coverage [
  | [] ↦ (none, self)
  | (code, (total, visited)) ∷ rest ↦
      let computed : Coverage = record { covered = count_true visited; total = total } in
      (some computed, record self { contract_coverage = computed })
]
