-- ===== src/Instructions/Tests.antt =====
-- A call of `f1` in a code of four instructions.
use smart_executor.Prelude.{
  Nodup, contains, entry, ℕ, String, ◌≡◌, refl, true, false, none, some, List, [], ◌∷◌, codes,
  nat_eq, list_eq,
}
use smart_executor.Instructions.Collected.{function_instruction_indices-update_coverages, executes}
use smart_executor.Instructions.{
  call_at_end_of_preprocessing, update_coverages, InstructionCoverage, ExecutedState,
  new_instruction_coverage,
}

abbrev state_at : ℕ → String → ExecutedState
state_at pc opcode = record {
  bytecode = codes "60";
  number_of_instructions = 4;
  pc = pc;
  active_function_name = codes "f1";
  opcode = codes opcode;
}

abbrev states_4 : List ExecutedState
states_4 = state_at 1 "PUSH1" ∷ state_at 2 "DUP1" ∷ state_at 1 "PUSH1" ∷ state_at 3 "STOP" ∷ []

abbrev after_4 : InstructionCoverage
after_4 = record {
  coverage = (codes "60", (4, false ∷ true ∷ true ∷ true ∷ [])) ∷ [];
  contract_coverage = record { covered = 0; total = 1 };
  function_instruction_indices = (codes "f1", 1 ∷ 2 ∷ 3 ∷ []) ∷ (codes "f2", []) ∷ [];
  function_instruction_complete_status = (codes "f1", true) ∷ (codes "f2", false) ∷ [];
}

updated_4 :
    update_coverages states_4 (new_instruction_coverage (codes "f1" ∷ codes "f2" ∷ []))
    ≡ some after_4
unfolding update_coverages new_instruction_coverage
updated_4 = refl

out_of_range : update_coverages (state_at 4 "STOP" ∷ []) (new_instruction_coverage []) ≡ none
unfolding update_coverages new_instruction_coverage
out_of_range = refl

coverage_4 : (call_at_end_of_preprocessing after_4).0 ≡ some (record { covered = 3; total = 4 })
unfolding call_at_end_of_preprocessing
coverage_4 = refl

function_instruction_indices-update_coverages_example :
    (contains (entry (codes "f1") after_4.function_instruction_indices) 2
      ≡ executes states_4 (codes "f1") 2)
    × Nodup (entry (codes "f1") after_4.function_instruction_indices)
function_instruction_indices-update_coverages_example =
    function_instruction_indices-update_coverages (codes "f1" ∷ codes "f2" ∷ []) states_4 after_4
      (codes "f1") 2 (λ e. cc) updated_4
