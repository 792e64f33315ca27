-- ===== src/Covered/Tests.antt =====
-- Coverage of a contract with two functions and four instructions.
use smart_executor.Prelude.{◌≡◌, [], ◌∷◌, codes, nat_eq, list_eq, refl}
use smart_executor.Covered.{FunctionCoverage, compute_deep_functions}

abbrev pub self_4 : FunctionCoverage
self_4 = record {
  function_instruction_indices = (codes "f1", 0 ∷ 1 ∷ []) ∷ (codes "f2", 2 ∷ 3 ∷ []) ∷ [];
  contract_bytecode = codes "60";
  function_coverage =
      (codes "f1", record { covered = 2; total = 2 })
      ∷ (codes "f2", record { covered = 1; total = 2 })
      ∷ [];
  coverage = record { covered = 0; total = 4 };
  deep_functions = [];
  deep_functions_1st_time = [];
}

-- Only half of `f2` is covered.
deep_4 :
    (compute_deep_functions 98 self_4).deep_functions
    ≡ (codes "f2", record { covered = 1; total = 2 }) ∷ []
unfolding compute_deep_functions
deep_4 = refl
