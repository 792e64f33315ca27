-- ===== src/Targets/Tests.antt =====
-- The paths to the target `f4` in the graph of `test_2` in fdg/fwrg_manager.py.
use smart_executor.Keys.{Name}
use smart_executor.Fwrg.{new_fwrg, get_children}
use smart_executor.Paths.{Seq, get_path}
use smart_executor.Paths.Tests.{children_2}
use smart_executor.Targets.{organize_paths, construct_fwrg_targets}
use smart_executor.Targets.Organize.{recorded, recorded_iff, IsTargetPath}
use smart_executor.Prelude.{
  nat_eq, list_eq, list_beq, Dict, values, ◌≡◌, refl, ◌↔◌, true, List, [], ◌∷◌, codes,
}

abbrev dk_4 : List Name
dk_4 = codes "f4" ∷ []

abbrev paths_2 : Dict Name (List Seq)
paths_2 = get_path children_2 4 (codes "f1" ∷ codes "f2" ∷ [])

program : Unit {0}
unfolding new_fwrg get_children list_beq get_path organize_paths construct_fwrg_targets
program = tt

construct-test_2 :
    construct_fwrg_targets (organize_paths dk_4 paths_2)
    ≡ (codes "f1", codes "f1" ∷ codes "f4" ∷ [])
      ∷ (codes "f2", codes "f3" ∷ [])
      ∷ (codes "f3", codes "f4" ∷ [])
      ∷ []
unfolding program
construct-test_2 = refl

recorded_iff_example :
    (recorded (organize_paths dk_4 paths_2) (codes "f4") (codes "f2" ∷ codes "f3" ∷ codes "f4" ∷ [])
      ≡ true)
    ↔ IsTargetPath dk_4 (values paths_2) (codes "f4") (codes "f2" ∷ codes "f3" ∷ codes "f4" ∷ [])
recorded_iff_example =
    recorded_iff dk_4 paths_2 (codes "f4") (codes "f2" ∷ codes "f3" ∷ codes "f4" ∷ [])
