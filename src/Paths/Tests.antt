-- ===== src/Paths/Tests.antt =====
-- Runs of `derive_paths` on the graph of `test_2` in fdg/fwrg_manager.py, and the instances of the
-- theorems about it.
use smart_executor.Keys.{Name}
use smart_executor.Fwrg.{new_fwrg, get_children}
use smart_executor.Fwrg.Tests.{reads_2, writes_2}
use smart_executor.Paths.{Seq, derive_paths, get_path}
use smart_executor.Paths.Walks.{IsWalk, IsPath}
use smart_executor.Paths.Shape.{derive_paths-IsPath}
use smart_executor.Paths.Complete.{Covers, derive_paths-Covers}
use smart_executor.Paths.Exceeds.{derive_paths_exceeds}
use smart_executor.Prelude.{
  nat_eq, list_eq, Nodup, list_beq, contains, ◌<◌, ◌≡◌, refl, true, List, [], ◌∷◌, arith, codes,
  length, All,
}

-- `f1` leads to itself and to `f4`, `f2` to `f3`, and `f3` to `f4`.
abbrev pub children_2 : Name → List Name
children_2 = get_children (new_fwrg reads_2 writes_2).fwrg_dict

program : Unit {0}
unfolding new_fwrg get_children list_beq derive_paths get_path
program = tt

derive_paths-f2 :
    derive_paths children_2 4 (codes "f2") ≡ (codes "f2" ∷ codes "f3" ∷ codes "f4" ∷ []) ∷ []
unfolding program
derive_paths-f2 = refl

-- The self dependency of `f1` stands before the step to `f4`, so that the limit of two is passed.
derive_paths-f1 :
    derive_paths children_2 2 (codes "f1")
    ≡ (codes "f1" ∷ codes "f1" ∷ []) ∷ (codes "f1" ∷ codes "f1" ∷ codes "f4" ∷ []) ∷ []
unfolding program
derive_paths-f1 = refl

derive_paths-IsPath_example :
    All (IsPath children_2 (codes "f2") 4) (derive_paths children_2 4 (codes "f2"))
derive_paths-IsPath_example = derive_paths-IsPath children_2 4 (codes "f2") (omega arith)

f2_f3_f4-IsWalk : IsWalk children_2 (codes "f2" ∷ codes "f3" ∷ codes "f4" ∷ [])
unfolding program contains
f2_f3_f4-IsWalk = (refl, (refl, tt))

f2_f3_f4-Nodup : Nodup (codes "f2" ∷ codes "f3" ∷ codes "f4" ∷ [])
unfolding program contains
f2_f3_f4-Nodup = (refl, (refl, (refl, tt)))

derive_paths-Covers_example :
    Covers children_2
      (derive_paths children_2 4 (codes "f2"))
      (codes "f2" ∷ codes "f3" ∷ codes "f4" ∷ [])
derive_paths-Covers_example =
    derive_paths-Covers children_2 4 (codes "f2") (codes "f3" ∷ codes "f4" ∷ []) f2_f3_f4-IsWalk
      f2_f3_f4-Nodup (omega arith)

children_2-f1 : children_2 (codes "f1") ≡ codes "f1" ∷ codes "f4" ∷ []
unfolding program
children_2-f1 = refl

f1_f4-Nodup : Nodup (codes "f1" ∷ codes "f4" ∷ [])
unfolding program contains
f1_f4-Nodup = (refl, (refl, tt))

derive_paths_exceeds_example :
    (q : Seq) × (contains (derive_paths children_2 2 (codes "f1")) q ≡ true) × (2 < length q)
derive_paths_exceeds_example =
    derive_paths_exceeds children_2 2 (codes "f1") (codes "f4") [] [] children_2-f1 tt f1_f4-Nodup
      (omega arith)
