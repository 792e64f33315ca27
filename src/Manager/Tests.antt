-- ===== src/Manager/Tests.antt =====
-- The whole construction on the contract of `test_2` in fdg/fwrg_manager.py.
use smart_executor.Keys.{Name}
use smart_executor.Fwrg.Tests.{reads_2, writes_2}
use smart_executor.Paths.Walks.{IsWalk}
use smart_executor.Manager.{FwrgManager, new_fwrg_manager, get_children_fwrg, get_children_fwrg_T_A}
use smart_executor.Manager.Reachable.{can_reach_targets-new_fwrg_manager}
use smart_executor.Reach.{can_reach_targets}
use smart_executor.Reach.Tests.{dedup_order}
use smart_executor.Prelude.{
  nat_eq, list_eq, Nodup, list_beq, contains, ◌≡◌, refl, true, List, [], ◌∷◌, arith, codes,
}

abbrev starts : List Name
starts = codes "f1" ∷ codes "f2" ∷ []

abbrev dk_2 : List Name
dk_2 = codes "f3" ∷ codes "f4" ∷ []

abbrev pub manager_2 : FwrgManager
manager_2 = new_fwrg_manager 4 starts dk_2 reads_2 writes_2 reads_2

program : Unit {0}
unfolding new_fwrg_manager get_children_fwrg list_beq contains
program = tt

f2_f3_f4-IsWalk_2 : IsWalk (get_children_fwrg manager_2) (codes "f2" ∷ codes "f3" ∷ codes "f4" ∷ [])
unfolding program
f2_f3_f4-IsWalk_2 = (refl, (refl, tt))

f2_f3_f4-Nodup_2 : Nodup (codes "f2" ∷ codes "f3" ∷ codes "f4" ∷ [])
unfolding program
f2_f3_f4-Nodup_2 = (refl, (refl, (refl, tt)))

starts-f2 : contains starts (codes "f2") ≡ true
unfolding program
starts-f2 = refl

dk_2-f4 : contains dk_2 (codes "f4") ≡ true
unfolding program
dk_2-f4 = refl

can_reach_targets-new_fwrg_manager_example :
    can_reach_targets dedup_order (get_children_fwrg_T_A manager_2) dk_2 (codes "f2") 3 ≡ true
can_reach_targets-new_fwrg_manager_example =
    can_reach_targets-new_fwrg_manager dedup_order 4 starts dk_2 reads_2 writes_2 reads_2
      (codes "f2") (codes "f4") (codes "f3" ∷ codes "f4" ∷ []) starts-f2 dk_2-f4 f2_f3_f4-IsWalk_2
      f2_f3_f4-Nodup_2 (omega arith) refl
