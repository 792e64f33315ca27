-- ===== src/Reach/Tests.antt =====
-- Searches in the graph of `test_2` in fdg/fwrg_manager.py, and the instances of the theorems.
use smart_executor.Keys.{Name}
use smart_executor.Fwrg.{new_fwrg, get_children}
use smart_executor.Paths.Tests.{children_2}
use smart_executor.Reach.{SetOrder, can_reach_targets, get_targets_be_reached}
use smart_executor.Reach.Within.{Within, ReachesTarget}
use smart_executor.Reach.Decide.{can_reach_targets_iff}
use smart_executor.Reach.Collect.{get_targets_be_reached_iff}
use smart_executor.Prelude.{
  nat_eq, list_eq, contains-dedup, dedup-Nodup, list_beq, contains, dedup, ◌≡◌, refl, ◌↔◌, true,
  false, List, [], ◌∷◌, codes,
}

-- One order in which a set may be listed.
abbrev pub dedup_order : SetOrder
dedup_order = record {
  list_set = dedup;
  contains-list_set = contains-dedup;
  list_set-Nodup = dedup-Nodup;
}

abbrev targets_4 : List Name
targets_4 = codes "f4" ∷ []

program : Unit {0}
unfolding new_fwrg get_children list_beq can_reach_targets get_targets_be_reached dedup
program = tt

f2_needs_two :
    (can_reach_targets dedup_order children_2 targets_4 (codes "f2") 1 ≡ false)
    × (can_reach_targets dedup_order children_2 targets_4 (codes "f2") 2 ≡ true)
    × (get_targets_be_reached dedup_order children_2 targets_4 (codes "f2") 2 ≡ targets_4)
unfolding program
f2_needs_two = (refl, refl, refl)

can_reach_targets_iff_example :
    (can_reach_targets dedup_order children_2 targets_4 (codes "f2") 2 ≡ true)
    ↔ ReachesTarget children_2 targets_4 2 (codes "f2")
can_reach_targets_iff_example =
    can_reach_targets_iff dedup_order children_2 targets_4 (codes "f2") 2

get_targets_be_reached_iff_example :
    (contains (get_targets_be_reached dedup_order children_2 targets_4 (codes "f2") 2) (codes "f4")
      ≡ true)
    ↔ ((contains targets_4 (codes "f4") ≡ true) × Within children_2 2 (codes "f2") (codes "f4"))
get_targets_be_reached_iff_example =
    get_targets_be_reached_iff dedup_order children_2 targets_4 (codes "f2") (codes "f4") 2
