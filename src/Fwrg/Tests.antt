-- ===== src/Fwrg/Tests.antt =====
-- A small contract, its graphs, and the instances of the theorems about them.
use smart_executor.Keys.{Name}
use smart_executor.Fwrg.{Slots, new_fwrg, generate_fwrg, get_children, get_parents_frwg}
use smart_executor.Fwrg.Edges.{edge, extend, shared, edge-generate_fwrg}
use smart_executor.Fwrg.Parents.{get_parents_frwg-get_children}
use smart_executor.Prelude.{
  nat_eq, list_eq, list_beq, contains, Dict, IsDict, entry, lookup, ◌≡◌, refl, none, [], ◌∷◌, codes,
}

-- `f1` reads slot `a` and writes it, `f2` writes `b`, `f3` reads `b` and writes `c`, `f4` reads both
-- `c` and `a`: the input of `test_2` in fdg/fwrg_manager.py.
abbrev pub reads_2 : Dict Name Slots
reads_2 =
    (codes "f1", codes "a" ∷ [])
    ∷ (codes "f2", [])
    ∷ (codes "f3", codes "b" ∷ [])
    ∷ (codes "f4", codes "c" ∷ codes "a" ∷ [])
    ∷ []

abbrev pub writes_2 : Dict Name Slots
writes_2 =
    (codes "f1", codes "a" ∷ [])
    ∷ (codes "f2", codes "b" ∷ [])
    ∷ (codes "f3", codes "c" ∷ [])
    ∷ (codes "f4", [])
    ∷ []

pub reads_2-IsDict : IsDict reads_2
unfolding lookup list_beq
reads_2-IsDict = (refl, (refl, (refl, (refl, tt))))

pub writes_2-IsDict : IsDict writes_2
unfolding lookup list_beq
writes_2-IsDict = (refl, (refl, (refl, (refl, tt))))

fwrg_dict-test_2 :
    (new_fwrg reads_2 writes_2).fwrg_dict
    ≡ (codes "f1", (codes "f1", codes "a" ∷ []) ∷ (codes "f4", codes "a" ∷ []) ∷ [])
      ∷ (codes "f2", (codes "f3", codes "b" ∷ []) ∷ [])
      ∷ (codes "f3", (codes "f4", codes "c" ∷ []) ∷ [])
      ∷ (codes "f4", [])
      ∷ []
unfolding new_fwrg list_beq
fwrg_dict-test_2 = refl

frwg_dict-test_2 :
    (new_fwrg reads_2 writes_2).frwg_dict
    ≡ (codes "f1", codes "f1" ∷ [])
      ∷ (codes "f2", [])
      ∷ (codes "f3", codes "f2" ∷ [])
      ∷ (codes "f4", codes "f1" ∷ codes "f3" ∷ [])
      ∷ []
unfolding new_fwrg list_beq
frwg_dict-test_2 = refl

edge-generate_fwrg_example :
    edge (generate_fwrg reads_2 writes_2) (codes "f1") (codes "f4")
    ≡ extend none (shared (entry (codes "f1") writes_2) (entry (codes "f4") reads_2))
edge-generate_fwrg_example =
    edge-generate_fwrg (codes "f1") (codes "f4") reads_2 writes_2 reads_2-IsDict writes_2-IsDict

get_parents_frwg-get_children_example :
    contains (get_parents_frwg (new_fwrg reads_2 writes_2) (codes "f4")) (codes "f1")
    ≡ contains (get_children (new_fwrg reads_2 writes_2).fwrg_dict (codes "f1")) (codes "f4")
get_parents_frwg-get_children_example =
    get_parents_frwg-get_children (codes "f1") (codes "f4") reads_2 writes_2 reads_2-IsDict
      writes_2-IsDict
