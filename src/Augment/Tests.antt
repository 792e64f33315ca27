-- ===== src/Augment/Tests.antt =====
-- Two paths to one target, and the edges between them.
use smart_executor.Targets.{PathsTo, Graph, construct_fwrg_targets}
use smart_executor.Augment.{find_edges, add_edges_1}
use smart_executor.Prelude.{nat_eq, list_eq, list_beq, contains, ◌≡◌, refl, [], ◌∷◌, codes}

-- The target `t` is behind `a` and behind `b, c`.
abbrev two_paths : PathsTo
two_paths =
    (
      codes "t",
      (1, (codes "a" ∷ codes "t" ∷ []) ∷ [])
          ∷ (2, (codes "b" ∷ codes "c" ∷ codes "t" ∷ []) ∷ [])
          ∷ [],
    )
    ∷ []

abbrev targets : Graph
targets = construct_fwrg_targets two_paths

add_edges_1-two_paths :
    add_edges_1 two_paths targets
    ≡ (codes "a", codes "t" ∷ codes "b" ∷ [])
      ∷ (codes "b", codes "c" ∷ [])
      ∷ (codes "c", codes "t" ∷ codes "a" ∷ [])
      ∷ []
unfolding add_edges_1 construct_fwrg_targets list_beq
add_edges_1-two_paths = refl

-- `a, b, c` and `d, b, e` meet in `b`: the parts before and behind it are joined both ways.
find_edges-meet :
    find_edges
      (codes "a" ∷ codes "b" ∷ codes "c" ∷ [])
      (codes "d" ∷ codes "b" ∷ codes "e" ∷ [])
      (codes "b" ∷ [])
    ≡ (codes "d", codes "a")
      ∷ (codes "a", codes "d")
      ∷ (codes "e", codes "c")
      ∷ (codes "c", codes "e")
      ∷ []
unfolding find_edges list_beq contains
find_edges-meet = refl
