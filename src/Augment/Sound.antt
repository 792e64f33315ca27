-- ===== src/Augment/Sound.antt =====
-- The augmented graph keeps the edges of the target graph, and where its other edges come from.
use smart_executor.Keys.{Name}
use smart_executor.Paths.{Seq}
use smart_executor.Targets.{Graph, add_edge_to_graph}
use smart_executor.Targets.Edges.{has_edge, has_edge-add_edge_to_graph}
use smart_executor.Augment.{
  pair_edges, add_edges, add_pairs_of, add_all_pairs, PathsTo, add_edges_1, paths_by_length,
  shorter, longer,
}
use smart_executor.Augment.Support.{Joins}
use smart_executor.Prelude.{
  nat_eq, list_eq, contains, ◌≡◌, ◌∙◌, ◌⊎◌, true, false, List, [], ◌∷◌, map, arith, drop_last,
}

-- Some function of the shorter sequence, or of the first of two with one length, is not in the
-- other one.
abbrev pub Differs : Seq → Seq → Type 0
Differs a b = (e : Name) × (contains (shorter a b) e ≡ true) × (contains (longer a b) e ≡ false)

-- The edge is one that a pair of the sequences may add.
abbrev pub FromPair : List Seq → Name → Name → Type 0
FromPair sequences f t =
    (a : Seq) × (b : Seq) × (contains sequences a ≡ true)
    × (contains sequences b ≡ true)
    × Differs a b
    × Joins a b (f, t)

has_edge_mono-add_edges :
    (edges : List (Name × Name)) (graph : Graph) (f t : Name)
    → has_edge graph f t ≡ true
    → has_edge (add_edges edges graph) f t ≡ true
unfolding add_edges
has_edge_mono-add_edges [] graph f t h = h
has_edge_mono-add_edges ((g, u) ∷ edges) graph f t h =
    has_edge_mono-add_edges edges (add_edge_to_graph g u graph) f t
      (has_edge-add_edge_to_graph g u f t graph ∙ ground arith)

FromPair-cons :
    (s : Seq) (sequences : List Seq) (f t : Name)
    → FromPair sequences f t
    → FromPair (s ∷ sequences) f t
unfolding contains
FromPair-cons s sequences f t (a, b, ma, mb, apart, joins) =
    (a, b, ground arith, ground arith, apart, joins)

has_edge_mono-add_pairs_of :
    (s : Seq) (rest : List Seq) (graph : Graph) (f t : Name)
    → has_edge graph f t ≡ true
    → has_edge (add_pairs_of s rest graph) f t ≡ true
unfolding add_pairs_of
has_edge_mono-add_pairs_of s [] graph f t h = h
has_edge_mono-add_pairs_of s (s' ∷ rest) graph f t h =
    has_edge_mono-add_pairs_of s rest (add_edges (pair_edges s s') graph) f t
      (has_edge_mono-add_edges (pair_edges s s') graph f t h)

has_edge_mono-add_all_pairs :
    (sequences : List Seq) (graph : Graph) (f t : Name)
    → has_edge graph f t ≡ true
    → has_edge (add_all_pairs sequences graph) f t ≡ true
unfolding add_all_pairs
has_edge_mono-add_all_pairs [] graph f t h = h
has_edge_mono-add_all_pairs (s ∷ sequences) graph f t h =
    has_edge_mono-add_all_pairs sequences (add_pairs_of s sequences graph) f t
      (has_edge_mono-add_pairs_of s sequences graph f t h)

-- The edge joins two paths, without their last function, to one of the targets.
abbrev pub Added : PathsTo → Name → Name → Type 0
Added [] f t = ⊥
Added ((df, by_length) ∷ paths_df) f t =
    FromPair (map drop_last (paths_by_length by_length)) f t ⊎ Added paths_df f t

-- Every edge of the target graph is in the augmented graph.
pub has_edge_mono-add_edges_1 :
    (paths_df : PathsTo) (graph : Graph) (f t : Name)
    → has_edge graph f t ≡ true
    → has_edge (add_edges_1 paths_df graph) f t ≡ true
unfolding add_edges_1
has_edge_mono-add_edges_1 [] graph f t h = h
has_edge_mono-add_edges_1 ((df, by_length) ∷ paths_df) graph f t h =
    has_edge_mono-add_edges_1 paths_df _ f t
      (has_edge_mono-add_all_pairs (map drop_last (paths_by_length by_length)) graph f t h)
