-- ===== src/Augment.antt =====
-- The augmented target graph: `add_edges_1` of class `UpdateFWRG`, fdg/fwrg_manager.py. For each
-- target it takes the paths to it in pairs and adds edges from one path to the other.
pub mod Support
pub mod Sound
pub mod Tests
use smart_executor.Keys.{Name}
use smart_executor.Paths.{Seq}
use smart_executor.Targets.{PathsTo, Graph, add_edge_to_graph, paths_by_length}
use smart_executor.Prelude.{
  ◌==◌, nat_eq, list_eq, list_beq, contains, filter_by, Bool, not, Option, none, some, List, ◌∷◌,
  ◌++◌, map, ltb, if◌then◌else◌, length, head?, get_last?, drop_last, [],
}

-- `s1`, `s2`: the first sequence unless it is the longer one
abbrev pub shorter : Seq → Seq → Seq
shorter seq1 seq2 = if ltb (length seq2) (length seq1) then seq2 else seq1

abbrev pub longer : Seq → Seq → Seq
longer seq1 seq2 = if ltb (length seq2) (length seq1) then seq1 else seq2

-- No element of `s1` is missing in `s2`.
unfoldable pub belong_relation : Seq → Seq → Bool
unfolding filter_by contains
belong_relation seq1 seq2 =
    not (ltb 0 (length (filter_by (λ e. not (contains (longer seq1 seq2) e)) (shorter seq1 seq2))))

unfoldable pub common_elements : Seq → Seq → Seq
unfolding filter_by contains
common_elements seq1 seq2 = filter_by (contains (longer seq1 seq2)) (shorter seq1 seq2)

-- The loop variables of `find_edges`. The source keeps positions, -1 where there is none; here
-- `t1` and `f1` are the elements of `s1` at them, `t2` and `f2` those of `s2`, and `rest2` is `s2`
-- from `idx2` on.
pub record Gap : Type 0 where
  pub t1 : Option Name
  pub f1 : Option Name
  pub rest2 : Seq
  pub edges : List (Name × Name)

-- `if t == -1: t = idx`
abbrev pub or_else : Option Name → Name → Option Name
or_else none e = some e
or_else (some t) e = some t

-- `for i in range(idx2, len(s2))` up to the `break` at `e`: `t2`, `f2` and `s2` from `i + 1` on
unfoldable pub scan_until : Name → Seq → Option Name → Option Name → Option Name × Option Name × Seq
unfolding list_beq
scan_until e [] t2 f2 = (t2, f2, [])
scan_until e (x ∷ rest2) t2 f2 =
    if x == e then (t2, f2, rest2) else scan_until e rest2 (or_else t2 x) (some x)

-- `edges.append((s2[f2], s1[t1])); edges.append((s1[f1], s2[t2]))` where all four are there
unfoldable pub gap_edges :
    Option Name → Option Name → Option Name → Option Name → List (Name × Name)
gap_edges (some t1) (some f1) (some t2) (some f2) = (f2, t1) ∷ (f1, t2) ∷ []
gap_edges none f1 t2 f2 = []
gap_edges (some t1) none t2 f2 = []
gap_edges (some t1) (some f1) none f2 = []
gap_edges (some t1) (some f1) (some t2) none = []

-- The body of `for idx, e in enumerate(s1)`.
unfoldable pub scan_element : Seq → Name → Gap → Gap
unfolding scan_until gap_edges contains
scan_element common e gap =
    if contains common e
    then (let (t2, f2, rest2) = scan_until e gap.rest2 none none in
        record {
          t1 = none;
          f1 = none;
          rest2 = rest2;
          edges = gap.edges ++ gap_edges gap.t1 gap.f1 t2 f2;
        })
    else record gap { t1 = or_else gap.t1 e; f1 = some e }

unfoldable pub scan_elements : Seq → Seq → Gap → Gap
unfolding scan_element
scan_elements common [] gap = gap
scan_elements common (e ∷ s1) gap = scan_elements common s1 (scan_element common e gap)

-- The lines after the loop, where `e` is the last element of `s1`. Nothing is left to scan where
-- `idx2` has passed the end of `s2`.
unfoldable pub last_gap : Name → Gap → List (Name × Name)
unfolding scan_until gap_edges
last_gap e gap =
    let (t2, f2, rest2) = scan_until e gap.rest2 none none in
    gap.edges ++ gap_edges gap.t1 gap.f1 t2 f2

unfoldable pub find_edges : Seq → Seq → Seq → List (Name × Name)
unfolding scan_elements last_gap
find_edges seq1 seq2 common =
    let s1 = shorter seq1 seq2 in
    let gap =
      scan_elements common s1
        (record { t1 = none; f1 = none; rest2 = longer seq1 seq2; edges = [] }) in
    elim (get_last? s1) [ none ↦ gap.edges | some e ↦ last_gap e gap ]

unfoldable pub add_edges : List (Name × Name) → Graph → Graph
unfolding add_edge_to_graph
add_edges [] graph = graph
add_edges ((f, t) ∷ edges) graph = add_edges edges (add_edge_to_graph f t graph)

unfoldable pub end_edge : Option Name → Option Name → List (Name × Name)
end_edge (some f) (some t) = (f, t) ∷ []
end_edge none t = []
end_edge (some f) none = []

-- the two edges between sequences without common elements, from `seq[-1]` to the other's `seq[0]`
unfoldable pub cross_edges : Seq → Seq → List (Name × Name)
unfolding end_edge
cross_edges seq1 seq2 =
    end_edge (get_last? seq1) (head? seq2) ++ end_edge (get_last? seq2) (head? seq1)

-- The edges that a pair of sequences adds, in order.
unfoldable pub pair_edges : Seq → Seq → List (Name × Name)
unfolding belong_relation common_elements cross_edges find_edges
pair_edges seq1 seq2 =
    if belong_relation seq1 seq2
    then []
    else (if ltb 0 (length (common_elements seq1 seq2))
        then find_edges seq1 seq2 (common_elements seq1 seq2)
        else cross_edges seq1 seq2)

-- `for seq1,seq2 in all_pairs`, for a given `seq1` and the sequences after it
unfoldable pub add_pairs_of : Seq → List Seq → Graph → Graph
unfolding add_edges pair_edges
add_pairs_of seq1 [] graph = graph
add_pairs_of seq1 (seq2 ∷ sequences) graph =
    add_pairs_of seq1 sequences (add_edges (pair_edges seq1 seq2) graph)

unfoldable pub add_all_pairs : List Seq → Graph → Graph
unfolding add_pairs_of
add_all_pairs [] graph = graph
add_all_pairs (seq1 ∷ sequences) graph = add_all_pairs sequences (add_pairs_of seq1 sequences graph)

-- `for df,value in self.acyclicPaths.paths_df.items()`, on the paths without their last function
unfoldable pub add_edges_1 : PathsTo → Graph → Graph
unfolding add_all_pairs paths_by_length
add_edges_1 [] graph = graph
add_edges_1 ((df, by_length) ∷ paths_df) graph =
    add_edges_1 paths_df (add_all_pairs (map drop_last (paths_by_length by_length)) graph)
