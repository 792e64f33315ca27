-- ===== src/Targets/Edges.antt =====
-- The edges of the target graph, and that it leads to every target that has a path.
use smart_executor.Keys.{Name, name_iff}
use smart_executor.Paths.{Seq}
use smart_executor.Targets.{
  PathsTo, Graph, add_edge_to_graph, add_path_edges, add_paths_edges, paths_by_length, all_paths_to,
  construct_fwrg_targets,
}
use smart_executor.Targets.Organize.{recorded}
use smart_executor.Paths.Walks.{IsWalk}
use smart_executor.Prelude.{
  ◌==◌, list_beq_iff, nat_eq, list_eq, contains-append, contains, Dict, has_key-eq, entry,
  entry-insert, lookup, ℕ, ◌-◌, ◌≡◌, sym, ◌∙◌, subst, inl, inr, Bool, true, false, ◌&&◌, ◌||◌, List,
  [], ◌∷◌, ◌++◌, arith, Bool-cases, length, eq_refl,
}

-- `to` is listed for `from`.
abbrev pub has_edge : Graph → Name → Name → Bool
has_edge graph from to = contains (entry from graph) to

pub has_edge-add_edge_to_graph :
    (f g h k : Name) (graph : Graph)
    → has_edge (add_edge_to_graph f g graph) h k ≡ has_edge graph h k || f == h && g == k
unfolding add_edge_to_graph contains
has_edge-add_edge_to_graph f g h k graph = ground (
  arith,
  entry-insert f h (entry f graph ++ g ∷ []) graph,
  entry-insert f h (g ∷ []) graph,
  name_iff f h,
  name_iff g k,
  contains-append (entry h graph) (g ∷ []) k,
  has_key-eq f graph,
)

-- `g` stands directly behind `f` in the sequence.
abbrev pub follows : Seq → Name → Name → Bool
follows [] f g = false
follows (a ∷ []) f g = false
follows (a ∷ b ∷ path) f g = a == f && b == g || follows (b ∷ path) f g

has_edge-add_path_edges :
    (path : Seq) (graph : Graph) (f g : Name)
    → has_edge (add_path_edges path graph) f g ≡ has_edge graph f g || follows path f g
unfolding add_path_edges
has_edge-add_path_edges [] graph f g = ground arith
has_edge-add_path_edges (a ∷ []) graph f g = ground arith
has_edge-add_path_edges (a ∷ b ∷ path) graph f g =
    has_edge-add_path_edges (b ∷ path) (add_edge_to_graph a b graph) f g
    ∙ ground (arith, has_edge-add_edge_to_graph a b f g graph)

abbrev pub any_follows : List Seq → Name → Name → Bool
any_follows [] f g = false
any_follows (path ∷ paths) f g = follows path f g || any_follows paths f g

has_edge-add_paths_edges :
    (paths : List Seq) (graph : Graph) (f g : Name)
    → has_edge (add_paths_edges paths graph) f g ≡ has_edge graph f g || any_follows paths f g
unfolding add_paths_edges
has_edge-add_paths_edges [] graph f g = ground arith
has_edge-add_paths_edges (path ∷ paths) graph f g =
    has_edge-add_paths_edges paths (add_path_edges path graph) f g
    ∙ ground (arith, has_edge-add_path_edges path graph f g)

pub has_edge-construct_fwrg_targets :
    (paths_df : PathsTo) (f g : Name)
    → has_edge (construct_fwrg_targets paths_df) f g ≡ any_follows (all_paths_to paths_df) f g
unfolding construct_fwrg_targets lookup contains
has_edge-construct_fwrg_targets paths_df f g =
    has_edge-add_paths_edges (all_paths_to paths_df) [] f g

-- A recorded path is among all the paths.
contains-paths_by_length :
    (len : ℕ) (by_length : Dict ℕ (List Seq)) (q : Seq)
    → contains (entry len by_length) q ≡ true
    → contains (paths_by_length by_length) q ≡ true
unfolding paths_by_length lookup contains
contains-paths_by_length len [] q m = absurd (ground arith)
contains-paths_by_length len ((n, paths) ∷ by_length) q m =
    contains-append paths (paths_by_length by_length) q
    ∙ ground (arith, contains-paths_by_length len by_length q)

contains-all_paths_to :
    (paths_df : PathsTo) (g : Name) (q : Seq)
    → recorded paths_df g q ≡ true
    → contains (all_paths_to paths_df) q ≡ true
unfolding all_paths_to lookup
contains-all_paths_to [] g q m = absurd (ground arith)
contains-all_paths_to ((f, by_length) ∷ paths_df) g q m =
    contains-append (paths_by_length by_length) (all_paths_to paths_df) q
    ∙ ground (
      arith,
      contains-all_paths_to paths_df g q,
      contains-paths_by_length (length q - 1) by_length q,
    )

any_follows-of_contains :
    (paths : List Seq) (path : Seq) (f g : Name)
    → contains paths path ≡ true
    → follows path f g ≡ true
    → any_follows paths f g ≡ true
unfolding contains
any_follows-of_contains [] path f g m h = absurd (ground arith)
any_follows-of_contains (p ∷ paths) path f g m h = elim (Bool-cases (p == path)) [
  | inl same ↦
      let e = subst (λ x. follows x f g ≡ true) (sym ((list_beq_iff p path).0 same)) h in
      ground arith
  | inr other ↦ ground (arith, any_follows-of_contains paths path f g)
]

follows-IsWalk :
    (children : Name → List Name) (q : Seq)
    → ((f g : Name) → follows q f g ≡ true → contains (children f) g ≡ true)
    → IsWalk children q
follows-IsWalk children [] h = tt
follows-IsWalk children (a ∷ []) h = tt
follows-IsWalk children (a ∷ b ∷ q) h = (
  h a b (ground (arith, eq_refl a, eq_refl b)),
  follows-IsWalk children (b ∷ q) (λ f g m. h f g (ground arith)),
)

-- A recorded path goes along edges of the target graph.
pub recorded-IsWalk :
    (paths_df : PathsTo) (g : Name) (q : Seq)
    → recorded paths_df g q ≡ true
    → IsWalk (λ f. entry f (construct_fwrg_targets paths_df)) q
recorded-IsWalk paths_df g q m = follows-IsWalk _ q λ f h at.
    has_edge-construct_fwrg_targets paths_df f h
    ∙ any_follows-of_contains (all_paths_to paths_df) q f h (contains-all_paths_to paths_df g q m)
        at
