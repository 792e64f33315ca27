-- ===== src/Targets.antt =====
-- The graph of the target functions: `organize_paths` of class `AcyclicPath`, and class
-- `UpdateFWRG` but its `add_edges_1`, of fdg/fwrg_manager.py. The print of the graphs is left out.
pub mod Fronts
pub mod Organize
pub mod Edges
pub mod Tests
use smart_executor.Keys.{Name}
use smart_executor.Paths.{Seq}
use smart_executor.Prelude.{
  nat_eq, list_eq, contains, Dict, entry, lookup, insert, has_key, values, ℕ, ◌-◌, ◌&&◌, none, some,
  List, ◌∷◌, ◌++◌, ltb, if◌then◌else◌, length, [],
}

-- For each target the paths to it, by the number of edges.
abbrev pub PathsTo : Type 0
PathsTo = Dict Name (Dict ℕ (List Seq))

-- The lists of a graph: the children of each function.
abbrev pub Graph : Type 0
Graph = Dict Name (List Name)

-- `if len(t_path)-1 not in …: … = [t_path]`, and else `t_path` is added unless it is there.
unfoldable pub add_by_length : Seq → Dict ℕ (List Seq) → Dict ℕ (List Seq)
unfolding has_key insert lookup contains
add_by_length t_path by_length =
    let len = length t_path - 1 in
    if has_key len by_length
    then (if contains (entry len by_length) t_path
        then by_length
        else insert len (entry len by_length ++ t_path ∷ []) by_length)
    else insert len (t_path ∷ []) by_length

-- `if ftn not in self.paths_df.keys(): self.paths_df[ftn]={}`, and the path is added.
unfoldable pub add_path_to : Name → Seq → PathsTo → PathsTo
unfolding lookup insert add_by_length
add_path_to ftn t_path paths_df = elim (lookup ftn paths_df) [
  | none ↦ insert ftn (add_by_length t_path []) paths_df
  | some by_length ↦ insert ftn (add_by_length t_path by_length) paths_df
]

-- `for idx,ftn in enumerate(path)`, where `path[0:idx]` is known: it is not empty if `idx>0`.
unfoldable pub organize_path : List Name → Seq → Seq → PathsTo → PathsTo
unfolding add_path_to contains
organize_path dk_functions before [] paths_df = paths_df
organize_path dk_functions before (ftn ∷ after) paths_df =
    let t_path = before ++ ftn ∷ [] in
    organize_path dk_functions t_path after (
      if contains dk_functions ftn && ltb 0 (length before)
      then add_path_to ftn t_path paths_df
      else paths_df)

unfoldable pub organize_all : List Name → List Seq → PathsTo → PathsTo
unfolding organize_path
organize_all dk_functions [] paths_df = paths_df
organize_all dk_functions (path ∷ paths) paths_df =
    organize_all dk_functions paths (organize_path dk_functions [] path paths_df)

-- `for paths in self.paths.values()`
unfoldable pub organize_from : List Name → List (List Seq) → PathsTo → PathsTo
unfolding organize_all
organize_from dk_functions [] paths_df = paths_df
organize_from dk_functions (paths ∷ rest) paths_df =
    organize_from dk_functions rest (organize_all dk_functions paths paths_df)

unfoldable pub organize_paths : List Name → Dict Name (List Seq) → PathsTo
unfolding organize_from values
organize_paths dk_functions paths = organize_from dk_functions (values paths) []

-- `add_edge_to_graph`, and the same lines of `construct_fwrg_targets`
unfoldable pub add_edge_to_graph : Name → Name → Graph → Graph
unfolding has_key contains insert lookup
add_edge_to_graph from to graph =
    if has_key from graph
    then (if contains (entry from graph) to
        then graph
        else insert from (entry from graph ++ to ∷ []) graph)
    else insert from (to ∷ []) graph

-- `for i in range(len(path) - 1)`
unfoldable pub add_path_edges : Seq → Graph → Graph
unfolding add_edge_to_graph
add_path_edges [] graph = graph
add_path_edges (a ∷ []) graph = graph
add_path_edges (a ∷ b ∷ path) graph = add_path_edges (b ∷ path) (add_edge_to_graph a b graph)

unfoldable pub add_paths_edges : List Seq → Graph → Graph
unfolding add_path_edges
add_paths_edges [] graph = graph
add_paths_edges (path ∷ paths) graph = add_paths_edges paths (add_path_edges path graph)

-- All paths to targets, in the order in which the loops of `construct_fwrg_targets` go.
unfoldable pub paths_by_length : Dict ℕ (List Seq) → List Seq
paths_by_length [] = []
paths_by_length ((len, paths) ∷ by_length) = paths ++ paths_by_length by_length

unfoldable pub all_paths_to : PathsTo → List Seq
unfolding paths_by_length
all_paths_to [] = []
all_paths_to ((ftn, by_length) ∷ paths_df) = paths_by_length by_length ++ all_paths_to paths_df

unfoldable pub construct_fwrg_targets : PathsTo → Graph
unfolding add_paths_edges all_paths_to
construct_fwrg_targets paths_df = add_paths_edges (all_paths_to paths_df) []

-- `identity_dk_function_not_reachable`
unfoldable pub identity_dk_function_not_reachable : List Name → PathsTo → List Name
unfolding lookup
identity_dk_function_not_reachable [] paths_df = []
identity_dk_function_not_reachable (dk ∷ dk_functions) paths_df =
    let rest = identity_dk_function_not_reachable dk_functions paths_df in
    elim (lookup dk paths_df) [
      | none ↦ dk ∷ rest
      | some [] ↦ dk ∷ rest
      | some (p ∷ by_length) ↦ rest
    ]
