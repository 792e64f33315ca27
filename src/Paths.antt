-- ===== src/Paths.antt =====
-- Bounded function sequences: class `AcyclicPath` of fdg/fwrg_manager.py. The limit on the length
-- of a sequence, `seq_len_limit` of fdg/global_config.py, is a parameter.
pub mod Walks
pub mod Shape
mod Rounds
pub mod Complete
pub mod Exceeds
pub mod Tests
use smart_executor.Keys.{Name}
use smart_executor.Fwrg.{Children}
use smart_executor.Prelude.{
  ◌==◌, nat_eq, list_eq, list_beq, contains, Dict, insert, ℕ, zero, suc, ◌-◌, Bool, false, none,
  some, List, ◌∷◌, ◌++◌, if◌then◌else◌, get_last?, [],
}

abbrev pub Seq : Type 0
Seq = List Name

-- `path[-1]` of a path, which has a function at least; the children of no function are none.
unfoldable pub last_children : (Name → List Name) → Seq → List Name
last_children children path = elim (get_last? path) [ none ↦ [] | some ftn ↦ children ftn ]

-- What the loop over the children changes: `path` itself, `all_paths` and `derived_paths`.
pub record Extension : Type 0 where
  pub path : Seq
  pub all_paths : List Seq
  pub derived_paths : List Seq

-- `if path not in all_paths: all_paths.append(path)`
unfoldable pub add_path : Seq → List Seq → List Seq
unfolding contains
add_path path all_paths = if contains all_paths path then all_paths else all_paths ++ path ∷ []

-- `child==path[0] and len(path)==1`
unfoldable pub is_self_dependency : Name → Seq → Bool
unfolding list_beq
is_self_dependency child [] = false
is_self_dependency child (ftn ∷ []) = child == ftn
is_self_dependency child (ftn ∷ next ∷ path) = false

-- The body of `for child in children`. The path is appended to in place: later children see it.
unfoldable pub extend_child : Name → Extension → Extension
unfolding add_path is_self_dependency contains
extend_child child ext =
    if contains ext.path child
    then (let path =
          if is_self_dependency child ext.path then ext.path ++ child ∷ [] else ext.path in
        record ext { path = path; all_paths = add_path path ext.all_paths })
    else record ext { derived_paths = ext.derived_paths ++ (ext.path ++ child ∷ []) ∷ [] }

unfoldable pub extend_children : List Name → Extension → Extension
unfolding extend_child
extend_children [] ext = ext
extend_children (child ∷ children) ext = extend_children children (extend_child child ext)

-- The body of `for path in paths`, for the children of the path's last function.
unfoldable pub extend_with : List Name → Seq → List Seq × List Seq → List Seq × List Seq
unfolding extend_children add_path
extend_with [] path (all_paths, derived_paths) = (add_path path all_paths, derived_paths)
extend_with (child ∷ children) path (all_paths, derived_paths) =
    let ext =
      extend_children (child ∷ children)
        (record { path = path; all_paths = all_paths; derived_paths = derived_paths }) in
    (ext.all_paths, ext.derived_paths)

unfoldable pub extend_path : (Name → List Name) → Seq → List Seq × List Seq → List Seq × List Seq
unfolding extend_with last_children
extend_path children path found = extend_with (last_children children path) path found

unfoldable pub extend_paths :
    (Name → List Name) → List Seq → List Seq × List Seq → List Seq × List Seq
unfolding extend_path
extend_paths children [] found = found
extend_paths children (path ∷ paths) found =
    extend_paths children paths (extend_path children path found)

-- The rounds that are left, `all_paths` and `paths`.
unfoldable pub derive_rounds : (Name → List Name) → ℕ → List Seq → List Seq → List Seq
unfolding extend_paths
derive_rounds children zero all_paths paths = all_paths ++ paths
derive_rounds children (suc rounds) all_paths paths =
    let found = extend_paths children paths (all_paths, []) in
    derive_rounds children rounds found.0 found.1

-- `derive_paths` with `path_len_limit-1` rounds
unfoldable pub derive_paths : (Name → List Name) → ℕ → Name → List Seq
unfolding derive_rounds
derive_paths children path_len_limit start_ftn =
    derive_rounds children (path_len_limit - 1) [] ((start_ftn ∷ []) ∷ [])

-- the loop of `_get_path` over the start functions
unfoldable pub paths_from :
    (Name → List Name) → ℕ → List Name → Dict Name (List Seq) → Dict Name (List Seq)
unfolding derive_paths insert
paths_from children path_len_limit [] paths = paths
paths_from children path_len_limit (sf ∷ start_functions) paths =
    paths_from children path_len_limit start_functions
      (insert sf (derive_paths children path_len_limit sf) paths)

unfoldable pub get_path : (Name → List Name) → ℕ → List Name → Dict Name (List Seq)
unfolding paths_from
get_path children path_len_limit start_functions =
    paths_from children path_len_limit start_functions []
