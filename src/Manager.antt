-- ===== src/Manager.antt =====
-- Class `FWRG_manager` of fdg/fwrg_manager.py: the graphs of a contract, built one from another,
-- with the constructors of `AcyclicPath` and `UpdateFWRG`. `seq_len_limit` is a parameter, and so
-- are the slots that the preprocessing found.
pub mod Reachable
pub mod Tests
use smart_executor.Keys.{Name}
use smart_executor.Fwrg.{Slots, Children, Fwrg, new_fwrg, generate_graph_all_reads, get_children}
use smart_executor.Paths.{Seq, get_path}
use smart_executor.Targets.{
  PathsTo, Graph, organize_paths, construct_fwrg_targets, identity_dk_function_not_reachable,
}
use smart_executor.Augment.{add_edges_1}
use smart_executor.Prelude.{nat_eq, list_eq, Dict, entry, lookup, ℕ, List}

-- `AcyclicPath`
pub record AcyclicPath : Type 0 where
  pub start_functions : List Name
  pub dk_functions : List Name
  pub paths : Dict Name (List Seq)
  pub paths_df : PathsTo

unfoldable pub new_acyclic_path : ℕ → List Name → List Name → Fwrg → AcyclicPath
unfolding get_path organize_paths get_children
new_acyclic_path seq_len_limit start_functions dk_functions fwrg =
    let paths = get_path (get_children fwrg.fwrg_dict) seq_len_limit start_functions in
    record {
      start_functions = start_functions;
      dk_functions = dk_functions;
      paths = paths;
      paths_df = organize_paths dk_functions paths;
    }

-- `UpdateFWRG`
pub record UpdateFwrg : Type 0 where
  pub fwrg_targets : Graph
  pub fwrg_targets_augmented : Graph
  pub dk_not_reachable : List Name

unfoldable pub new_update_fwrg : AcyclicPath → UpdateFwrg
unfolding construct_fwrg_targets add_edges_1 identity_dk_function_not_reachable
new_update_fwrg paths =
    let targets = construct_fwrg_targets paths.paths_df in
    record {
      fwrg_targets = targets;
      fwrg_targets_augmented = add_edges_1 paths.paths_df targets;
      dk_not_reachable = identity_dk_function_not_reachable paths.dk_functions paths.paths_df;
    }

pub record FwrgManager : Type 0 where
  pub fwrg : Fwrg
  pub fwrg_all_reads : Dict Name Children
  pub acyclic_paths : AcyclicPath
  pub update_fwrg : UpdateFwrg

-- `FWRG_manager.__init__`, given the names of the target functions
unfoldable pub new_fwrg_manager :
    ℕ → List Name → List Name → Dict Name Slots → Dict Name Slots → Dict Name Slots → FwrgManager
unfolding new_fwrg generate_graph_all_reads new_acyclic_path new_update_fwrg
new_fwrg_manager seq_len_limit start_functions dk_functions read_slots_in_conditions write_slots
      read_slots =
    let fwrg = new_fwrg read_slots_in_conditions write_slots in
    let acyclic_paths = new_acyclic_path seq_len_limit start_functions dk_functions fwrg in
    record {
      fwrg = fwrg;
      fwrg_all_reads = generate_graph_all_reads write_slots read_slots;
      acyclic_paths = acyclic_paths;
      update_fwrg = new_update_fwrg acyclic_paths;
    }

unfoldable pub get_children_fwrg_T_A : FwrgManager → Name → List Name
unfolding lookup
get_children_fwrg_T_A manager ftn = entry ftn manager.update_fwrg.fwrg_targets_augmented

unfoldable pub get_children_all_reads : FwrgManager → Name → List Name
unfolding get_children
get_children_all_reads manager ftn = get_children manager.fwrg_all_reads ftn

unfoldable pub get_children_fwrg : FwrgManager → Name → List Name
unfolding get_children
get_children_fwrg manager ftn = get_children manager.fwrg.fwrg_dict ftn

unfoldable pub get_children_bf_update : FwrgManager → Name → List Name
unfolding lookup
get_children_bf_update manager ftn = entry ftn manager.update_fwrg.fwrg_targets
