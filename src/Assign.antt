-- ===== src/Assign.antt =====
-- Class `FunctionAssignment` of fdg/control/function_assignment.py: which functions are executed on
-- a state, and how often each function was assigned. A missing key of `assignment_times` raises
-- `KeyError`, which is `none` here. The settings of fdg/global_config.py and the draws of
-- `random_indices` are parameters.
pub mod Left
pub mod Times
pub mod Steps
pub mod Chosen
pub mod Appends
pub mod Total
pub mod Counted
pub mod Counters
pub mod Tests
pub mod Random
use smart_executor.Percent.{percent, less_than}
use smart_executor.Keys.{Name, get_ftn_seq_from_key_1}
use smart_executor.Paths.{Seq}
use smart_executor.Targets.{Graph}
use smart_executor.Manager.{UpdateFwrg, FwrgManager, get_children_fwrg_T_A, get_children_all_reads}
use smart_executor.Reach.{SetOrder, can_reach_targets}
use smart_executor.Prelude.{
  ◌>>=◌, prepend, bind_some, Comparable, ◌==◌, eq_refl, list_beq_iff, nat_eq, list_eq,
  contains-append, contains-dedup, Nodup, contains-filter_by, All-of_contains, All-intro,
  Nodup-snoc, dedup-Nodup, list_beq, contains, dedup, filter_by, Dict, lookup-insert, has_key-eq,
  contains-keys, IsDict, insert-IsDict, entry, entry-insert, entry-cons, entry-eq-nil, lookup,
  insert, has_key, keys, values, pop, append_at, ℕ, zero, suc, ◌+◌, ◌-◌, ◌*◌, ◌/◌, ◌%◌, ◌^◌, ◌≤◌,
  ◌<◌, String, ◌≡◌, refl, sym, ap, ◌∙◌, subst, ◌≢◌, ◌↔◌, ◌⊎◌, inl, inr, Bool, true, false, ◌&&◌,
  ◌||◌, not, Option, none, some, List, [], ◌∷◌, ◌++◌, map, arith, ltb, leb, if◌then◌else◌, ltb→lt,
  lt→ltb, leb→le, ==_iff, tests, Bool-cases, Option-cases, is_some, codes, length, head?, get_last?,
  drop_last, get_elem?, take, drop, length-append, head?-append, get_last?-snoc, drop_last-snoc,
  drop_last-append, All, All-append, All-map,
}

-- A function's code coverage. The source stores the quotient in per cent as a float.
pub record Coverage : Type 0 where
  pub covered : ℕ
  pub total : ℕ

-- `cov < percent`
unfoldable pub is_below : ℕ → Coverage → Bool
unfolding less_than percent
is_below threshold cov = less_than (percent cov.covered cov.total) threshold

pub record FunctionAssignment : Type 0 where
  pub all_functions : List Name
  pub fwrg_manager : FwrgManager
  pub assignment_times : Dict Name ℕ
  pub times_limit : ℕ
  pub random_select_percent : ℕ

abbrev pub fallback : Name
fallback = codes "fallback"

unfoldable pub zero_times : List Name → Dict Name ℕ → Dict Name ℕ
unfolding insert
zero_times [] times = times
zero_times (ftn ∷ ftns) times = zero_times ftns (insert ftn 0 times)

unfoldable pub new_function_assignment : ℕ → List Name → FwrgManager → ℕ → FunctionAssignment
unfolding zero_times has_key insert
new_function_assignment execution_times_limit all_functions fwrg_manager select_percent =
    let times = zero_times all_functions [] in
    record {
      all_functions = all_functions;
      fwrg_manager = fwrg_manager;
      assignment_times = if has_key fallback times then times else insert fallback 0 times;
      times_limit = execution_times_limit;
      random_select_percent = select_percent;
    }

unfoldable pub count_assignment : List Name → Dict Name ℕ → Dict Name ℕ
unfolding lookup insert
count_assignment [] times = times
count_assignment (ftn ∷ ftns) times = elim (lookup ftn times) [
  | none ↦ count_assignment ftns times
  | some n ↦ count_assignment ftns (insert ftn (n + 1) times)
]

unfoldable pub record_assignment : List Name → FunctionAssignment → FunctionAssignment
unfolding count_assignment
record_assignment assigned self = record self {
  assignment_times = count_assignment assigned self.assignment_times;
}

abbrev pub original_instruction_list : List Name
original_instruction_list = codes "original_instruction_list" ∷ []

unfoldable pub assign_all_functions : FunctionAssignment → List Name × FunctionAssignment
unfolding record_assignment
assign_all_functions self = elim self.all_functions [
  | [] ↦ (original_instruction_list, self)
  | ftn ∷ ftns ↦ (self.all_functions, record_assignment self.all_functions self)
]

unfoldable pub fallback_case : FunctionAssignment → Name → List Name
unfolding contains
fallback_case self last =
    if contains (fallback ∷ codes "Fallback" ∷ []) last
    then (elim self.all_functions [ [] ↦ original_instruction_list | ftn ∷ ftns ↦ [] ])
    else []

-- The loop that fills `dk_left`, and `to_be_considered_functions` in the timeout variants.
unfoldable pub select_dk : Dict Name ℕ → ℕ → List (Name × Coverage) → Option (List Name)
unfolding lookup
select_dk times limit [] = some []
select_dk times limit ((ftn, cov) ∷ dk_functions) =
    let rest = select_dk times limit dk_functions in
    elim (lookup ftn times) [
      | none ↦ none
      | some n ↦
          if ltb n limit || not (leb (2 * limit) n) && is_below 70 cov
          then prepend ftn rest
          else rest
    ]

-- `consider_dk_functions_not_reachable`
unfoldable pub select_not_reachable : Dict Name ℕ → ℕ → List Name → Option (List Name)
unfolding lookup
select_not_reachable times limit [] = some []
select_not_reachable times limit (ftn ∷ ftns) =
    let rest = select_not_reachable times limit ftns in
    elim (lookup ftn times) [
      | none ↦ none
      | some n ↦ if ltb n limit then prepend ftn rest else rest
    ]

-- `for ftn in considered: if ftn not in children: children.append(ftn)`
unfoldable pub append_missing : List Name → List Name → List Name
unfolding contains
append_missing [] children = children
append_missing (ftn ∷ ftns) children =
    append_missing ftns (if contains children ftn then children else children ++ ftn ∷ [])

-- `permit self dependency once`
unfoldable pub permit_once : Seq → List Name → List Name
unfolding filter_by contains
permit_once ftn_seq children =
    if leb 2 (length ftn_seq)
    then filter_by (λ child. not (contains (drop_last ftn_seq) child)) children
    else children

-- `children += children_o` changes the list of the augmented graph that
-- `get_children_fwrg_T_A` returned, where the graph has one.
unfoldable pub extend_augmented : Name → List Name → FwrgManager → FwrgManager
unfolding has_key insert lookup
extend_augmented ftn children_o manager =
    let graph = manager.update_fwrg.fwrg_targets_augmented in
    if has_key ftn graph
    then record manager {
      update_fwrg = record manager.update_fwrg {
        fwrg_targets_augmented = insert ftn (entry ftn graph ++ children_o) graph;
      };
    }
    else manager

-- The lines from the fallback case on. `none` is also `IndexError`, for a sequence without a last
-- function.
unfoldable pub unless_fallback_of :
    (Seq → Name → Option (List Name × FunctionAssignment))
    → Seq
    → FunctionAssignment
    → Option (List Name × FunctionAssignment)
unfolding fallback_case
unless_fallback_of assign ftn_seq self = elim (get_last? ftn_seq) [
  | none ↦ none
  | some last ↦ elim (fallback_case self last) [
    | f ∷ fs ↦ some (f ∷ fs, self)
    | [] ↦ assign ftn_seq last
  ]
]

unfoldable pub unless_fallback :
    (Seq → Name → Option (List Name × FunctionAssignment))
    → Name
    → FunctionAssignment
    → Option (List Name × FunctionAssignment)
unfolding get_ftn_seq_from_key_1 unless_fallback_of
unless_fallback assign state_key self =
    unless_fallback_of assign (get_ftn_seq_from_key_1 state_key) self

-- The children that are targets or can reach one.
unfoldable pub reaching : SetOrder → ℕ → FwrgManager → List Name → Seq → List Name → List Name
unfolding can_reach_targets get_children_fwrg_T_A filter_by
reaching order seq_len_limit manager targets ftn_seq children =
    filter_by
      (λ child.
        can_reach_targets order (get_children_fwrg_T_A manager) targets child
          (seq_len_limit - length ftn_seq - 1))
      children

-- The children of the last function, and the graphs after they were read.
unfoldable pub read_children : SetOrder → Bool → Name → FwrgManager → List Name × FwrgManager
unfolding get_children_fwrg_T_A get_children_all_reads extend_augmented
read_children order consider_all_reads last manager =
    if consider_all_reads
    then (
      order.list_set (get_children_fwrg_T_A manager last ++ get_children_all_reads manager last),
      extend_augmented last (get_children_all_reads manager last) manager,
    )
    else (get_children_fwrg_T_A manager last, manager)

-- The children that are assigned, of those that were read.
unfoldable pub choose_children :
    SetOrder → ℕ → FwrgManager → List Name → List Name → List Name → Seq → List Name → List Name
unfolding reaching append_missing permit_once contains filter_by
choose_children order seq_len_limit manager dk_left considered not_to_execute ftn_seq children =
    permit_once ftn_seq (
      append_missing considered (
        reaching order seq_len_limit manager dk_left ftn_seq
          (filter_by (λ child. not (contains not_to_execute child)) children)))

module _ (order : SetOrder) (consider_all_reads : Bool) (seq_len_limit : ℕ) where
  -- The graph branch of `assign_functions`, for the last function of the sequence.
  unfoldable pub assign_by_graph :
      Seq
      → Name
      → List (Name × Coverage)
      → List Name
      → FunctionAssignment
      → Option (List Name × FunctionAssignment)
  unfolding select_dk read_children choose_children select_not_reachable record_assignment
  assign_by_graph ftn_seq last dk_functions not_to_execute self = do
    dk_left ← select_dk self.assignment_times self.times_limit dk_functions
    considered ←
        select_not_reachable self.assignment_times self.times_limit
          self.fwrg_manager.update_fwrg.dk_not_reachable
    let found = read_children order consider_all_reads last self.fwrg_manager in
        let children =
          choose_children order seq_len_limit found.1 dk_left considered not_to_execute ftn_seq
            found.0 in
        some (children, record_assignment children (record self { fwrg_manager = found.1 }))

  unfoldable pub assign_functions :
      Name
      → List (Name × Coverage)
      → List Name
      → List Name
      → FunctionAssignment
      → Option (List Name × FunctionAssignment)
  unfolding record_assignment unless_fallback assign_by_graph
  assign_functions state_key dk_functions (ftn ∷ ftns) not_to_execute self =
      some (ftn ∷ ftns, record_assignment (ftn ∷ ftns) self)
  assign_functions state_key dk_functions [] not_to_execute self =
      unless_fallback
        (λ ftn_seq last. assign_by_graph ftn_seq last dk_functions not_to_execute self) state_key
        self
