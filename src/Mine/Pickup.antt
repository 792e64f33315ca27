-- ===== src/Mine/Pickup.antt =====
-- `pickup_a_state` and `break_a_tie` of class `Mine`, fdg/control/mine.py.
pub mod Best
pub mod Highest
pub mod Total
use smart_executor.Prelude.{
  ◌>>=◌, ◌==◌, contains, filter_by, Dict, entry, lookup, insert, keys, ℕ, zero, suc, not, Option,
  none, some, List, [], ◌∷◌, ◌++◌, leb, if◌then◌else◌, length, head?, get_last?, get_elem?, nat_eq,
  list_eq, maybe, Bool, true, ◌&&◌, is_some,
}
use smart_executor.Assign.Random.{Draw}
use smart_executor.Keys.{get_ftn_seq_from_key_1, Name}
use smart_executor.Mine.{Mine, sort_desc, get_written_slots_in_depth_str}
use smart_executor.Manager.{get_children_fwrg_T_A}
use smart_executor.Fwrg.{get_reads_in_conditions, Fwrg}
use smart_executor.Reach.{SetOrder, get_targets_be_reached}

-- What the choice depends on. `value` codes the float to which a list of quotients sums up, in such
-- a way that the codes are ordered as the floats are: the bits of a float that is not negative.
pub record Scoring : Type 0 where
  pub order : SetOrder
  pub value : List (ℕ × ℕ) → ℕ
  pub draw : Draw

-- `common_elements` of fdg/expression_slot.py
unfoldable pub common_reads : List Name → List Name → List Name
unfolding filter_by contains
common_reads reads written = filter_by (contains written) reads

-- `{dk: get_reads_in_conditions(dk) for dk in targets}`
unfoldable pub reads_of_targets : Fwrg → List Name → Dict Name (List Name) → Dict Name (List Name)
unfolding get_reads_in_conditions insert
reads_of_targets fwrg [] reads = reads
reads_of_targets fwrg (dk ∷ targets) reads =
    reads_of_targets fwrg targets (insert dk (get_reads_in_conditions fwrg dk) reads)

-- `data`: the share of each target's reads that are written, for the targets with reads
unfoldable pub shares : Dict Name (List Name) → List Name → List (ℕ × ℕ)
unfolding common_reads
shares [] written = []
shares ((dk, []) ∷ targets) written = shares targets written
shares ((dk, read ∷ reads) ∷ targets) written =
    (length (common_reads (read ∷ reads) written), length (read ∷ reads)) ∷ shares targets written

abbrev pub recent_writes : Dict ℕ (List Name) → Name → List Name
recent_writes written state_key = entry (length (get_ftn_seq_from_key_1 state_key)) written

-- The writes at all depths but one.
unfoldable pub writes_before : ℕ → Dict ℕ (List Name) → List Name
writes_before depth [] = []
writes_before depth ((d, writes) ∷ written) =
    let rest = writes_before depth written in if d == depth then rest else writes ++ rest

-- `most_recent_new_writes`
unfoldable pub most_recent_new_writes : Dict ℕ (List Name) → Name → List Name
unfolding get_ftn_seq_from_key_1 writes_before filter_by contains lookup
most_recent_new_writes written state_key =
    let before = writes_before (length (get_ftn_seq_from_key_1 state_key)) written in
    filter_by (λ w. not (contains before w)) (recent_writes written state_key)

abbrev pub Pairs : Type 0
Pairs = List (ℕ × Name)

-- The pairs whose score is the first one's, and the position if there is one such pair only.
unfoldable pub leaders : (Name → ℕ) → Pairs → Option ℕ × Pairs
unfolding filter_by
leaders score [] = (none, [])
leaders score (first ∷ pairs) =
    let candi = filter_by (λ p. score p.1 == score first.1) (first ∷ pairs) in
    (if length candi == 1 then some first.0 else none, candi)

-- One rule of the tie break: the largest scores win.
unfoldable pub break_by : (Name → ℕ) → Pairs → Option ℕ × Pairs
unfolding leaders sort_desc
break_by score pairs = leaders score (sort_desc (λ p. score p.1) pairs)

-- `sort(key=…, reverse=False)`
unfoldable pub insert_asc : (Name → ℕ) → ℕ × Name → Pairs → Pairs
insert_asc score x [] = x ∷ []
insert_asc score x (y ∷ ys) =
    if leb (score x.1) (score y.1) then x ∷ y ∷ ys else y ∷ insert_asc score x ys

unfoldable pub sort_asc : (Name → ℕ) → Pairs → Pairs
unfolding insert_asc
sort_asc score [] = []
sort_asc score (x ∷ xs) = insert_asc score x (sort_asc score xs)

-- `break_by_depth`
unfoldable pub break_by_depth : Pairs → Option ℕ × Pairs
unfolding leaders sort_asc get_ftn_seq_from_key_1
break_by_depth pairs =
    let depth : Name → ℕ = λ key. length (get_ftn_seq_from_key_1 key) in
    leaders depth (sort_asc depth pairs)

-- `break_num_reached_dk_functions`, by the numbers: the rule is left out where the largest is 0.
unfoldable pub unless_zero : (Name → ℕ) → Pairs → Option ℕ × Pairs
unfolding leaders
unless_zero num [] = (none, [])
unless_zero num (first ∷ pairs) =
    if num first.1 == 0 then (none, first ∷ pairs) else leaders num (first ∷ pairs)

unfoldable pub break_num_reached : (Name → ℕ) → Pairs → Option ℕ × Pairs
unfolding unless_zero sort_desc
break_num_reached num pairs = unless_zero num (sort_desc (λ p. num p.1) pairs)

-- `select_randomly`
unfoldable pub select_randomly : Draw → Pairs → Option ℕ
select_randomly draw pairs =
    head? (draw.indices (length pairs) 1) >>= λ i. get_elem? pairs i >>= λ p. some p.0

-- `if win_idx is not None: return win_idx`, and else the next rule
unfoldable pub or_next : Option ℕ × Pairs → (Pairs → Option ℕ) → Option ℕ
or_next (some win_idx, candi) next = some win_idx
or_next (none, candi) next = next candi

module _ {World : Type 0} (scoring : Scoring) (self : Mine World) (targets : List Name) where
  abbrev pub reads_in_conditions_of_targets : Dict Name (List Name)
  reads_in_conditions_of_targets =
      reads_of_targets self.search.function_assignment.fwrg_manager.fwrg targets []

  -- `evaluate_state`, on the slots of the state's storage; `none` is `KeyError`.
  unfoldable pub evaluate_state : Name → Option ℕ
  unfolding shares reads_of_targets lookup
  evaluate_state state_key = lookup state_key self.state_storage >>= λ slots.
      some (scoring.value (shares reads_in_conditions_of_targets slots))

  -- `state_key_value_pairs` is built for all keys of the queue.
  unfoldable pub all_evaluated : List Name → Bool
  unfolding evaluate_state
  all_evaluated [] = true
  all_evaluated (key ∷ queue) = is_some (evaluate_state key) && all_evaluated queue

  -- The value of a key in it.
  unfoldable pub state_value : Name → ℕ
  unfolding evaluate_state
  state_value state_key = maybe (evaluate_state state_key) 0 (λ v. v)

  -- `evaluate_recent_writes`
  unfoldable pub evaluate_recent_writes : Name → ℕ
  unfolding shares reads_of_targets get_written_slots_in_depth_str lookup get_ftn_seq_from_key_1
  evaluate_recent_writes state_key = scoring.value (
      shares reads_in_conditions_of_targets
        (recent_writes (get_written_slots_in_depth_str self state_key) state_key))

  unfoldable pub num_new_recent_writes : Name → ℕ
  unfolding most_recent_new_writes get_written_slots_in_depth_str
  num_new_recent_writes state_key =
      length (most_recent_new_writes (get_written_slots_in_depth_str self state_key) state_key)

  -- `num_reached_dk_functions`
  unfoldable pub num_reached_dk_functions : Name → ℕ
  unfolding get_targets_be_reached get_children_fwrg_T_A get_ftn_seq_from_key_1
  num_reached_dk_functions state_key = elim (get_last? (get_ftn_seq_from_key_1 state_key)) [
    | none ↦ 0
    | some ftn ↦ length (
        get_targets_be_reached scoring.order
          (get_children_fwrg_T_A self.search.function_assignment.fwrg_manager) targets ftn 1)
  ]

  unfoldable pub break_a_tie : Pairs → Option ℕ
  unfolding or_next break_by break_by_depth break_num_reached select_randomly num_new_recent_writes
      evaluate_recent_writes num_reached_dk_functions
  break_a_tie pairs = or_next (break_by num_new_recent_writes pairs) (λ new_writes_candi.
      or_next (break_by evaluate_recent_writes new_writes_candi) (λ recent_candi.
        or_next (break_by_depth recent_candi) (λ depth_candi.
          or_next (break_num_reached num_reached_dk_functions depth_candi)
            (λ num_candi. select_randomly scoring.draw num_candi))))

-- `enumerate`, from `idx` on
unfoldable pub enumerate : ℕ → List Name → Pairs
enumerate idx [] = []
enumerate idx (key ∷ keys) = (idx, key) ∷ enumerate (suc idx) keys

-- `queue.pop(idx)`; `none` is `IndexError`.
unfoldable pub pop_at : ℕ → List Name → Option (Name × List Name)
pop_at idx [] = none
pop_at zero (key ∷ queue) = some (key, queue)
pop_at (suc idx) (key ∷ queue) = pop_at idx queue >>= λ found. some (found.0, key ∷ found.1)

-- The keys of `queue` that are left behind the chosen one.
module _ {World : Type 0} (scoring : Scoring) (self : Mine World) (targets : List Name) where
  -- The ordered queue, and the position to take from it.
  unfoldable pub choose_position : List Name → Option ℕ
  unfolding leaders enumerate state_value break_a_tie
  choose_position queue =
      let (win_idx, candi) = leaders (state_value scoring self targets) (enumerate 0 queue) in
      or_next (win_idx, candi) (break_a_tie scoring self targets)

  unfoldable pub pickup_a_state : List Name → Option (Name × List Name)
  unfolding choose_position sort_desc state_value all_evaluated pop_at
  pickup_a_state [] = none
  pickup_a_state (key ∷ []) = some (key, [])
  pickup_a_state (key ∷ next ∷ queue) =
      if all_evaluated scoring self targets (key ∷ next ∷ queue)
      then (let sorted = sort_desc (state_value scoring self targets) (key ∷ next ∷ queue) in
          choose_position sorted >>= λ win_idx. pop_at win_idx sorted)
      else none
