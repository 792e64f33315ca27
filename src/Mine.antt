-- ===== src/Mine.antt =====
-- Class `Mine` of fdg/control/mine.py. A storage slot stands for the text to which
-- `identify_slot_from_symbolic_slot_expression` maps its expression, and the prints are left out.
pub mod Sorted
pub mod Filter
pub mod Pickup
pub mod Rounds
pub mod Tests
use smart_executor.Prelude.{
  ◌>>=◌, prepend, ◌==◌, list_beq, contains, filter_by, Dict, entry, lookup, insert, has_key, keys,
  append_at, ℕ, suc, ◌-◌, Bool, ◌&&◌, ◌||◌, not, Option, some, List, ◌∷◌, ◌++◌, ltb, leb,
  if◌then◌else◌, codes, length, take, drop, nat_eq, list_eq, [],
}
use smart_executor.Strategy.{Search}
use smart_executor.Assign.{fallback}
use smart_executor.Reach.{SetOrder}
use smart_executor.Keys.{get_ftn_seq_from_key_1, get_key_1_prefix, Name, hash}

-- What the strategy asks of a world state: the slots of the contract's storage, and the slots written
-- at each depth as the dependency pruner annotates them.
pub record WorldView (World : Type 0) : Type 0 where
  pub printable_storage : World → List Name
  pub writes_annotation : World → Dict ℕ (List Name)

pub record Mine (World : Type 0) : Type 0 where
  pub search : Search World
  pub state_storage : Dict Name (List Name)
  pub written_slots_in_depth_str : Dict Name (Dict ℕ (List Name))
  pub state_key_assigned_at_last : Name

abbrev pub constructor_name : Name
constructor_name = codes "constructor"

module _ {World : Type 0} where
  -- `get_written_slots_in_depth_str`
  unfoldable pub get_written_slots_in_depth_str : Mine World → Name → Dict ℕ (List Name)
  unfolding lookup
  get_written_slots_in_depth_str self state_key = entry state_key self.written_slots_in_depth_str

  module _ (order : SetOrder) (view : WorldView World) where
    -- The body of the loops of `update_states`.
    unfoldable pub update_state : Name → World → Mine World → Mine World
    unfolding get_ftn_seq_from_key_1 contains insert lookup has_key get_written_slots_in_depth_str
    update_state key state self =
        let ftn_seq = get_ftn_seq_from_key_1 key in
        let slots = view.printable_storage state in
        if contains ftn_seq constructor_name
        then record self {
          state_storage = insert key slots self.state_storage;
          written_slots_in_depth_str =
              if has_key key self.written_slots_in_depth_str
              then self.written_slots_in_depth_str
              else insert key ((0, slots) ∷ []) self.written_slots_in_depth_str;
        }
        else record self {
          search = record self.search {
            world_states = insert key (state ∷ []) self.search.world_states;
            pending = self.search.pending ++ key ∷ [];
          };
          state_storage = insert key slots self.state_storage;
          written_slots_in_depth_str =
              insert key
                (insert (length ftn_seq)
                  (order.list_set (entry (length ftn_seq) (view.writes_annotation state)))
                  (get_written_slots_in_depth_str self self.state_key_assigned_at_last))
                self.written_slots_in_depth_str;
        }

    unfoldable pub update_states_of : Name → List World → Mine World → Mine World
    unfolding update_state
    update_states_of key [] self = self
    update_states_of key (state ∷ states) self =
        update_states_of key states (update_state key state self)

    unfoldable pub update_states : Dict Name (List World) → Mine World → Mine World
    unfolding update_states_of
    update_states [] self = self
    update_states ((key, states) ∷ states_dict) self =
        update_states states_dict (update_states_of key states self)

-- `termination`
unfoldable pub termination_mine : ℕ → ℕ → Bool
termination_mine states_num iteration = leb iteration 2 && states_num == 0

-- `sort(key=…, reverse=True)`: stable, the largest first
module _ {A : Type 0} (key : A → ℕ) where
  unfoldable pub insert_desc : A → List A → List A
  insert_desc x [] = x ∷ []
  insert_desc x (y ∷ ys) = if leb (key y) (key x) then x ∷ y ∷ ys else y ∷ insert_desc x ys

  unfoldable pub sort_desc : List A → List A
  unfolding insert_desc
  sort_desc [] = []
  sort_desc (x ∷ xs) = insert_desc x (sort_desc xs)

-- `str.startswith` and `str.endswith`
unfoldable pub starts_with : Name → Name → Bool
unfolding list_beq
starts_with prefix text = take (length prefix) text == prefix

unfoldable pub ends_with : Name → Name → Bool
unfolding list_beq
ends_with suffix text =
    leb (length suffix) (length text) && drop (length text - length suffix) text == suffix

-- The keys of `filter_states` that are passed over: of several functions, with a text that starts and
-- ends with `fallback`, or ends with `fallback#fallback`.
unfoldable pub is_fallback_run : Name → Bool
unfolding contains starts_with ends_with
is_fallback_run key_prefix =
    contains key_prefix hash
    && (starts_with fallback key_prefix && ends_with fallback key_prefix
        || ends_with (codes "fallback#fallback") key_prefix)

-- `count`: the keys that are left, by their prefix; `none` is `ValueError` of `rindex`.
unfoldable pub count_prefixes : List Name → Dict Name (List Name) → Option (Dict Name (List Name))
unfolding get_key_1_prefix is_fallback_run append_at
count_prefixes [] count = some count
count_prefixes (key ∷ queue) count = get_key_1_prefix key >>= λ key_prefix.
    count_prefixes queue
      (if is_fallback_run key_prefix then count else append_at key_prefix key count)

unfoldable pub two_list_equal : List Name → List Name → Bool
unfolding filter_by contains
two_list_equal lst1 lst2 =
    not (ltb 0 (length (filter_by (λ e. not (contains lst2 e)) lst1)))
    && not (ltb 0 (length (filter_by (λ e. not (contains lst1 e)) lst2)))

-- The writes in the last step of each key; `none` is `KeyError`.
unfoldable pub recent_writes_of :
    Dict Name (Dict ℕ (List Name)) → List Name → Option (List (Name × List Name))
unfolding lookup get_ftn_seq_from_key_1
recent_writes_of written [] = some []
recent_writes_of written (key ∷ keys) = lookup key written >>= λ in_depth.
    prepend (key, entry (length (get_ftn_seq_from_key_1 key)) in_depth)
      (recent_writes_of written keys)

-- `for idx, (key, recent_writes) in enumerate(key_recent_writes_pairs)`, from position `idx` on
unfoldable pub keep_different : ℕ → List Name → List (Name × List Name) → List Name
unfolding two_list_equal
keep_different idx cur_writes [] = []
keep_different idx cur_writes ((key, recent_writes) ∷ pairs) =
    let keeps = leb idx 2 || not (two_list_equal cur_writes recent_writes) in
    let rest = keep_different (suc idx) (if keeps then recent_writes else cur_writes) pairs in
    if keeps then key ∷ rest else rest

-- The keys of one sequence that stay.
unfoldable pub filter_keys : Dict Name (Dict ℕ (List Name)) → List Name → Option (List Name)
unfolding recent_writes_of sort_desc keep_different
filter_keys written [] = some []
filter_keys written (key ∷ []) = some (key ∷ [])
filter_keys written (key ∷ next ∷ keys) = recent_writes_of written (key ∷ next ∷ keys) >>= λ pairs.
    some (keep_different 0 [] (sort_desc (λ p. length p.1) pairs))

unfoldable pub filter_groups :
    Dict Name (Dict ℕ (List Name)) → Dict Name (List Name) → Option (List Name)
unfolding filter_keys
filter_groups written [] = some []
filter_groups written ((key_prefix, keys) ∷ count) = do
  kept ← filter_keys written keys
  rest ← filter_groups written count
  some (kept ++ rest)

unfoldable pub filter_queue : Dict Name (Dict ℕ (List Name)) → List Name → Option (List Name)
unfolding count_prefixes filter_groups
filter_queue written queue = count_prefixes queue [] >>= λ count. filter_groups written count

unfoldable pub filter_states : {World : Type 0} → Mine World → Option (Mine World)
unfolding filter_queue
filter_states self = filter_queue self.written_slots_in_depth_str self.search.pending >>= λ queue.
    some (record self { search = record self.search { pending = queue } })
