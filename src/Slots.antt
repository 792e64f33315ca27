-- ===== src/Slots.antt =====
-- The slots that the functions read and write: class `Function_Write_Read_Info` of
-- fdg/preprocessing/write_read_info.py, and `extract_read_slots_in_conditions` of class
-- `ReadInCondition`, fdg/preprocessing/read_in_conditions.py. A location is an expression of the
-- solver: its equality, whether its text is too long, and the slot in it are arguments. The slot is
-- the empty text where none is found.
use smart_executor.Prelude.{
  Comparable, contains, Dict, entry, lookup, insert, ℕ, Bool, ◌&&◌, not, none, some, List, [], ◌∷◌,
  ◌++◌, ltb, if◌then◌else◌, length, nat_eq, list_eq,
}
use smart_executor.Keys.{Name}
pub mod Refine
pub mod Tests

-- The locations that each function accesses, by the address of the instruction.
abbrev pub Trace : Type 0 → Type 0
Trace Location = Dict Name (Dict ℕ (List Location))

module _ {Location : Type 0} ⦃e : Comparable Location⦄ where
  -- `if loc not in locations_all: locations_all.append(loc)`
  unfoldable pub add_location : Location → List Location → List Location
  unfolding contains
  add_location loc locations_all =
      if contains locations_all loc then locations_all else locations_all ++ loc ∷ []

  -- The location is put at the function and the address.
  unfoldable pub record_location : Name → ℕ → Location → Trace Location → Trace Location
  unfolding lookup insert add_location
  record_location function address location trace =
      let at_addresses = entry function trace in
      insert function
        (insert address (add_location location (entry address at_addresses)) at_addresses) trace

  -- `update_sload` and `update_sstore`, on the trace of the reads or of the writes
  unfoldable pub update_trace :
      (Location → Bool) → Name → ℕ → Location → Trace Location → Trace Location
  unfolding record_location
  update_trace is_too_long function address location trace =
      if is_too_long location then trace else record_location function address location trace

  unfoldable pub add_locations : List Location → List Location → List Location
  unfolding add_location
  add_locations [] locations_all = locations_all
  add_locations (loc ∷ locations) locations_all =
      add_locations locations (add_location loc locations_all)

  -- `for addr, locations in writes.items()`
  unfoldable pub collect_locations : Dict ℕ (List Location) → List Location → List Location
  unfolding add_locations
  collect_locations [] locations_all = locations_all
  collect_locations ((addr, locations) ∷ writes) locations_all =
      collect_locations writes (add_locations locations locations_all)

module _ {Location : Type 0} (slot_of : Location → Name) where
  -- `for loc in locations_all`
  unfoldable pub collect_slots : List Location → List Name → List Name
  unfolding contains
  collect_slots [] my_slots = my_slots
  collect_slots (loc ∷ locations) my_slots = collect_slots locations (
      if ltb 0 (length (slot_of loc)) && not (contains my_slots (slot_of loc))
      then my_slots ++ slot_of loc ∷ []
      else my_slots)

module _ {Location : Type 0} ⦃e : Comparable Location⦄ (slot_of : Location → Name) where
  -- One loop of `refine_read_write_slots`, over the writes or over the reads
  unfoldable pub refine_slots :
      Dict Name (Dict ℕ (List Location)) → Dict Name (List Name) → Dict Name (List Name)
  unfolding collect_locations collect_slots insert
  refine_slots [] slots = slots
  refine_slots ((ftn_name, accesses) ∷ trace) slots =
      refine_slots trace
        (insert ftn_name (collect_slots slot_of (collect_locations accesses []) []) slots)

  module _ {Condition : Type 0} ⦃c : Comparable Condition⦄
      (locations_in : Condition → List Location) where
    unfoldable pub locations_of : List Condition → List Location → List Location
    unfolding add_locations
    locations_of [] all_locations = all_locations
    locations_of (condi ∷ conditions) all_locations =
        locations_of conditions (add_locations (locations_in condi) all_locations)

    -- `extract_read_slots_in_conditions`
    unfoldable pub extract_read_slots_in_conditions :
        Dict Name (Dict ℕ (List Condition)) → Dict Name (List Name) → Dict Name (List Name)
    unfolding collect_locations locations_of collect_slots insert
    extract_read_slots_in_conditions [] slots = slots
    extract_read_slots_in_conditions ((ftn, addr_conditions) ∷ function_conditions) slots =
        extract_read_slots_in_conditions function_conditions (
          insert ftn
            (collect_slots slot_of (locations_of (collect_locations addr_conditions []) []) [])
            slots)
