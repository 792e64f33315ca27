-- ===== src/Slots/Tests.antt =====
-- Locations are numbers here; the slot of a location is the letter with this number, and location 0
-- has no slot.
use smart_executor.Prelude.{
  list_beq, contains, Dict, IsDict, entry, lookup, insert, ℕ, zero, suc, ◌≡◌, refl, some, List, [],
  ◌∷◌, codes, nat_eq, list_eq,
}
use smart_executor.Keys.{Name}
use smart_executor.Slots.{refine_slots, record_location, collect_slots, collect_locations, Trace}
use smart_executor.Slots.Refine.{any_slot_at, contains-refine_read_write_slots}

abbrev letter : ℕ → Name
letter zero = []
letter (suc n) = suc n ∷ []

abbrev accesses_f1 : Dict ℕ (List ℕ)
accesses_f1 = (40, 97 ∷ 98 ∷ []) ∷ (52, 97 ∷ []) ∷ []

-- `f1` accesses two locations at address 40, one of them again at address 52.
abbrev trace_2 : Trace ℕ
trace_2 = (codes "f1", accesses_f1) ∷ (codes "f2", (60, 0 ∷ []) ∷ []) ∷ []

program : Unit {0}
unfolding record_location refine_slots list_beq lookup contains collect_locations collect_slots
program = tt

trace_run :
    record_location (codes "f1") 52 97 (
      record_location (codes "f2") 60 0 (
        record_location
          (codes "f1")
          40
          98
          (record_location (codes "f1") 40 97 (record_location (codes "f1") 40 97 []))))
    ≡ trace_2
unfolding program insert
trace_run = refl

refine_run :
    refine_slots letter trace_2 []
    ≡ (codes "f1", codes "a" ∷ codes "b" ∷ []) ∷ (codes "f2", []) ∷ []
unfolding program insert
refine_run = refl

trace_2-IsDict : IsDict trace_2
unfolding program
trace_2-IsDict = (refl, (refl, tt))

trace_2-f1 : lookup (codes "f1") trace_2 ≡ some accesses_f1
unfolding program
trace_2-f1 = refl

contains-refine_read_write_slots_example :
    contains (entry (codes "f1") (refine_slots letter trace_2 [])) (codes "b")
    ≡ any_slot_at letter accesses_f1 (codes "b")
contains-refine_read_write_slots_example =
    contains-refine_read_write_slots letter trace_2 (codes "f1") accesses_f1 (codes "b")
      trace_2-IsDict trace_2-f1
