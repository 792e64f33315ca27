-- ===== src/Dispatcher/Tests.antt =====
-- The dispatcher of a contract with two functions, laid out as the compiler does it.
use smart_executor.Dispatcher.Emptied.{IsDup1, IsAny, Emptied}
use smart_executor.Dispatcher.States.{modity_on_multiple_states_total, Recoded, AllPairs}
use smart_executor.Mine.{starts_with}
use smart_executor.Dispatcher.Kept.{IsKept}
use smart_executor.Dispatcher.Arguments.{HasArgument, feed_instructions_update-is_some}
use smart_executor.Prelude.{
  Dict, ℕ, String, ◌≡◌, refl, none, some, List, [], ◌∷◌, ◌++◌, codes, nat_eq, list_eq, list_beq,
  contains, lookup, ◌⊎◌, inl, inr, true, arith, is_some, get_elem?, All, list_beq_iff, entry, sym,
  subst,
}
use smart_executor.Dispatcher.Fed.{fresh}
use smart_executor.Keys.{Name}
use smart_executor.Dispatcher.Modified.{
  combine-feed_instructions_update, get_modified_instructions_1_total, kept_instruction_lem,
  dropped_instruction_lem, IsChange,
}
use smart_executor.Dispatcher.{Instruction, feed_instructions_update, InstructionModification}
use smart_executor.Dispatcher.Modify.{
  combine, get_modified_instructions_1, modity_on_multiple_states, WorldState, empty_instruction,
}

abbrev pub plain : ℕ → String → Instruction
plain n name = record { address = n; opcode = codes name; argument = none }

abbrev pub push : ℕ → String → List ℕ → Instruction
push n name bytes = record { address = n; opcode = codes name; argument = some bytes }

-- Up to the selector of the call, with the address 60 of the revert block.
abbrev pub group_0 : List Instruction
group_0 =
    push 0 "PUSH1" (4 ∷ [])
    ∷ plain 2 "CALLDATASIZE"
    ∷ plain 3 "LT"
    ∷ push 4 "PUSH2" (0 ∷ 60 ∷ [])
    ∷ plain 7 "JUMPI"
    ∷ push 8 "PUSH1" (0 ∷ [])
    ∷ plain 10 "CALLDATALOAD"
    ∷ push 11 "PUSH1" (224 ∷ [])
    ∷ plain 13 "SHR"
    ∷ plain 14 "DUP1"
    ∷ []

abbrev pub group_1 : List Instruction
group_1 =
    push 15 "PUSH4" (17 ∷ 17 ∷ 17 ∷ 17 ∷ [])
    ∷ plain 20 "EQ"
    ∷ push 21 "PUSH2" (0 ∷ 70 ∷ [])
    ∷ plain 24 "JUMPI"
    ∷ plain 25 "DUP1"
    ∷ []

abbrev pub group_2 : List Instruction
group_2 =
    push 26 "PUSH4" (34 ∷ 34 ∷ 34 ∷ 34 ∷ [])
    ∷ plain 31 "EQ"
    ∷ push 32 "PUSH2" (0 ∷ 80 ∷ [])
    ∷ plain 35 "JUMPI"
    ∷ []

abbrev pub bodies : List Instruction
bodies = plain 60 "JUMPDEST" ∷ plain 61 "REVERT" ∷ plain 70 "JUMPDEST" ∷ plain 71 "STOP" ∷ []

abbrev pub code_2 : List Instruction
code_2 = group_0 ++ group_1 ++ group_2 ++ bodies

abbrev pub ids_2 : Dict Name Name
ids_2 = (codes "f()", codes "0x11111111") ∷ (codes "g()", codes "0x22222222") ∷ []

abbrev pub fed_2 : InstructionModification
fed_2 = record {
  function_identifier = ids_2;
  contract_address = 9;
  instruction_list = code_2;
  functions_to_positions = (codes "0x11111111", 1 ∷ []) ∷ (codes "0x22222222", 2 ∷ []) ∷ [];
  positions_to_instructions = (0, group_0) ∷ (1, group_1) ∷ (2, group_2) ∷ (3, bodies) ∷ [];
  all_positions_related_function = 1 ∷ 2 ∷ [];
  jumpdest_in_dispatcher = [];
  address_jumpdest_revert_block = 60;
  positions_contain_gt = [];
}

pub feeds_2 : feed_instructions_update (fresh ids_2 9 code_2) ≡ some fed_2
unfolding feed_instructions_update
feeds_2 = refl

-- The first function is kept: the `DUP1` at its end is cleared.
abbrev after_2 : List Instruction
after_2 =
    group_0
    ++ push 15 "PUSH4" (17 ∷ 17 ∷ 17 ∷ 17 ∷ [])
      ∷ plain 20 "EQ"
      ∷ push 21 "PUSH2" (0 ∷ 70 ∷ [])
      ∷ plain 24 "JUMPI"
      ∷ plain 25 "EMPTY"
      ∷ plain 26 "EMPTY"
      ∷ plain 31 "EMPTY"
      ∷ plain 32 "EMPTY"
      ∷ plain 35 "EMPTY"
      ∷ bodies

modifies_2 : get_modified_instructions_1 fed_2 (codes "0x11111111" ∷ []) ≡ some after_2
unfolding get_modified_instructions_1
modifies_2 = refl

combine-feed_instructions_update_example :
    combine [] 4 fed_2.positions_to_instructions ≡ some code_2
combine-feed_instructions_update_example =
    combine-feed_instructions_update ids_2 9 code_2 fed_2 feeds_2

get_modified_instructions_1_total_example :
    (after : List Instruction) × IsChange code_2 fed_2 (codes "0x22222222" ∷ []) after
get_modified_instructions_1_total_example =
    get_modified_instructions_1_total ids_2 9 code_2 fed_2 feeds_2 (codes "0x22222222" ∷ [])

before_2 : combine [] 2 fed_2.positions_to_instructions ≡ some (group_0 ++ group_1)
unfolding combine lookup contains
before_2 = refl

before_1 : combine [] 1 fed_2.positions_to_instructions ≡ some group_0
unfolding combine lookup contains
before_1 = refl

is_recorded : contains fed_2.all_positions_related_function 2 ≡ true
unfolding contains
is_recorded = refl

is_dropped : ¬ IsKept fed_2 (codes "0x11111111" ∷ []) 2
unfolding contains list_beq lookup
is_dropped (inl gt) = cc gt
is_dropped (inr (selector, given, found)) =
    let same = (list_beq_iff (codes "0x11111111") selector).0 (ground (arith, given)) in
    cc (subst (λ k. contains (entry k fed_2.functions_to_positions) 2 ≡ true) (sym same) found)

found_2 : lookup 2 fed_2.positions_to_instructions ≡ some group_2
unfolding lookup
found_2 = refl

found_1 : lookup 1 fed_2.positions_to_instructions ≡ some group_1
unfolding lookup
found_1 = refl

dropped_instruction_lem_example : get_elem? after_2 16 ≡ some (empty_instruction (plain 31 "EQ"))
dropped_instruction_lem_example =
    dropped_instruction_lem ids_2 9 code_2 fed_2 feeds_2 (codes "0x11111111" ∷ []) after_2
      modifies_2 2 1 (group_0 ++ group_1) group_2 (plain 31 "EQ") (omega arith) before_2 found_2
      refl is_recorded is_dropped

first-IsKept : IsKept fed_2 (codes "0x11111111" ∷ []) 1
unfolding contains list_beq lookup
first-IsKept = inr (codes "0x11111111", refl, refl)

kept_instruction_lem_example :
    (get_elem? after_2 14 ≡ some (plain 25 "DUP1"))
    ⊎ (IsDup1 (plain 25 "DUP1")
        × (get_elem? after_2 14 ≡ some (empty_instruction (plain 25 "DUP1"))))
kept_instruction_lem_example =
    kept_instruction_lem ids_2 9 code_2 fed_2 feeds_2 (codes "0x11111111" ∷ []) after_2 modifies_2 1
      4 group_0 group_1 (plain 25 "DUP1") (omega arith) before_1 found_1 refl (inr first-IsKept)

arguments_2 : All HasArgument code_2
unfolding starts_with list_beq
arguments_2 = ground arith

feed_instructions_update-is_some_example :
    is_some (feed_instructions_update (fresh ids_2 9 code_2)) ≡ true
feed_instructions_update-is_some_example =
    feed_instructions_update-is_some ids_2 9 code_2 arguments_2

abbrev pub state_2 : WorldState
state_2 = record {
  accounts = (9, record { identity = 0; instruction_list = code_2; func_hashes = [] }) ∷ [];
  ftn_seq = some (codes "f()" ∷ []);
}

pub has_contract_2 : is_some (lookup 9 state_2.accounts) ≡ true
unfolding lookup
has_contract_2 = refl

modity_on_multiple_states_total_example :
    (after : List WorldState) × (modity_on_multiple_states fed_2 (state_2 ∷ []) (codes "g()" ∷ [])
      ≡ some after)
    × AllPairs (Recoded 9 (Emptied IsAny code_2)) (state_2 ∷ []) after
modity_on_multiple_states_total_example =
    modity_on_multiple_states_total ids_2 9 code_2 fed_2 feeds_2 (state_2 ∷ []) (has_contract_2, tt)
      (codes "g()" ∷ [])
