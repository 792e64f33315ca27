-- ===== src/Dispatcher/Modify.antt =====
-- Class `InstructionModification` of fdg/instruction_modification.py, the methods that change the
-- instructions of a state. `none` is KeyError or IndexError.
use smart_executor.Prelude.{
  ◌>>=◌, prepend, ◌==◌, list_beq, contains, filter_by, Dict, entry, lookup, insert, has_key, ℕ,
  zero, suc, ◌-◌, not, Option, none, some, List, [], ◌∷◌, ◌++◌, map, ltb, leb, if◌then◌else◌, codes,
  length, get_elem?, nat_eq, list_eq, maybe,
}
use smart_executor.Keys.{Name}
use smart_executor.Dispatcher.{InstructionModification, feed_instructions_update, Instruction}

-- What the class reads and writes of a contract's account: two fields of its code object. The
-- identity says which object it is, since copies of an account share it.
pub record Code : Type 0 where
  pub identity : ℕ
  pub instruction_list : List Instruction
  pub func_hashes : List Name

-- A world state: its accounts, and the function sequence that annotates it.
pub record WorldState : Type 0 where
  pub accounts : Dict ℕ Code
  pub ftn_seq : Option (List Name)

abbrev pub empty_opcode : Name
empty_opcode = codes "EMPTY"

-- `{"address": instruction["address"], "opcode": "EMPTY"}`
unfoldable pub empty_instruction : Instruction → Instruction
empty_instruction instruction = record {
  address = instruction.address;
  opcode = empty_opcode;
  argument = none;
}

-- `keep`, from the positions of the functions on; `none` cannot occur, as only selectors with
-- positions are looked up.
unfoldable pub kept_positions : Dict Name (List ℕ) → List Name → List ℕ
unfolding has_key lookup
kept_positions functions_to_positions [] = []
kept_positions functions_to_positions (selector ∷ selectors) =
    entry selector functions_to_positions ++ kept_positions functions_to_positions selectors

unfoldable pub not_kept_positions : InstructionModification → List Name → List ℕ
unfolding filter_by contains has_key kept_positions
not_kept_positions self fct_selectors =
    let ftn_selectors_valid =
      filter_by (λ selector. has_key selector self.functions_to_positions) fct_selectors in
    let keep =
      self.positions_contain_gt ++ kept_positions self.functions_to_positions ftn_selectors_valid in
    filter_by (λ p. not (contains keep p)) self.all_positions_related_function

-- `for p in range(0, n)`
unfoldable pub combine : List ℕ → ℕ → Dict ℕ (List Instruction) → Option (List Instruction)
unfolding contains lookup empty_instruction
combine not_kept zero groups = some []
combine not_kept (suc p) groups = combine not_kept p groups >>= λ combined_instructions.
    lookup p groups >>= λ group.
    some (
      combined_instructions ++ (if contains not_kept p then map empty_instruction group else group))

-- `combined_instructions[index] = …`
unfoldable pub empty_at : ℕ → List Instruction → List Instruction
unfolding empty_instruction
empty_at index [] = []
empty_at zero (i ∷ is) = empty_instruction i ∷ is
empty_at (suc index) (i ∷ is) = i ∷ empty_at index is

-- `for index in range(len(combined_instructions) - 1, 0, -1)`, from `index` down
unfoldable pub empty_last_dup1 : ℕ → List Instruction → List Instruction
unfolding empty_at list_beq
empty_last_dup1 zero combined_instructions = combined_instructions
empty_last_dup1 (suc n) combined_instructions =
    let rest = empty_last_dup1 n combined_instructions in
    maybe (get_elem? combined_instructions (suc n)) combined_instructions (λ instruction.
      if instruction.opcode == empty_opcode
      then rest
      else (if instruction.opcode == codes "DUP1"
          then empty_at (suc n) combined_instructions
          else combined_instructions))

-- `while True`: the last index below `idx` of an instruction that is not `EMPTY`. `some none` is
-- that there is none, and `none` that an instruction is missing.
unfoldable pub seek : ℕ → List Instruction → Option (Option ℕ)
unfolding list_beq
seek zero combined_instructions = some none
seek (suc idx) combined_instructions =
    let rest = seek idx combined_instructions in
    get_elem? combined_instructions idx >>= λ instruction.
    if instruction.opcode == empty_opcode then rest else some (some idx)

-- The end of that loop.
unfoldable pub empty_dup1 : ℕ → List Instruction → List Instruction
unfolding empty_at list_beq
empty_dup1 idx combined_instructions =
    maybe (get_elem? combined_instructions idx) combined_instructions (λ instruction.
      if instruction.opcode == codes "DUP1"
      then empty_at idx combined_instructions
      else combined_instructions)

-- Below index zero Python counts from the end, down to the first instruction.
unfoldable pub empty_before : ℕ → List Instruction → Option (List Instruction)
unfolding seek empty_dup1
empty_before idx combined_instructions = seek idx combined_instructions >>= λ found.
    maybe found
      (seek (length combined_instructions) combined_instructions >>= λ again.
        maybe again none (λ i. some (empty_dup1 i combined_instructions)))
      (λ i. some (empty_dup1 i combined_instructions))

-- `for p,idx in self.jumpdest_in_dispatcher`
unfoldable pub empty_jumpdests : List (ℕ × ℕ) → List Instruction → Option (List Instruction)
unfolding empty_before
empty_jumpdests [] combined_instructions = some combined_instructions
empty_jumpdests ((p, idx) ∷ jumpdests) combined_instructions =
    empty_before idx combined_instructions >>= λ changed. empty_jumpdests jumpdests changed

unfoldable pub get_modified_instructions_1 :
    InstructionModification → List Name → Option (List Instruction)
unfolding not_kept_positions combine empty_last_dup1 empty_jumpdests lookup
get_modified_instructions_1 self fct_selectors =
    let last = length self.positions_to_instructions - 1 in
    combine (not_kept_positions self fct_selectors) last self.positions_to_instructions
    >>= λ combined_instructions.
        empty_jumpdests self.jumpdest_in_dispatcher
          (empty_last_dup1 (length combined_instructions - 1) combined_instructions)
        >>= λ changed.
            lookup last self.positions_to_instructions >>= λ group. some (changed ++ group)

-- `fct_selectors`
unfoldable pub selectors_of : Dict Name Name → List Name → List Name
unfolding lookup list_beq
selectors_of function_identifier [] = []
selectors_of function_identifier (ftn ∷ functions) =
    let rest = selectors_of function_identifier functions in
    if ftn == codes "fallback"
    then rest
    else elim (lookup ftn function_identifier) [ none ↦ rest | some selector ↦ selector ∷ rest ]

-- `state.accounts[self.contract_address.value].code`, changed
unfoldable pub update_code : ℕ → (Code → Code) → WorldState → Option WorldState
unfolding lookup insert
update_code key change state = lookup key state.accounts >>= λ code.
    some (record state { accounts = insert key (change code) state.accounts })

abbrev pub with_instructions : List Instruction → Code → Code
with_instructions instructions code = record code { instruction_list = instructions }

abbrev pub with_selectors : List Instruction → List Name → Code → Code
with_selectors instructions selectors code = record code {
  instruction_list = instructions;
  func_hashes = selectors;
}

unfoldable pub update_codes : ℕ → (Code → Code) → List WorldState → Option (List WorldState)
unfolding update_code
update_codes key change [] = some []
update_codes key change (state ∷ states) =
    update_code key change state >>= λ changed. prepend changed (update_codes key change states)

-- What is done to the code, of one state or of several.
unfoldable pub code_change : InstructionModification → List Name → Option (Code → Code)
unfolding get_modified_instructions_1 selectors_of
code_change self functions =
    if leb (length self.function_identifier) (length functions)
    then some (with_instructions self.instruction_list)
    else (let fct_selectors = selectors_of self.function_identifier functions in
        get_modified_instructions_1 self fct_selectors >>= λ final_instructions.
        some (with_selectors final_instructions fct_selectors))

unfoldable pub modify_on_a_state__str :
    InstructionModification → WorldState → List Name → Option WorldState
unfolding code_change update_code
modify_on_a_state__str self state functions =
    code_change self functions >>= λ change. update_code self.contract_address change state

unfoldable pub modity_on_multiple_states :
    InstructionModification → List WorldState → List Name → Option (List WorldState)
unfolding contains update_codes code_change
modity_on_multiple_states self states functions =
    if contains functions (codes "original_instruction_list")
    then update_codes self.contract_address (with_instructions self.instruction_list) states
    else (code_change self functions >>= λ change. update_codes self.contract_address change states)

unfoldable pub modify_no_modification : InstructionModification → WorldState → Option WorldState
unfolding update_code
modify_no_modification self state =
    update_code self.contract_address (with_instructions self.instruction_list) state

-- `feed_instructions`
unfoldable pub feed_instructions :
    WorldState → ℕ → InstructionModification → Option InstructionModification
unfolding lookup feed_instructions_update
feed_instructions state contract_address self = lookup contract_address state.accounts >>= λ code.
    let fed = record self {
      contract_address = contract_address;
      instruction_list = code.instruction_list;
    } in
    if ltb 0 (length self.function_identifier) then feed_instructions_update fed else some fed
