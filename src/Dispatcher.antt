-- ===== src/Dispatcher.antt =====
-- Class `InstructionModification` of fdg/instruction_modification.py: how the instructions of a
-- contract are divided into groups, by the functions that the dispatcher matches. What changes the
-- instructions is in Dispatcher/Modify. `none` is an exception: a `PUSH` without an argument
-- (KeyError), or a position without a group.
use smart_executor.Prelude.{
  ◌>>=◌, ◌==◌, list_beq, Dict, lookup, insert, values, append_at, ℕ, ◌+◌, Bool, false, ◌&&◌, ◌||◌,
  not, Option, none, some, List, [], ◌∷◌, ◌++◌, ltb, if◌then◌else◌, codes, get_last?, drop, nat_eq,
  list_eq, suc,
}
use smart_executor.Keys.{Name}
use smart_executor.Mine.{starts_with}
pub mod Numbers
pub mod Modify
pub mod Turns
pub mod Groups
pub mod Marks
pub mod Fed
pub mod Emptied
pub mod Dup1
pub mod Combined
pub mod Kept
pub mod Modified
pub mod Arguments
pub mod States
pub mod Tests
use smart_executor.Dispatcher.Numbers.{get_back_functin_signature, get_address_from_argument}

-- An entry of `instruction_list`. The disassembler leaves out the argument where there is none.
pub record Instruction : Type 0 where
  pub address : ℕ
  pub opcode : Name
  pub argument : Option (List ℕ)

pub record InstructionModification : Type 0 where
  pub function_identifier : Dict Name Name
  pub contract_address : ℕ
  pub instruction_list : List Instruction
  pub functions_to_positions : Dict Name (List ℕ)
  pub positions_to_instructions : Dict ℕ (List Instruction)
  pub all_positions_related_function : List ℕ
  pub jumpdest_in_dispatcher : List (ℕ × ℕ)
  pub address_jumpdest_revert_block : ℕ
  pub positions_contain_gt : List ℕ

abbrev pub new_modification : Dict Name Name → InstructionModification
new_modification ftn_identifier = record {
  function_identifier = ftn_identifier;
  contract_address = 0;
  instruction_list = [];
  functions_to_positions = [];
  positions_to_instructions = [];
  all_positions_related_function = [];
  jumpdest_in_dispatcher = [];
  address_jumpdest_revert_block = 0;
  positions_contain_gt = [];
}

-- The object, and the variables of the loop in `_feed_instructions_update`.
pub record Feeding : Type 0 where
  pub self : InstructionModification
  pub flag_status : ℕ
  pub position : ℕ
  pub offset_instr : ℕ

-- `record_position`
unfoldable pub record_position : ℕ → List ℕ → InstructionModification → InstructionModification
unfolding insert append_at get_back_functin_signature
record_position position argument self = record self {
  positions_to_instructions = insert position [] self.positions_to_instructions;
  functions_to_positions =
      append_at (get_back_functin_signature argument) position self.functions_to_positions;
}

abbrev pub has_last_opcode : Name → List Instruction → Bool
has_last_opcode opcode group = elim (get_last? group) [ none ↦ false | some i ↦ i.opcode == opcode ]

-- `if flag_status==1`, in the branch of `PUSH`
unfoldable pub set_revert_block : List ℕ → Feeding → Feeding
unfolding get_address_from_argument
set_revert_block argument s =
    let jumpdest_address = get_address_from_argument argument in
    if ltb 0 jumpdest_address
    then record s { self = record s.self { address_jumpdest_revert_block = jumpdest_address } }
    else s

abbrev pub start_group : List ℕ → Feeding → Feeding
start_group argument s = record s {
  self = record_position (suc s.position) argument s.self;
  position = suc s.position;
}

-- `if flag_status == 2`, in the branch of `PUSH`
unfoldable pub match_selector : Name → List ℕ → Feeding → Option Feeding
unfolding get_back_functin_signature record_position lookup list_beq
match_selector opcode argument s =
    if not (get_back_functin_signature argument == codes "0xffffffff")
      && (opcode == codes "PUSH4" || opcode == codes "PUSH3")
    then (lookup s.position s.self.positions_to_instructions >>= λ group.
        some (if has_last_opcode (codes "DUP1") group then start_group argument s else s))
    else some s

unfoldable pub feed_push : Instruction → Feeding → Option Feeding
unfolding set_revert_block match_selector
feed_push instruction s =
    if s.flag_status == 1
    then (instruction.argument >>= λ argument. some (set_revert_block argument s))
    else (if s.flag_status == 2
        then (instruction.argument >>= λ argument. match_selector instruction.opcode argument s)
        else some s)

-- `none` is the `break` at the end of the dispatcher.
unfoldable pub feed_jumpdest : ℕ → Feeding → Option Feeding
unfolding insert
feed_jumpdest address s =
    if s.flag_status == 2
    then (if s.self.address_jumpdest_revert_block == address
        then none
        else some (record s {
          self = record s.self {
            jumpdest_in_dispatcher =
                s.self.jumpdest_in_dispatcher ++ (suc s.position, s.offset_instr) ∷ [];
            positions_to_instructions = insert (suc s.position) [] s.self.positions_to_instructions;
          };
          position = suc s.position;
        }))
    else some s

-- The branch of `GT`
abbrev pub note_gt : Feeding → Feeding
note_gt s =
    if s.flag_status == 2
    then record s {
      self = record s.self {
        positions_contain_gt = s.self.positions_contain_gt ++ s.position ∷ [];
      };
    }
    else s

-- The tests on the opcode.
unfoldable pub feed_opcode : Instruction → Feeding → Option (Option Feeding)
unfolding feed_push feed_jumpdest starts_with list_beq
feed_opcode instruction s =
    if instruction.opcode == codes "CALLDATASIZE"
    then some (some (record s { flag_status = 1 }))
    else (if starts_with (codes "PUSH") instruction.opcode
        then (feed_push instruction s >>= λ t. some (some t))
        else (if instruction.opcode == codes "JUMPDEST"
            then some (feed_jumpdest instruction.address s)
            else (if instruction.opcode == codes "CALLDATALOAD"
                then some (some (record s { flag_status = 2 }))
                else some (some (if instruction.opcode == codes "GT" then note_gt s else s)))))

-- The end of the loop's body.
unfoldable pub save_instruction : Instruction → Feeding → Option Feeding
unfolding lookup insert
save_instruction instruction s = lookup s.position s.self.positions_to_instructions >>= λ group.
    some (record s {
      self = record s.self {
        positions_to_instructions =
            insert s.position (group ++ instruction ∷ []) s.self.positions_to_instructions;
      };
      offset_instr = suc s.offset_instr;
    })

unfoldable pub feed_all : List Instruction → Feeding → Option Feeding
unfolding feed_opcode save_instruction
feed_all [] s = some s
feed_all (instruction ∷ instructions) s = feed_opcode instruction s >>= λ r. elim r [
  | none ↦ some s
  | some t ↦ save_instruction instruction t >>= λ u. feed_all instructions u
]

unfoldable pub start_feeding : InstructionModification → Feeding
unfolding insert
start_feeding self = record {
  self = record self {
    positions_to_instructions = insert 0 [] self.positions_to_instructions;
    address_jumpdest_revert_block = 0;
    positions_contain_gt = [];
  };
  flag_status = 0;
  position = 0;
  offset_instr = 0;
}

unfoldable pub concat : List (List ℕ) → List ℕ
concat [] = []
concat (xs ∷ xss) = xs ++ concat xss

-- What follows the loop.
unfoldable pub finish_feeding : Feeding → InstructionModification
unfolding insert values concat
finish_feeding s = record s.self {
  positions_to_instructions =
      insert (suc s.position) (drop s.offset_instr s.self.instruction_list)
        s.self.positions_to_instructions;
  all_positions_related_function = concat (values s.self.functions_to_positions);
}

unfoldable pub feed_instructions_update : InstructionModification → Option InstructionModification
unfolding start_feeding feed_all finish_feeding
feed_instructions_update self =
    feed_all self.instruction_list (start_feeding self) >>= λ s. some (finish_feeding s)
