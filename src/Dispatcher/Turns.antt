-- ===== src/Dispatcher/Turns.antt =====
-- What one instruction does in the loop of `_feed_instructions_update`: nothing happens to the groups,
-- or a group for a function is started, or one for a jump destination.
use smart_executor.Mine.{starts_with}
use smart_executor.Dispatcher.Numbers.{get_back_functin_signature, get_address_from_argument}
use smart_executor.Prelude.{
  insert, ℕ, ◌≡◌, refl, ◌⊎◌, inl, some, List, [], ◌∷◌, ◌++◌, codes, nat_eq, list_eq, Gives,
  Gives-elim, Gives->>=, list_beq_iff, inr, arith, ==_iff, ◌==◌, lookup, ◌&&◌, ◌||◌, not, ltb,
  if◌then◌else◌, Bool-cases, suc,
}
use smart_executor.Dispatcher.{
  feed_jumpdest, Instruction, set_revert_block, feed_opcode, Feeding, match_selector, start_group,
  feed_push, note_gt, has_last_opcode, record_position,
}

-- The branches in which no group is started.
pub record Stays (i : Instruction) (s t : Feeding) : Type 0 where
  pub same_groups : t.self.positions_to_instructions ≡ s.self.positions_to_instructions
  pub same_positions : t.self.functions_to_positions ≡ s.self.functions_to_positions
  pub same_jumpdests : t.self.jumpdest_in_dispatcher ≡ s.self.jumpdest_in_dispatcher
  pub same_list : t.self.instruction_list ≡ s.self.instruction_list
  pub same_position : t.position ≡ s.position
  pub same_offset : t.offset_instr ≡ s.offset_instr
  pub flag : t.flag_status ≡ 2 → (s.flag_status ≡ 2) ⊎ (i.opcode ≡ codes "CALLDATALOAD")

abbrev pub start_jumpdest : Feeding → Feeding
start_jumpdest s = record s {
  self = record s.self {
    jumpdest_in_dispatcher = s.self.jumpdest_in_dispatcher ++ (suc s.position, s.offset_instr) ∷ [];
    positions_to_instructions = insert (suc s.position) [] s.self.positions_to_instructions;
  };
  position = suc s.position;
}

-- A step of the loop on the instruction.
pub data Turn (i : Instruction) (s : Feeding) : Feeding → Type 0 where
  stays : {t : Feeding} → Stays i s t → Turn i s t
  matches : (argument : List ℕ) → s.flag_status ≡ 2 → Turn i s (start_group argument s)
  jumps : s.flag_status ≡ 2 → Turn i s (start_jumpdest s)

Stays-of :
    (i : Instruction) (s t : Feeding)
    → t.self.positions_to_instructions ≡ s.self.positions_to_instructions
    → t.self.functions_to_positions ≡ s.self.functions_to_positions
    → t.self.jumpdest_in_dispatcher ≡ s.self.jumpdest_in_dispatcher
    → t.self.instruction_list ≡ s.self.instruction_list
    → t.position ≡ s.position
    → t.offset_instr ≡ s.offset_instr
    → (t.flag_status ≡ 2 → (s.flag_status ≡ 2) ⊎ (i.opcode ≡ codes "CALLDATALOAD"))
    → Stays i s t
Stays-of i s t g f j l p o h = record {
  same_groups = g;
  same_positions = f;
  same_jumpdests = j;
  same_list = l;
  same_position = p;
  same_offset = o;
  flag = h;
}

Stays-refl : (i : Instruction) (s : Feeding) → Stays i s s
Stays-refl i s = Stays-of i s s refl refl refl refl refl refl inl

match_selector-Turn :
    (i : Instruction) (argument : List ℕ) (s : Feeding)
    → s.flag_status ≡ 2
    → Gives (Turn i s) (match_selector i.opcode argument s)
unfolding match_selector
match_selector-Turn i argument s two =
    elim (Bool-cases (
      not (get_back_functin_signature argument == codes "0xffffffff")
      && (i.opcode == codes "PUSH4" || i.opcode == codes "PUSH3"))) [
        | inr other ↦ rw other (stays (Stays-refl i s))
        | inl selector ↦ rw selector (
            Gives->>= (Turn i s) (lookup s.position s.self.positions_to_instructions)
              (λ group.
                some (if has_last_opcode (codes "DUP1") group then start_group argument s else s))
              (λ group _. elim (Bool-cases (has_last_opcode (codes "DUP1") group)) [
                | inl dup1 ↦ rw dup1 (matches argument two)
                | inr other ↦ rw other (stays (Stays-refl i s))
              ]))
      ]

set_revert_block-Turn :
    (i : Instruction) (argument : List ℕ) (s : Feeding) → Turn i s (set_revert_block argument s)
unfolding set_revert_block
set_revert_block-Turn i argument s =
    elim (Bool-cases (ltb 0 (get_address_from_argument argument))) [
      | inl positive ↦ rw positive (stays (Stays-of i s _ refl refl refl refl refl refl inl))
      | inr other ↦ rw other (stays (Stays-refl i s))
    ]

feed_push-Turn : (i : Instruction) (s : Feeding) → Gives (Turn i s) (feed_push i s)
unfolding feed_push
feed_push-Turn i s = elim (Bool-cases (s.flag_status == 1)) [
  | inl one ↦ rw one (
      Gives->>= (Turn i s) i.argument (λ argument. some (set_revert_block argument s))
        (λ argument _. set_revert_block-Turn i argument s))
  | inr other ↦ rw other (elim (Bool-cases (s.flag_status == 2)) [
    | inl two ↦ rw two (
        Gives->>= (Turn i s) i.argument (λ argument. match_selector i.opcode argument s)
          (λ argument _. match_selector-Turn i argument s ((==_iff _ _).0 two)))
    | inr neither ↦ rw neither (stays (Stays-refl i s))
  ])
]

feed_jumpdest-Turn : (i : Instruction) (s : Feeding) → Gives (Turn i s) (feed_jumpdest i.address s)
unfolding feed_jumpdest
feed_jumpdest-Turn i s = elim (Bool-cases (s.flag_status == 2)) [
  | inr other ↦ rw other (stays (Stays-refl i s))
  | inl two ↦ rw two (elim (Bool-cases (s.self.address_jumpdest_revert_block == i.address)) [
    | inl ends ↦ rw ends tt
    | inr inside ↦ rw inside (jumps ((==_iff _ _).0 two))
  ])
]

note_gt-Turn : (i : Instruction) (s : Feeding) → Turn i s (note_gt s)
note_gt-Turn i s = elim (Bool-cases (s.flag_status == 2)) [
  | inl two ↦ rw two (stays (Stays-of i s _ refl refl refl refl refl refl inl))
  | inr other ↦ rw other (stays (Stays-refl i s))
]

set_flag-Turn :
    (i : Instruction) (s : Feeding) (n : ℕ)
    → (n ≡ 2 → i.opcode ≡ codes "CALLDATALOAD")
    → Turn i s (record s { flag_status = n })
set_flag-Turn i s n h = stays (Stays-of i s _ refl refl refl refl refl refl (λ two. inr (h two)))

pub feed_opcode-Turn : (i : Instruction) (s : Feeding) → Gives (Gives (Turn i s)) (feed_opcode i s)
unfolding feed_opcode
feed_opcode-Turn i s = elim (Bool-cases (i.opcode == codes "CALLDATASIZE")) [
  | inl size ↦ rw size (set_flag-Turn i s 1 (λ h. absurd (omega (arith, h))))
  | inr no_size ↦ rw no_size (elim (Bool-cases (starts_with (codes "PUSH") i.opcode)) [
    | inl push ↦ rw push (
        Gives->>= (Gives (Turn i s)) (feed_push i s) (λ t. some (some t))
          (λ t e. Gives-elim (Turn i s) (feed_push i s) (feed_push-Turn i s) e))
    | inr no_push ↦ rw no_push (elim (Bool-cases (i.opcode == codes "JUMPDEST")) [
      | inl jumpdest ↦ rw jumpdest (feed_jumpdest-Turn i s)
      | inr no_jumpdest ↦ rw no_jumpdest (elim (Bool-cases (i.opcode == codes "CALLDATALOAD")) [
        | inl load ↦ rw load (set_flag-Turn i s 2 (λ _. (list_beq_iff _ _).0 load))
        | inr no_load ↦ rw no_load (elim (Bool-cases (i.opcode == codes "GT")) [
          | inl gt ↦ rw gt (note_gt-Turn i s)
          | inr no_gt ↦ rw no_gt (stays (Stays-refl i s))
        ])
      ])
    ])
  ])
]

pub Turn-same_list :
    (i : Instruction) (s t : Feeding)
    → Turn i s t
    → t.self.instruction_list ≡ s.self.instruction_list
unfolding record_position
Turn-same_list i s t (stays h) = h.same_list
Turn-same_list i s t (matches argument two) = refl
Turn-same_list i s t (jumps two) = refl

pub Turn-same_offset :
    (i : Instruction) (s t : Feeding) → Turn i s t → t.offset_instr ≡ s.offset_instr
Turn-same_offset i s t (stays h) = h.same_offset
Turn-same_offset i s t (matches argument two) = refl
Turn-same_offset i s t (jumps two) = refl
