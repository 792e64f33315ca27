-- ===== src/Dispatcher/Fed.antt =====
-- What `_feed_instructions_update` leaves: every instruction in one group, in order.
use smart_executor.Keys.{Name}
use smart_executor.Prelude.{
  ◌>>=◌, Gives, Gives-elim, Gives->>=, lookup, insert, ℕ, suc, ◌≤◌, ◌≡◌, ◌∙◌, Option, none, some,
  List, [], ◌∷◌, ◌++◌, arith, length, length-append, All, nat_eq, list_eq, eq_refl, Dict,
  lookup-insert, length-insert-new, values, refl, ap, drop, All-append, sym, All-map,
}
use smart_executor.Dispatcher.Groups.{Laid, Turn-Laid, Laid-append, combine-insert, Laid-start}
use mathlib.Core.List.{append_assoc}
use smart_executor.Dispatcher.{
  Instruction, feed_all, save_instruction, Feeding, feed_opcode, InstructionModification,
  new_modification, concat, finish_feeding, feed_instructions_update, start_feeding,
}
use smart_executor.Dispatcher.Marks.{
  Turn-Marked, save_instruction-Marked, Mark, Marked, IsLater, Mark-insert,
}
use smart_executor.Dispatcher.Turns.{Turn-same_offset, Turn-same_list, feed_opcode-Turn, Turn}
use smart_executor.Dispatcher.Modify.{combine}

-- The loop has laid the instructions `done`, and `rest` follow.
pub record IsFed (next : Option Instruction) (instructions : List Instruction) (s : Feeding)
    (done rest : List Instruction) : Type 0 where
  pub laid : Laid s.self.positions_to_instructions s.position done
  pub offset : s.offset_instr ≡ length done
  pub whole : done ++ rest ≡ instructions
  pub same_list : s.self.instruction_list ≡ instructions
  pub marked : Marked next s

module _ (instructions : List Instruction) where
  pub Turn-IsFed :
      (i : Instruction) (s t : Feeding) (done rest : List Instruction)
      → Turn i s t
      → IsFed none instructions s done rest
      → IsFed (some i) instructions t done rest
  Turn-IsFed i s t done rest turn fed = record {
    laid = Turn-Laid i s t done turn fed.laid;
    offset = Turn-same_offset i s t turn ∙ fed.offset;
    whole = fed.whole;
    same_list = Turn-same_list i s t turn ∙ fed.same_list;
    marked = Turn-Marked i s t turn fed.marked;
  }

  -- The instruction goes to the last group.
  pub save_instruction-IsFed :
      (i : Instruction) (s : Feeding) (done rest : List Instruction)
      → IsFed (some i) instructions s done (i ∷ rest)
      → Gives (λ t. IsFed none instructions t (done ++ i ∷ []) rest) (save_instruction i s)
  unfolding save_instruction
  save_instruction-IsFed i s done rest fed =
      let n = s.position in
      let groups = s.self.positions_to_instructions in
      Gives->>= (λ t. IsFed none instructions t (done ++ i ∷ []) rest) (lookup n groups)
        (λ group. some (record s {
          self = record s.self { positions_to_instructions = insert n (group ++ i ∷ []) groups };
          offset_instr = suc s.offset_instr;
        }))
        (λ group found. record {
          laid = Laid-append groups n done group i found fed.laid;
          offset = rw length-append (omega (arith, fed.offset));
          whole = append_assoc done (i ∷ []) rest ∙ fed.whole;
          same_list = fed.same_list;
          marked = save_instruction-Marked i s done group found fed.laid fed.offset fed.marked;
        })

  abbrev pub WasFed : Feeding → Type 0
  WasFed u =
      (done : List Instruction) × (rest : List Instruction) × IsFed none instructions u done rest

  pub feed_all-IsFed :
      (is done : List Instruction) (s : Feeding)
      → IsFed none instructions s done is
      → Gives WasFed (feed_all is s)
  unfolding feed_all
  feed_all-IsFed [] done s fed = (done, [], fed)
  feed_all-IsFed (i ∷ is) done s fed =
      let after : Option Feeding → Option Feeding =
        λ r. elim r [ none ↦ some s | some t ↦ save_instruction i t >>= λ u. feed_all is u ] in
      Gives->>= WasFed (feed_opcode i s) after (λ r e.
        elim r as (λ r. Gives (Turn i s) r → Gives WasFed (after r)) [
          | none ↦ λ _. (done, i ∷ is, fed)
          | some t ↦ λ turn.
              Gives->>= WasFed (save_instruction i t) (λ u. feed_all is u)
                (λ u e. feed_all-IsFed is (done ++ i ∷ []) u (
                  Gives-elim (λ u. IsFed none instructions u (done ++ i ∷ []) is)
                    (save_instruction i t)
                    (save_instruction-IsFed i t done is (Turn-IsFed i s t done (i ∷ is) turn fed))
                    e))
        ]
          (Gives-elim (Gives (Turn i s)) (feed_opcode i s) (feed_opcode-Turn i s) e))

module _ (instructions : List Instruction) (fed : InstructionModification) where
  -- The object at the end: the groups up to `last` are the dispatcher, and the group at `last` is
  -- what follows it.
  pub record IsGrouped : Type 0 where
    pub last : ℕ
    pub done : List Instruction
    pub rest : List Instruction
    pub size : length fed.positions_to_instructions ≡ suc last
    pub positive : 1 ≤ last
    pub covered : combine [] last fed.positions_to_instructions ≡ some done
    pub tail : lookup last fed.positions_to_instructions ≡ some rest
    pub whole : done ++ rest ≡ instructions
    pub same_list : fed.instruction_list ≡ instructions
    pub recorded : All IsLater fed.all_positions_related_function
    pub jumpdests :
        All
          (λ j. Mark fed.positions_to_instructions j.1 × (j.1 ≤ length done))
          fed.jumpdest_in_dispatcher

drop-length : (xs ys : List Instruction) → drop (length xs) (xs ++ ys) ≡ ys
drop-length [] ys = refl
drop-length (x ∷ xs) ys = drop-length xs ys

concat-IsLater : (groups : List (List ℕ)) → All (All IsLater) groups → All IsLater (concat groups)
unfolding concat
concat-IsLater [] h = tt
concat-IsLater (group ∷ groups) h =
    All-append IsLater group (concat groups) h.0 (concat-IsLater groups h.1)

finish_feeding-IsGrouped :
    (instructions : List Instruction) (s : Feeding) (done rest : List Instruction)
    → IsFed none instructions s done rest
    → IsGrouped instructions (finish_feeding s)
unfolding finish_feeding
finish_feeding-IsGrouped instructions s done rest fed =
    let groups = s.self.positions_to_instructions in
    let last = suc s.position in
    let left = drop s.offset_instr s.self.instruction_list in
    record {
      last = last;
      done = done;
      rest = rest;
      size =
          length-insert-new last left groups (fed.laid.fresh last (omega arith))
          ∙ ap suc fed.laid.size;
      positive = omega arith;
      covered = combine-insert [] last last left groups (omega arith) ∙ fed.laid.covered;
      tail =
          rw (lookup-insert last last left groups, eq_refl last)
            (ap some (rw (fed.offset, fed.same_list, sym fed.whole) (drop-length done rest)));
      whole = fed.whole;
      same_list = fed.same_list;
      recorded = concat-IsLater (values s.self.functions_to_positions) fed.marked.recorded;
      jumpdests =
          All-map (λ j. Mark groups j.1 × (j.1 ≤ s.offset_instr)) s.self.jumpdest_in_dispatcher
            (λ j h. (
              Mark-insert groups j.1 j.1 s.position left (omega arith) h.0,
              omega (arith, h.1, fed.offset),
            ))
            fed.marked.jumpdests;
    }

abbrev pub fresh : Dict Name Name → ℕ → List Instruction → InstructionModification
fresh ftn_identifier contract_address instructions = record (new_modification ftn_identifier) {
  contract_address = contract_address;
  instruction_list = instructions;
}

pub start_feeding-IsFed :
    (ftn_identifier : Dict Name Name) (contract_address : ℕ) (instructions : List Instruction)
    → IsFed none instructions
        (start_feeding (fresh ftn_identifier contract_address instructions))
        []
        instructions
unfolding start_feeding values
start_feeding-IsFed ftn_identifier contract_address instructions = record {
  laid = Laid-start;
  offset = refl;
  whole = refl;
  same_list = refl;
  marked = record {
    recorded = tt;
    deep = λ h. absurd (omega (arith, h));
    flagged = λ h. absurd (omega (arith, h));
    jumpdests = tt;
  };
}

pub feed_instructions_update-IsGrouped :
    (ftn_identifier : Dict Name Name) (contract_address : ℕ) (instructions : List Instruction)
    → Gives
        (IsGrouped instructions)
        (feed_instructions_update (fresh ftn_identifier contract_address instructions))
unfolding feed_instructions_update
feed_instructions_update-IsGrouped ftn_identifier contract_address instructions =
    let start = start_feeding (fresh ftn_identifier contract_address instructions) in
    Gives->>= (IsGrouped instructions) (feed_all instructions start) (λ s. some (finish_feeding s))
      (λ s e.
        let (done, rest, fed) =
          Gives-elim (WasFed instructions) (feed_all instructions start)
            (feed_all-IsFed instructions instructions [] start
              (start_feeding-IsFed ftn_identifier contract_address instructions))
            e in
        finish_feeding-IsGrouped instructions s done rest fed)
