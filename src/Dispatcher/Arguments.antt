-- ===== src/Dispatcher/Arguments.antt =====
-- When `_feed_instructions_update` raises no exception.
use smart_executor.Keys.{Name}
use smart_executor.Prelude.{
  bind_some, Gives, Gives-elim, Dict, lookup, ℕ, ◌≡◌, refl, inl, inr, true, Option, none, some,
  List, [], ◌∷◌, arith, Bool-cases, is_some, codes, All, nat_eq, list_eq, ◌>>=◌, ◌++◌, is_some-elim,
}
use smart_executor.Dispatcher.Modify.{combine}
use smart_executor.Dispatcher.Fed.{
  IsFed, save_instruction-IsFed, fresh, start_feeding-IsFed, Turn-IsFed,
}
use smart_executor.Mine.{starts_with}
use smart_executor.Dispatcher.Turns.{feed_opcode-Turn, Turn}
use smart_executor.Dispatcher.Groups.{Laid}
use smart_executor.Dispatcher.{
  feed_all, feed_push, Instruction, match_selector, Feeding, feed_opcode, save_instruction,
  start_feeding, feed_instructions_update,
}

-- A `PUSH` has its argument.
abbrev pub HasArgument : Instruction → Type 0
HasArgument i = starts_with (codes "PUSH") i.opcode ≡ true → is_some i.argument ≡ true

-- The last group is there.
last_group :
    (groups : Dict ℕ (List Instruction)) (n : ℕ) (done : List Instruction)
    → Laid groups n done
    → is_some (lookup n groups) ≡ true
unfolding combine
last_group groups n done laid =
    let (front, hf, rest) = bind_some (combine [] n groups) _ done laid.covered in
    let (group, hg, _) = bind_some (lookup n groups) _ done rest in rw hg refl

feed_push-is_some :
    (i : Instruction) (s : Feeding)
    → is_some i.argument ≡ true
    → is_some (lookup s.position s.self.positions_to_instructions) ≡ true
    → is_some (feed_push i s) ≡ true
unfolding feed_push match_selector
feed_push-is_some i s argument group = ground arith

feed_opcode-is_some :
    (i : Instruction) (s : Feeding)
    → HasArgument i
    → is_some (lookup s.position s.self.positions_to_instructions) ≡ true
    → is_some (feed_opcode i s) ≡ true
unfolding feed_opcode
feed_opcode-is_some i s argument group = elim (Bool-cases (starts_with (codes "PUSH") i.opcode)) [
  | inl push ↦ ground (arith, feed_push-is_some i s (argument push) group)
  | inr other ↦ ground arith
]

save_instruction-is_some :
    (i : Instruction) (s : Feeding)
    → is_some (lookup s.position s.self.positions_to_instructions) ≡ true
    → is_some (save_instruction i s) ≡ true
unfolding save_instruction
save_instruction-is_some i s group = ground arith

module _ (instructions : List Instruction) where
  feed_all-is_some :
      (is done : List Instruction) (s : Feeding)
      → IsFed none instructions s done is
      → All HasArgument is
      → is_some (feed_all is s) ≡ true
  unfolding feed_all
  feed_all-is_some [] done s fed h = refl
  feed_all-is_some (i ∷ is) done s fed h =
      let group = last_group s.self.positions_to_instructions s.position done fed.laid in
      let (r, e) = is_some-elim (feed_opcode i s) (feed_opcode-is_some i s h.0 group) in
      let turn = Gives-elim (Gives (Turn i s)) (feed_opcode i s) (feed_opcode-Turn i s) e in
      let after : Option Feeding → Option Feeding =
        λ r. elim r [ none ↦ some s | some t ↦ save_instruction i t >>= λ u. feed_all is u ] in
      let go : is_some (after r) ≡ true =
        (elim r as (λ r. Gives (Turn i s) r → is_some (after r) ≡ true) [
          | none ↦ λ _. refl
          | some t ↦ λ turn.
              let fed' = Turn-IsFed instructions i s t done (i ∷ is) turn fed in
              let (u, saved) = is_some-elim (save_instruction i t) (
                save_instruction-is_some i t
                  (last_group t.self.positions_to_instructions t.position done fed'.laid)) in
              rw saved (
                feed_all-is_some is (done ++ i ∷ []) u
                  (Gives-elim (λ u. IsFed none instructions u (done ++ i ∷ []) is)
                    (save_instruction i t) (save_instruction-IsFed instructions i t done is fed')
                    saved)
                  h.1)
        ])
          turn in
      rw e go

-- If every `PUSH` has its argument, then the instructions are divided into groups without an
-- exception.
pub feed_instructions_update-is_some :
    (ftn_identifier : Dict Name Name) (contract_address : ℕ) (instructions : List Instruction)
    → All HasArgument instructions
    → is_some (feed_instructions_update (fresh ftn_identifier contract_address instructions)) ≡ true
unfolding feed_instructions_update
feed_instructions_update-is_some ftn_identifier contract_address instructions h =
    let (s, e) =
      is_some-elim
        (feed_all instructions (start_feeding (fresh ftn_identifier contract_address instructions)))
        (feed_all-is_some instructions instructions []
          (start_feeding (fresh ftn_identifier contract_address instructions))
          (start_feeding-IsFed ftn_identifier contract_address instructions) h) in
    rw e refl
