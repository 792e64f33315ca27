-- ===== src/Instructions/Collected.antt =====
-- The instructions that are collected for a function are those executed in it.
use smart_executor.Prelude.{
  ◌==◌, contains-append, Nodup, Nodup-snoc, contains, ℕ, ◌≡◌, inl, inr, Bool, false, ◌&&◌, ◌||◌,
  List, [], ◌∷◌, Bool-cases, nat_eq, list_eq, entry, entry-insert, refl, subst, ◌≢◌, true, some,
  arith, if◌then◌else◌, codes, bind_some, list_beq_iff, sym, ap, ◌∙◌, maybe, if-intro, insert,
  Option, lookup,
}
use smart_executor.Instructions.{
  ExecutedState, add_index, collect_function_instructions, InstructionCoverage, update_coverage,
  update_coverages, visit, code_coverage, new_instruction_coverage,
}
use smart_executor.Keys.{Name}

-- Some state is at the instruction in the function.
abbrev pub executes : List ExecutedState → Name → ℕ → Bool
executes [] ftn pc = false
executes (state ∷ states) ftn pc =
    (state.active_function_name == ftn && state.pc == pc) || executes states ftn pc

contains-add_index :
    (pc index : ℕ) (indices : List ℕ)
    → contains (add_index pc indices) index ≡ (pc == index) || contains indices index
unfolding add_index contains
contains-add_index pc index indices = elim (Bool-cases (contains indices pc)) [
  | inl old ↦ elim (Bool-cases (pc == index)) [
    | inl same ↦
        rw (old, same)
          (subst (λ i. contains indices i ≡ true) ((nat_eq.same_iff pc index).0 same) old)
    | inr other ↦ rw (old, other) refl
  ]
  | inr new ↦ rw new rw contains-append ground arith
]

add_index-Nodup : (pc : ℕ) (indices : List ℕ) → Nodup indices → Nodup (add_index pc indices)
unfolding add_index
add_index-Nodup pc indices distinct = elim (Bool-cases (contains indices pc)) [
  | inl old ↦ rw old (distinct)
  | inr new ↦ rw new (Nodup-snoc indices pc distinct new)
]

-- The indices of a function after one state.
entry-collect :
    (state : ExecutedState) (self : InstructionCoverage) (ftn : Name)
    → ftn ≢ codes "constructor"
    → entry ftn (collect_function_instructions state self).function_instruction_indices ≡ (
        if state.active_function_name == ftn
        then add_index state.pc (entry ftn self.function_instruction_indices)
        else entry ftn self.function_instruction_indices)
unfolding collect_function_instructions
entry-collect state self ftn other =
    let function = state.active_function_name in
    elim (Bool-cases (function == codes "constructor")) [
      | inl constructor ↦ elim (Bool-cases (function == ftn)) [
        | inl same ↦ absurd (
            other (
              sym ((list_beq_iff function ftn).0 same)
              ∙ (list_beq_iff function (codes "constructor")).0 constructor))
        | inr different ↦ rw (constructor, different) refl
      ]
      | inr named ↦ rw named rw entry-insert (elim (Bool-cases (function == ftn)) [
        | inl same ↦ rw same (
            ap (λ f. add_index state.pc (entry f self.function_instruction_indices))
              ((list_beq_iff function ftn).0 same))
        | inr different ↦ rw different refl
      ])
    ]

entry-update_coverage :
    (state : ExecutedState) (self after : InstructionCoverage) (ftn : Name)
    → ftn ≢ codes "constructor"
    → update_coverage state self ≡ some after
    → entry ftn after.function_instruction_indices ≡ (
        if state.active_function_name == ftn
        then add_index state.pc (entry ftn self.function_instruction_indices)
        else entry ftn self.function_instruction_indices)
unfolding update_coverage
entry-update_coverage state self after ftn other updates =
    let recorded = code_coverage state self in
    let (visits, visited, made) = bind_some (visit state.pc recorded.1) _ after updates in
    let covered = record self {
      coverage = insert state.bytecode (recorded.0, visits) self.coverage;
    } in
    ap (λ o. maybe o [] (λ a. entry ftn a.function_instruction_indices)) (sym made)
    ∙ entry-collect state covered ftn other

-- Every index that was collected, or executed since, is collected once.
collected :
    (states : List ExecutedState) (self after : InstructionCoverage) (ftn : Name) (pc : ℕ)
    → ftn ≢ codes "constructor"
    → Nodup (entry ftn self.function_instruction_indices)
    → update_coverages states self ≡ some after
    → (contains (entry ftn after.function_instruction_indices) pc
        ≡ executes states ftn pc || contains (entry ftn self.function_instruction_indices) pc)
      × Nodup (entry ftn after.function_instruction_indices)
unfolding update_coverages
collected [] self after ftn pc other distinct h =
    let indices_of : Option InstructionCoverage → List ℕ =
      λ o. maybe o [] (λ a. entry ftn a.function_instruction_indices) in
    subst
      (λ o.
        (contains (indices_of o) pc ≡ contains (entry ftn self.function_instruction_indices) pc)
        × Nodup (indices_of o))
      h (refl, distinct)
collected (state ∷ states) self after ftn pc other distinct h =
    let (updated, updates, rest) = bind_some (update_coverage state self) _ after h in
    let indices = entry ftn self.function_instruction_indices in
    let changed = entry-update_coverage state self updated ftn other updates in
    let kept : Nodup (entry ftn updated.function_instruction_indices) = rw changed (
      if-intro Nodup (state.active_function_name == ftn)
        (λ same. add_index-Nodup state.pc indices distinct) (λ different. distinct)) in
    let ih = collected states updated after ftn pc other kept rest in
    (
      ih.0
          ∙ (rw changed (elim (Bool-cases (state.active_function_name == ftn)) [
            | inl same ↦ rw same rw contains-add_index ground arith
            | inr different ↦ rw different refl
          ])),
      ih.1,
    )

entry-unexecuted :
    (functions : List Name) (ftn : Name)
    → entry ftn (new_instruction_coverage functions).function_instruction_indices ≡ []
unfolding new_instruction_coverage lookup
entry-unexecuted [] ftn = refl
entry-unexecuted (function ∷ functions) ftn = ground (arith, entry-unexecuted functions ftn)

-- After the preprocessing, the indices of a function that is not `constructor` are the program
-- counters at which some state was executed in it, each once, if no program counter was out of range.
pub function_instruction_indices-update_coverages :
    (functions : List Name) (states : List ExecutedState) (after : InstructionCoverage) (ftn : Name)
    (pc : ℕ)
    → ftn ≢ codes "constructor"
    → update_coverages states (new_instruction_coverage functions) ≡ some after
    → (contains (entry ftn after.function_instruction_indices) pc ≡ executes states ftn pc)
      × Nodup (entry ftn after.function_instruction_indices)
unfolding contains
function_instruction_indices-update_coverages functions states after ftn pc other h =
    let self = new_instruction_coverage functions in
    let none_yet = entry-unexecuted functions ftn in
    let (executed, distinct) =
      collected states self after ftn pc other (subst Nodup (sym none_yet) tt) h in
    (executed ∙ (rw none_yet ground arith), distinct)
