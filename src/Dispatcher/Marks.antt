-- ===== src/Dispatcher/Marks.antt =====
-- The groups for functions and for jump destinations start behind a `CALLDATALOAD`, which stands in
-- the first group.
use smart_executor.Dispatcher.Modify.{combine}
use smart_executor.Dispatcher.Groups.{Laid, combine-last}
use smart_executor.Dispatcher.Numbers.{get_back_functin_signature}
use mathlib.Core.List.{append-nil}
use smart_executor.Prelude.{
  Dict, lookup-insert, lookup, insert, values, append_at, ℕ, zero, suc, ◌≤◌, ◌<◌, ◌≡◌, refl, subst,
  ◌⊎◌, inl, inr, Option, none, some, List, [], ◌∷◌, ◌++◌, arith, Option-cases, codes, length,
  get_elem?, All, All-append, nat_eq, list_eq, All-map, sym, ap, length-append, All-insert,
  All-lookup,
}
use smart_executor.Keys.{Name}
use smart_executor.Dispatcher.{Feeding, record_position, Instruction}
use smart_executor.Dispatcher.Turns.{Turn, stays, matches, jumps}

-- A `CALLDATALOAD` of the first group stands before index `n`.
pub record Mark (groups : Dict ℕ (List Instruction)) (n : ℕ) : Type 0 where
  pub index : ℕ
  pub group : List Instruction
  pub mark : Instruction
  pub first : lookup 0 groups ≡ some group
  pub found : get_elem? group index ≡ some mark
  pub loads : mark.opcode ≡ codes "CALLDATALOAD"
  pub before : index < n

pub get_elem?-append :
    {A : Type 0} (xs ys : List A) (n : ℕ) {a : A}
    → get_elem? xs n ≡ some a
    → get_elem? (xs ++ ys) n ≡ some a
get_elem?-append [] ys n h = cc
get_elem?-append (x ∷ xs) ys zero h = h
get_elem?-append (x ∷ xs) ys (suc n) h = get_elem?-append xs ys n h

get_elem?-snoc : {A : Type 0} (xs : List A) (a : A) → get_elem? (xs ++ a ∷ []) (length xs) ≡ some a
get_elem?-snoc [] a = refl
get_elem?-snoc (x ∷ xs) a = get_elem?-snoc xs a

abbrev pub IsLater : ℕ → Type 0
IsLater p = 1 ≤ p

append_at-new :
    (k : Name) (p : ℕ) (d : Dict Name (List ℕ))
    → lookup k d ≡ none
    → append_at k p d ≡ insert k (p ∷ []) d
unfolding append_at
append_at-new k p d h = ground (arith, h)

append_at-old :
    (k : Name) (p : ℕ) (vs : List ℕ) (d : Dict Name (List ℕ))
    → lookup k d ≡ some vs
    → append_at k p d ≡ insert k (vs ++ p ∷ []) d
unfolding append_at
append_at-old k p vs d h = ground (arith, h)

pub append_at-IsLater :
    (k : Name) (p : ℕ) (d : Dict Name (List ℕ))
    → IsLater p
    → All (All IsLater) (values d)
    → All (All IsLater) (values (append_at k p d))
append_at-IsLater k p d hp h = elim (Option-cases (lookup k d)) [
  | inl new ↦
      subst (λ after. All (All IsLater) (values after)) (sym (append_at-new k p d new))
        (All-insert (All IsLater) k (p ∷ []) d (hp, tt) h)
  | inr (vs, old) ↦
      subst (λ after. All (All IsLater) (values after)) (sym (append_at-old k p vs d old))
        (All-insert (All IsLater) k (vs ++ p ∷ []) d
          (All-append IsLater vs (p ∷ []) (All-lookup (All IsLater) k vs d h old) (hp, tt)) h)
]

-- The mark is another view of the first group, or of a later end.
Mark-of :
    (groups after : Dict ℕ (List Instruction)) (m n : ℕ) (more : List Instruction)
    → m ≤ n
    → ((group : List Instruction)
        → lookup 0 groups ≡ some group
        → lookup 0 after ≡ some (group ++ more))
    → Mark groups m
    → Mark after n
Mark-of groups after m n more le same mark = record {
  index = mark.index;
  group = mark.group ++ more;
  mark = mark.mark;
  first = same mark.group mark.first;
  found = get_elem?-append mark.group more mark.index mark.found;
  loads = mark.loads;
  before = omega (arith, le, mark.before);
}

-- A write to another group, and to the end of a group.
pub Mark-insert :
    (groups : Dict ℕ (List Instruction)) (m n k : ℕ) (group : List Instruction)
    → m ≤ n
    → Mark groups m
    → Mark (insert (suc k) group groups) n
Mark-insert groups m n k group le =
    Mark-of groups (insert (suc k) group groups) m n [] le
      (λ g h. rw (lookup-insert (suc k) 0 group groups, append-nil) (ground (arith, h)))

Mark-append :
    (groups : Dict ℕ (List Instruction)) (m n k : ℕ) (group : List Instruction) (i : Instruction)
    → m ≤ n
    → lookup k groups ≡ some group
    → Mark groups m
    → Mark (insert k (group ++ i ∷ []) groups) n
Mark-append groups m n zero group i le found =
    Mark-of groups (insert 0 (group ++ i ∷ []) groups) m n (i ∷ []) le
      (λ g h. rw (lookup-insert 0 0 (group ++ i ∷ []) groups) (ground (arith, h, found)))
Mark-append groups m n (suc k) group i le found = Mark-insert groups m n k (group ++ i ∷ []) le

-- What holds before an instruction `i` is saved, and without it at the end of a round.
pub record Marked (next : Option Instruction) (s : Feeding) : Type 0 where
  pub recorded : All (All IsLater) (values s.self.functions_to_positions)
  pub deep : 1 ≤ s.position → Mark s.self.positions_to_instructions s.offset_instr
  pub flagged :
      s.flag_status ≡ 2
      → Mark s.self.positions_to_instructions s.offset_instr
        ⊎ ((i : Instruction) × (next ≡ some i) × (i.opcode ≡ codes "CALLDATALOAD"))
  pub jumpdests :
      All
        (λ j. Mark s.self.positions_to_instructions j.1 × (j.1 ≤ s.offset_instr))
        s.self.jumpdest_in_dispatcher

when_flagged :
    (s : Feeding)
    → Marked none s
    → s.flag_status ≡ 2
    → Mark s.self.positions_to_instructions s.offset_instr
when_flagged s h two = elim (h.flagged two) [ inl m ↦ m | inr found ↦ absurd (cc found.1) ]

abbrev AreMarked : Dict ℕ (List Instruction) → ℕ → List (ℕ × ℕ) → Type 0
AreMarked groups offset = All (λ j. Mark groups j.1 × (j.1 ≤ offset))

Jumps-insert :
    (groups : Dict ℕ (List Instruction)) (position offset : ℕ) (jumpdests : List (ℕ × ℕ))
    → AreMarked groups offset jumpdests
    → AreMarked (insert (suc position) [] groups) offset jumpdests
Jumps-insert groups position offset jumpdests =
    All-map (λ j. Mark groups j.1 × (j.1 ≤ offset)) jumpdests
      (λ j h. (Mark-insert groups j.1 j.1 position [] (omega arith) h.0, h.1))

pub Turn-Marked : (i : Instruction) (s t : Feeding) → Turn i s t → Marked none s → Marked (some i) t
unfolding record_position
Turn-Marked i s t (stays h) m = record {
  recorded = rw h.same_positions m.recorded;
  deep = rw (h.same_position, h.same_groups, h.same_offset) m.deep;
  flagged = λ two. elim (h.flag two) [
    | inl before ↦ rw (h.same_groups, h.same_offset) (inl (when_flagged s m before))
    | inr loads ↦ inr (i, refl, loads)
  ];
  jumpdests = rw (h.same_groups, h.same_offset, h.same_jumpdests) m.jumpdests;
}
Turn-Marked i s t (matches argument two) m =
    let mark = when_flagged s m two in
    let groups = s.self.positions_to_instructions in
    let later = Mark-insert groups s.offset_instr s.offset_instr s.position [] (omega arith) mark in
    record {
      recorded =
          append_at-IsLater (get_back_functin_signature argument) (suc s.position)
            s.self.functions_to_positions (omega arith) m.recorded;
      deep = λ _. later;
      flagged = λ _. inl later;
      jumpdests =
          Jumps-insert groups s.position s.offset_instr s.self.jumpdest_in_dispatcher m.jumpdests;
    }
Turn-Marked i s t (jumps two) m =
    let mark = when_flagged s m two in
    let groups = s.self.positions_to_instructions in
    let later = Mark-insert groups s.offset_instr s.offset_instr s.position [] (omega arith) mark in
    record {
      recorded = m.recorded;
      deep = λ _. later;
      flagged = λ _. inl later;
      jumpdests =
          All-append (λ j. Mark (insert (suc s.position) [] groups) j.1 × (j.1 ≤ s.offset_instr))
            s.self.jumpdest_in_dispatcher ((suc s.position, s.offset_instr) ∷ [])
            (Jumps-insert groups s.position s.offset_instr s.self.jumpdest_in_dispatcher
              m.jumpdests)
            ((later, omega arith), tt);
    }

Mark-saved :
    (i : Instruction) (s : Feeding) (done : List Instruction) (n : ℕ)
    → s.position ≡ n
    → (group : List Instruction) → Laid s.self.positions_to_instructions s.position done
    → s.offset_instr ≡ length done
    → lookup n s.self.positions_to_instructions ≡ some group
    → Marked (some i) s
    → i.opcode ≡ codes "CALLDATALOAD"
    → Mark (insert n (group ++ i ∷ []) s.self.positions_to_instructions) (suc s.offset_instr)
Mark-saved i s done zero at_start group laid offset found m loads =
    let groups = s.self.positions_to_instructions in
    let (front, _, whole) =
      combine-last 0 group done groups
        (subst (λ n. combine [] (suc n) groups ≡ some done) at_start laid.covered) found in
    record {
      index = length group;
      group = group ++ i ∷ [];
      mark = i;
      first = rw (lookup-insert 0 0 (group ++ i ∷ []) groups) refl;
      found = get_elem?-snoc group i;
      loads = loads;
      before = omega (arith, offset, length-append front group, ap length whole);
    }
Mark-saved i s done (suc k) later group laid offset found m loads =
    Mark-append s.self.positions_to_instructions s.offset_instr (suc s.offset_instr) (suc k) group i
      (omega arith) found (m.deep (omega (arith, later)))

-- The saved instruction itself is a mark when it is a `CALLDATALOAD` of the first group.
pub save_instruction-Marked :
    (i : Instruction) (s : Feeding) (done group : List Instruction)
    → lookup s.position s.self.positions_to_instructions ≡ some group
    → Laid s.self.positions_to_instructions s.position done
    → s.offset_instr ≡ length done
    → Marked (some i) s
    → Marked none (record s {
      self = record s.self {
        positions_to_instructions =
            insert s.position (group ++ i ∷ []) s.self.positions_to_instructions;
      };
      offset_instr = suc s.offset_instr;
    })
save_instruction-Marked i s done group found laid offset m =
    let n = s.position in
    let groups = s.self.positions_to_instructions in
    record {
      recorded = m.recorded;
      deep = λ h.
          Mark-append groups s.offset_instr (suc s.offset_instr) n group i (omega arith) found
            (m.deep h);
      flagged = λ two. inl (elim (m.flagged two) [
        | inl mark ↦
            Mark-append groups s.offset_instr (suc s.offset_instr) n group i (omega arith) found
              mark
        | inr (j, e, loads) ↦ Mark-saved i s done n refl group laid offset found m cc
      ]);
      jumpdests =
          All-map (λ j. Mark groups j.1 × (j.1 ≤ s.offset_instr)) s.self.jumpdest_in_dispatcher
            (λ j h.
              (Mark-append groups j.1 j.1 n group i (omega arith) found h.0, omega (arith, h.1)))
            m.jumpdests;
    }
