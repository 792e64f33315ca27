-- ===== src/Dispatcher/Dup1.antt =====
-- The loops that clear a `DUP1`: they clear nothing else, and they come to an end behind a
-- `CALLDATALOAD`.
use mathlib.Core.Option.{some-injective}
use smart_executor.Prelude.{
  ◌==◌, ℕ, zero, suc, ◌≤◌, ◌<◌, ◌≡◌, refl, inl, inr, some, List, arith, Bool-cases, Option-cases,
  codes, length, get_elem?, nat_eq, list_eq, list_beq_iff, sym, ◌∙◌, subst, true, [], ◌∷◌, is_some,
  list_beq, ap, ltb, ltb→lt, All, All-map,
}
use smart_executor.Dispatcher.{Instruction}
use smart_executor.Dispatcher.Modify.{
  empty_opcode, empty_last_dup1, seek, empty_dup1, empty_before, empty_jumpdests, empty_instruction,
}
use smart_executor.Dispatcher.Emptied.{
  IsDup1, Emptied, empty_at-Emptied, Emptied-refl, Emptied-at, Emptied-length, Emptied-trans,
}

found-IsDup1 :
    (n : ℕ) (i j : Instruction) (xs : List Instruction)
    → get_elem? xs n ≡ some i
    → get_elem? xs n ≡ some j
    → i.opcode == codes "DUP1" ≡ true
    → IsDup1 j
found-IsDup1 n i j xs found e dup1 =
    subst IsDup1 (some-injective i j (sym found ∙ e))
      ((list_beq_iff i.opcode (codes "DUP1")).0 dup1)

get_elem?-is_some :
    (xs : List Instruction) (n : ℕ) → n < length xs → is_some (get_elem? xs n) ≡ true
get_elem?-is_some [] n h = absurd (omega arith)
get_elem?-is_some (x ∷ xs) zero h = refl
get_elem?-is_some (x ∷ xs) (suc n) h = get_elem?-is_some xs n (omega arith)

empty_last_dup1-Emptied : (n : ℕ) (xs : List Instruction) → Emptied IsDup1 xs (empty_last_dup1 n xs)
unfolding empty_last_dup1
empty_last_dup1-Emptied zero xs = Emptied-refl xs
empty_last_dup1-Emptied (suc n) xs = elim (Option-cases (get_elem? xs (suc n))) [
  | inl missing ↦ rw missing (Emptied-refl xs)
  | inr (i, found) ↦ rw found (elim (Bool-cases (i.opcode == empty_opcode)) [
    | inl empty ↦ rw empty (empty_last_dup1-Emptied n xs)
    | inr full ↦ rw full (elim (Bool-cases (i.opcode == codes "DUP1")) [
      | inl dup1 ↦
          rw dup1 (empty_at-Emptied (suc n) xs (λ j e. found-IsDup1 (suc n) i j xs found e dup1))
      | inr other ↦ rw other (Emptied-refl xs)
    ])
  ])
]

empty_dup1-Emptied : (n : ℕ) (xs : List Instruction) → Emptied IsDup1 xs (empty_dup1 n xs)
unfolding empty_dup1
empty_dup1-Emptied n xs = elim (Option-cases (get_elem? xs n)) [
  | inl missing ↦ rw missing (Emptied-refl xs)
  | inr (i, found) ↦ rw found (elim (Bool-cases (i.opcode == codes "DUP1")) [
    | inl dup1 ↦ rw dup1 (empty_at-Emptied n xs (λ j e. found-IsDup1 n i j xs found e dup1))
    | inr other ↦ rw other (Emptied-refl xs)
  ])
]

loads_is_full :
    (j : Instruction) → j.opcode ≡ codes "CALLDATALOAD" → ¬ (j.opcode == empty_opcode ≡ true)
unfolding list_beq
loads_is_full j loads empty = cc (sym ((list_beq_iff j.opcode empty_opcode).0 empty) ∙ loads)

loads_is_no-IsDup1 : (j : Instruction) → j.opcode ≡ codes "CALLDATALOAD" → ¬ IsDup1 j
loads_is_no-IsDup1 j loads dup1 = cc (sym dup1 ∙ loads)

-- The search stops at an instruction that is not `EMPTY`.
seek-is_found :
    (idx : ℕ) (xs : List Instruction) (c : ℕ) (i : Instruction)
    → get_elem? xs c ≡ some i
    → i.opcode ≡ codes "CALLDATALOAD"
    → c < idx
    → idx ≤ length xs
    → (n : ℕ) × (seek idx xs ≡ some (some n))
unfolding seek
seek-is_found zero xs c i found loads before inside = absurd (omega (arith, before))
seek-is_found (suc idx) xs c i found loads before inside = elim (Option-cases (get_elem? xs idx)) [
  | inl missing ↦ absurd (ground (arith, get_elem?-is_some xs idx))
  | inr (j, at) ↦ rw at (elim (Bool-cases (j.opcode == empty_opcode)) [
    | inr full ↦ rw full (idx, refl)
    | inl empty ↦ rw empty (elim (Bool-cases (ltb c idx)) [
      | inl further ↦
          seek-is_found idx xs c i found loads (ltb→lt c idx further) (omega (arith, inside))
      | inr here ↦ absurd (
          loads_is_full j
            (subst (λ k. k.opcode ≡ codes "CALLDATALOAD")
              (some-injective i j (sym found ∙ ap (get_elem? xs) (ground arith) ∙ at)) loads)
            empty)
    ])
  ])
]

pub empty_is_no-IsDup1 : (i : Instruction) → ¬ IsDup1 (empty_instruction i)
unfolding empty_instruction
empty_is_no-IsDup1 i h = cc h

-- A `CALLDATALOAD` stands before the index.
pub record Landmark (xs : List Instruction) (idx : ℕ) : Type 0 where
  pub index : ℕ
  pub mark : Instruction
  pub found : get_elem? xs index ≡ some mark
  pub loads : mark.opcode ≡ codes "CALLDATALOAD"
  pub before : index < idx
  pub inside : idx ≤ length xs

-- It stays there when a `DUP1` is cleared.
pub Landmark-Emptied :
    {xs ys : List Instruction} (idx : ℕ) → Emptied IsDup1 xs ys → Landmark xs idx → Landmark ys idx
Landmark-Emptied idx emptied l = record {
  index = l.index;
  mark = l.mark;
  found = elim (Emptied-at l.index l.mark emptied l.found) [
    | inl same ↦ same
    | inr changed ↦ absurd (loads_is_no-IsDup1 l.mark l.loads changed.0)
  ];
  loads = l.loads;
  before = l.before;
  inside = rw (Emptied-length emptied) l.inside;
}

empty_before-Landmark :
    (idx : ℕ) (xs : List Instruction)
    → Landmark xs idx
    → (ys : List Instruction) × (empty_before idx xs ≡ some ys) × Emptied IsDup1 xs ys
unfolding empty_before
empty_before-Landmark idx xs l =
    let (n, found) = seek-is_found idx xs l.index l.mark l.found l.loads l.before l.inside in
    (empty_dup1 n xs, rw found refl, empty_dup1-Emptied n xs)

empty_jumpdests-Landmark :
    (jumpdests : List (ℕ × ℕ)) (xs : List Instruction)
    → All (λ j. Landmark xs j.1) jumpdests
    → (ys : List Instruction) × (empty_jumpdests jumpdests xs ≡ some ys) × Emptied IsDup1 xs ys
unfolding empty_jumpdests
empty_jumpdests-Landmark [] xs h = (xs, refl, Emptied-refl xs)
empty_jumpdests-Landmark ((p, idx) ∷ jumpdests) xs h =
    let (ys, e, emptied) = empty_before-Landmark idx xs h.0 in
    let (zs, e', emptied') =
      empty_jumpdests-Landmark jumpdests ys
        (All-map (λ j. Landmark xs j.1) jumpdests (λ j. Landmark-Emptied j.1 emptied) h.1) in
    (zs, rw e e', Emptied-trans (λ i h. absurd (empty_is_no-IsDup1 i h)) emptied emptied')

-- Both loops give a result, and clear only `DUP1`s.
pub clear-Landmark :
    (jumpdests : List (ℕ × ℕ)) (xs : List Instruction) (n : ℕ)
    → All (λ j. Landmark xs j.1) jumpdests
    → (ys : List Instruction) × (empty_jumpdests jumpdests (empty_last_dup1 n xs) ≡ some ys)
      × Emptied IsDup1 xs ys
clear-Landmark jumpdests xs n h =
    let emptied = empty_last_dup1-Emptied n xs in
    let (ys, e, emptied') =
      empty_jumpdests-Landmark jumpdests (empty_last_dup1 n xs)
        (All-map (λ j. Landmark xs j.1) jumpdests (λ j. Landmark-Emptied j.1 emptied) h) in
    (ys, e, Emptied-trans (λ i h. absurd (empty_is_no-IsDup1 i h)) emptied emptied')
