-- ===== src/Dispatcher/Kept.antt =====
-- What `_get_modified_instructions_1` gives for the selectors of the functions that are executed.
use smart_executor.Targets.Organize.{recorded}
use smart_executor.Prelude.{
  contains, Dict, entry, ℕ, ◌-◌, ◌≤◌, ◌≡◌, refl, ◌↔◌, ◌⊎◌, true, false, some, List, [], ◌∷◌, ◌++◌,
  arith, length, All, All-map, nat_eq, list_eq, list_beq_iff, contains-append, contains-filter_by,
  list_beq, filter_by, has_key-eq, has_key, sym, ◌∙◌, subst, inl, inr, ◌&&◌, not, Bool-cases,
  lookup, ◌+◌, ap, Option-cases, get_elem?,
}
use smart_executor.Keys.{Name, name_iff}
use smart_executor.Dispatcher.Fed.{IsGrouped}
use smart_executor.Dispatcher.Dup1.{Landmark, clear-Landmark}
use smart_executor.Dispatcher.Marks.{IsLater, Mark}
use smart_executor.Dispatcher.{InstructionModification, Instruction}
use smart_executor.Dispatcher.Combined.{combine-Emptied, combine-at}
use smart_executor.Dispatcher.Modify.{
  kept_positions, combine, not_kept_positions, get_modified_instructions_1,
}
use smart_executor.Dispatcher.Emptied.{Emptied-length, IsDup1, Emptied, IsAny}

-- `p` is the position of one of the selectors, or of a branch of the dispatcher.
abbrev pub IsKept : InstructionModification → List Name → ℕ → Type 0
IsKept self selectors p =
    (contains self.positions_contain_gt p ≡ true)
    ⊎ ((selector : Name) × (contains selectors selector ≡ true)
        × (contains (entry selector self.functions_to_positions) p ≡ true))

kept_positions_iff :
    (d : Dict Name (List ℕ)) (selectors : List Name) (p : ℕ)
    → (contains (kept_positions d selectors) p ≡ true) ↔ (
        (selector : Name) × (contains selectors selector ≡ true)
        × (contains (entry selector d) p ≡ true))
unfolding kept_positions contains
kept_positions_iff d [] p = (λ h. cc, λ h. cc h.1)
kept_positions_iff d (s ∷ selectors) p = (
  λ h. elim (Bool-cases (contains (entry s d) p)) [
    | inl here ↦ (s, ground (arith, name_iff s s), here)
    | inr elsewhere ↦
        let (selector, given, found) =
          (kept_positions_iff d selectors p).0
            (ground (arith, h, contains-append (entry s d) (kept_positions d selectors) p)) in
        (selector, ground (arith, given), found)
  ],
  λ (selector, given, found). elim (Bool-cases (list_beq s selector)) [
    | inl same ↦
        let here : contains (entry s d) p ≡ true =
          subst (λ k. contains (entry k d) p ≡ true) (sym ((list_beq_iff s selector).0 same))
            found in
        ground (arith, here, contains-append (entry s d) (kept_positions d selectors) p)
    | inr other ↦
        let later = (kept_positions_iff d selectors p).1 (selector, ground (arith, given), found) in
        ground (arith, later, contains-append (entry s d) (kept_positions d selectors) p)
  ],
)

-- The list `ftn_selectors_valid`
abbrev valid : InstructionModification → List Name → List Name
valid self = filter_by (λ selector. has_key selector self.functions_to_positions)

entry-has_key :
    (selector : Name) (p : ℕ) (d : Dict Name (List ℕ))
    → contains (entry selector d) p ≡ true
    → has_key selector d ≡ true
unfolding contains
entry-has_key selector p d h = elim (Option-cases (lookup selector d)) [
  | inl missing ↦ absurd (ground arith)
  | inr (ps, found) ↦ rw (has_key-eq selector d, found) refl
]

keep_iff :
    (self : InstructionModification) (selectors : List Name) (p : ℕ)
    → (contains
          (self.positions_contain_gt
            ++ kept_positions self.functions_to_positions (valid self selectors))
          p
        ≡ true)
      ↔ IsKept self selectors p
keep_iff self selectors p =
    let d = self.functions_to_positions in
    let parts =
      contains-append self.positions_contain_gt (kept_positions d (valid self selectors)) p in
    (
      λ h. elim (Bool-cases (contains self.positions_contain_gt p)) [
        | inl gt ↦ inl gt
        | inr no_gt ↦
            let (selector, given, found) =
              (kept_positions_iff d (valid self selectors) p).0 (ground (arith, h, parts)) in
            inr (
              selector,
              ground (arith, given, contains-filter_by (λ s. has_key s d) selectors selector),
              found,
            )
      ],
      λ h. elim h [
        | inl gt ↦ ground (arith, gt, parts)
        | inr (selector, given, found) ↦
            let is_key = entry-has_key selector p d found in
            let kept = (kept_positions_iff d (valid self selectors) p).1 (
              selector,
              ground
                  (arith, given, is_key, contains-filter_by (λ s. has_key s d) selectors selector),
              found,
            ) in
            ground (arith, kept, parts)
      ],
    )

pub not_kept_positions_iff :
    (self : InstructionModification) (selectors : List Name) (p : ℕ)
    → (contains (not_kept_positions self selectors) p ≡ true)
      ↔ ((contains self.all_positions_related_function p ≡ true) × ¬ IsKept self selectors p)
unfolding not_kept_positions
not_kept_positions_iff self selectors p =
    let all = self.all_positions_related_function in
    let keep =
      self.positions_contain_gt
      ++ kept_positions self.functions_to_positions (valid self selectors) in
    let parts : contains (not_kept_positions self selectors) p
        ≡ not (contains keep p) && contains all p =
      contains-filter_by (λ q. not (contains keep q)) all p in
    (
      λ h. (
        ground (arith, h, parts),
        λ kept.
            let is_kept = (keep_iff self selectors p).1 kept in ground (arith, h, parts, is_kept),
      ),
      λ (recorded, dropped). elim (Bool-cases (contains keep p)) [
        | inl kept ↦ absurd (dropped ((keep_iff self selectors p).0 kept))
        | inr other ↦ parts ∙ ground (arith, other, recorded)
      ],
    )

not-contains-zero : (ps : List ℕ) → All IsLater ps → contains ps 0 ≡ false
unfolding contains
not-contains-zero [] h = refl
not-contains-zero (p ∷ ps) h = ground (arith, h.0, not-contains-zero ps h.1)

module _ (instructions : List Instruction) (fed : InstructionModification) (selectors : List Name)
    (g : IsGrouped instructions fed) where
  -- The groups that are combined, and the instructions when each `DUP1` is cleared.
  pub record Modified : Type 0 where
    pub combined : List Instruction
    pub changed : List Instruction
    pub combines :
        combine (not_kept_positions fed selectors) g.last fed.positions_to_instructions
        ≡ some combined
    pub emptied : Emptied IsAny g.done combined
    pub cleared : Emptied IsDup1 combined changed
    pub result : get_modified_instructions_1 fed selectors ≡ some (changed ++ g.rest)

  zero_is_kept : contains (not_kept_positions fed selectors) 0 ≡ false
  zero_is_kept = elim (Bool-cases (contains (not_kept_positions fed selectors) 0)) [
    | inr kept ↦ kept
    | inl dropped ↦
        let recorded = ((not_kept_positions_iff fed selectors 0).0 dropped).0 in
        absurd (cc (sym recorded ∙ not-contains-zero fed.all_positions_related_function g.recorded))
  ]

  Mark-Landmark :
      (combined : List Instruction) (n : ℕ)
      → combine (not_kept_positions fed selectors) g.last fed.positions_to_instructions
        ≡ some combined
      → length combined ≡ length g.done
      → n ≤ length g.done
      → Mark fed.positions_to_instructions n
      → Landmark combined n
  unfolding combine
  Mark-Landmark combined n h same inside m =
      let raw =
        combine-at (not_kept_positions fed selectors) g.last 0 m.index fed.positions_to_instructions
          combined [] m.group m.mark h g.positive refl m.first m.found in
      let sum : m.index ≡ 0 + m.index = omega arith in
      let shift : get_elem? combined m.index ≡ get_elem? combined (0 + m.index) =
        ap (get_elem? combined) sum in
      record {
        index = m.index;
        mark = m.mark;
        found = shift ∙ raw ∙ rw zero_is_kept refl;
        loads = m.loads;
        before = m.before;
        inside = omega (arith, inside, same);
      }

  pub last_position : length fed.positions_to_instructions - 1 ≡ g.last
  last_position = omega (arith, g.size)

  pub modified : Modified
  unfolding get_modified_instructions_1
  modified =
      let (combined, combines, emptied) =
        combine-Emptied (not_kept_positions fed selectors) g.last fed.positions_to_instructions
          g.done g.covered in
      let (changed, clears, cleared) =
        clear-Landmark fed.jumpdest_in_dispatcher combined (length combined - 1) (
          All-map (λ j. Mark fed.positions_to_instructions j.1 × (j.1 ≤ length g.done))
            fed.jumpdest_in_dispatcher
            (λ j h. Mark-Landmark combined j.1 combines (Emptied-length emptied) h.1 h.0)
            g.jumpdests) in
      record {
        combined = combined;
        changed = changed;
        combines = combines;
        emptied = emptied;
        cleared = cleared;
        result = rw (last_position, combines, clears, g.tail) refl;
      }
