-- ===== src/Slots/Refine.antt =====
-- Which slots a function is found to access.
use smart_executor.Prelude.{
  Comparable, ◌==◌, contains-append, contains, Dict, IsDict, entry, entry-insert, lookup, insert, ℕ,
  ◌≡◌, refl, sym, ap, ◌∙◌, subst, inl, inr, Bool, true, false, ◌&&◌, ◌||◌, not, none, some, List,
  [], ◌∷◌, ◌++◌, arith, ltb, Bool-cases, Option-cases, length, nat_eq, list_eq,
}
use smart_executor.Slots.{
  add_location, refine_slots, collect_slots, add_locations, collect_locations,
}
use smart_executor.Keys.{Name, name_iff}

abbrev pub has_slot : {Location : Type 0} → (Location → Name) → Location → Name → Bool
has_slot slot_of loc s = ltb 0 (length (slot_of loc)) && slot_of loc == s

-- Some location of the list has the slot.
abbrev pub any_slot : {Location : Type 0} → (Location → Name) → List Location → Name → Bool
any_slot slot_of [] s = false
any_slot slot_of (loc ∷ locations) s = has_slot slot_of loc s || any_slot slot_of locations s

abbrev pub any_slot_at :
    {Location : Type 0} → (Location → Name) → Dict ℕ (List Location) → Name → Bool
any_slot_at slot_of [] s = false
any_slot_at slot_of ((addr, locations) ∷ accesses) s =
    any_slot slot_of locations s || any_slot_at slot_of accesses s

contains-collect_slots :
    {Location : Type 0} (slot_of : Location → Name) (locations : List Location)
    (my_slots : List Name) (s : Name)
    → contains (collect_slots slot_of locations my_slots) s
      ≡ contains my_slots s || any_slot slot_of locations s
unfolding collect_slots contains
contains-collect_slots slot_of [] my_slots s = ground arith
contains-collect_slots slot_of (loc ∷ locations) my_slots s =
    elim (Bool-cases (ltb 0 (length (slot_of loc)) && not (contains my_slots (slot_of loc)))) [
      | inl new ↦ rw new (
          ground (
            arith,
            contains-collect_slots slot_of locations (my_slots ++ slot_of loc ∷ []) s,
            contains-append my_slots (slot_of loc ∷ []) s,
          ))
      | inr old ↦ rw old (
          ground
            (arith, contains-collect_slots slot_of locations my_slots s, name_iff (slot_of loc) s))
    ]

module _ {Location : Type 0} ⦃e : Comparable Location⦄ (slot_of : Location → Name) (s : Name) where
  any_slot-append :
      (xs ys : List Location)
      → any_slot slot_of (xs ++ ys) s ≡ any_slot slot_of xs s || any_slot slot_of ys s
  any_slot-append [] ys = refl
  any_slot-append (x ∷ xs) ys = ground (arith, any_slot-append xs ys)

  any_slot-of_contains :
      (xs : List Location) (loc : Location)
      → contains xs loc ≡ true
      → has_slot slot_of loc s ≡ true
      → any_slot slot_of xs s ≡ true
  unfolding contains
  any_slot-of_contains [] loc m h = absurd (ground arith)
  any_slot-of_contains (x ∷ xs) loc m h = elim (Bool-cases (x == loc)) [
    | inl same ↦
        let h' = subst (λ l. has_slot slot_of l s ≡ true) (sym ((e.same_iff x loc).0 same)) h in
        ground arith
    | inr other ↦ ground (arith, any_slot-of_contains xs loc)
  ]

  any_slot-add_location :
      (loc : Location) (all : List Location)
      → any_slot slot_of (add_location loc all) s ≡ any_slot slot_of all s || has_slot slot_of loc s
  unfolding add_location
  any_slot-add_location loc all = elim (Bool-cases (contains all loc)) [
    | inl old ↦ elim (Bool-cases (has_slot slot_of loc s)) [
      | inl good ↦ rw old (rw (any_slot-of_contains all loc old good) refl)
      | inr bad ↦ rw old (rw bad (ground arith))
    ]
    | inr new ↦ rw new (any_slot-append all (loc ∷ []) ∙ ground arith)
  ]

  any_slot-add_locations :
      (locations all : List Location)
      → any_slot slot_of (add_locations locations all) s
        ≡ any_slot slot_of all s || any_slot slot_of locations s
  unfolding add_locations
  any_slot-add_locations [] all = ground arith
  any_slot-add_locations (loc ∷ locations) all = ground (
    arith,
    any_slot-add_locations locations (add_location loc all),
    any_slot-add_location loc all,
  )

  any_slot-collect_locations :
      (accesses : Dict ℕ (List Location)) (all : List Location)
      → any_slot slot_of (collect_locations accesses all) s
        ≡ any_slot slot_of all s || any_slot_at slot_of accesses s
  unfolding collect_locations
  any_slot-collect_locations [] all = ground arith
  any_slot-collect_locations ((addr, locations) ∷ accesses) all = ground (
    arith,
    any_slot-collect_locations accesses (add_locations locations all),
    any_slot-add_locations locations all,
  )

  contains-refine_slots :
      (trace : Dict Name (Dict ℕ (List Location))) (slots : Dict Name (List Name)) (ftn : Name)
      → IsDict trace
      → contains (entry ftn (refine_slots slot_of trace slots)) s ≡ (elim (lookup ftn trace) [
        | none ↦ contains (entry ftn slots) s
        | some accesses ↦ any_slot_at slot_of accesses s
      ])
  unfolding refine_slots lookup contains
  contains-refine_slots [] slots ftn h = refl
  contains-refine_slots ((f, accesses) ∷ trace) slots ftn h =
      let found = collect_slots slot_of (collect_locations accesses []) [] in
      let ih = contains-refine_slots trace (insert f found slots) ftn h.1 in
      let put = ap (λ l. contains l s) (entry-insert f ftn found slots) in
      let here =
        contains-collect_slots slot_of (collect_locations accesses []) [] s
        ∙ any_slot-collect_locations accesses [] in
      elim (Bool-cases (f == ftn)) [
        | inl same ↦
            let missing : lookup ftn trace ≡ none =
              subst (λ x. lookup x trace ≡ none) ((name_iff f ftn).0 same) (ground arith) in
            rw same (rw missing at ih ∙ rw same at put ∙ here)
        | inr other ↦ elim (Option-cases (lookup ftn trace)) [
          | inl missing ↦ rw other (rw missing (rw missing at ih ∙ rw other at put))
          | inr (accs, there) ↦ rw other (rw there (rw there at ih))
        ]
      ]

-- `refine_read_write_slots` finds a slot for a function exactly when some location that the function
-- accesses, at any address, has this slot.
pub contains-refine_read_write_slots :
    {Location : Type 0} ⦃e : Comparable Location⦄ (slot_of : Location → Name)
    (trace : Dict Name (Dict ℕ (List Location))) (ftn : Name) (accesses : Dict ℕ (List Location))
    (s : Name)
    → IsDict trace
    → lookup ftn trace ≡ some accesses
    → contains (entry ftn (refine_slots slot_of trace [])) s ≡ any_slot_at slot_of accesses s
contains-refine_read_write_slots {Location = Location} slot_of trace ftn accesses s h found =
    let whole = contains-refine_slots {Location = Location} slot_of s trace [] ftn h in
    rw found at whole
