-- ===== src/Dispatcher/Groups.antt =====
-- The groups of `_feed_instructions_update`, in the order of their positions, are the instructions of
-- the contract.
use mathlib.Core.List.{append-nil, append_assoc}
use smart_executor.Prelude.{
  eq_refl, contains, Dict, lookup-insert, lookup, insert, ℕ, zero, suc, ◌≤◌, ◌<◌, ◌≡◌, refl, none,
  some, List, [], ◌∷◌, ◌++◌, arith, length, nat_eq, list_eq, length-insert-new, ap, ◌∙◌, bind_some,
  length-insert-old, sym,
}
use smart_executor.Dispatcher.Turns.{Turn, stays, matches, jumps}
use smart_executor.Dispatcher.Modify.{combine}
use smart_executor.Dispatcher.{Instruction, Feeding, record_position}

-- `combine` looks no further than the positions that it is given.
pub combine-insert :
    (not_kept : List ℕ) (n k : ℕ) (group : List Instruction) (d : Dict ℕ (List Instruction))
    → n ≤ k
    → combine not_kept n (insert k group d) ≡ combine not_kept n d
unfolding combine
combine-insert not_kept zero k group d h = refl
combine-insert not_kept (suc n) k group d h =
    rw (combine-insert not_kept n k group d (omega (arith, h)), lookup-insert k n group d)
      (ground arith)

-- The last group, written.
pub combine-insert-last :
    (n : ℕ) (group xs : List Instruction) (d : Dict ℕ (List Instruction))
    → combine [] n d ≡ some xs
    → combine [] (suc n) (insert n group d) ≡ some (xs ++ group)
unfolding combine contains
combine-insert-last n group xs d h =
    rw (combine-insert [] n n group d (omega arith), h, lookup-insert n n group d, eq_refl n) refl

-- The groups up to `position` hold the instructions `done`.
pub record Laid (groups : Dict ℕ (List Instruction)) (position : ℕ) (done : List Instruction)
    : Type 0 where
  pub covered : combine [] (suc position) groups ≡ some done
  pub size : length groups ≡ suc position
  pub fresh : (p : ℕ) → position < p → lookup p groups ≡ none

pub Laid-start : Laid (insert 0 [] []) 0 []
unfolding combine insert lookup
Laid-start = record { covered = refl; size = refl; fresh = λ p h. ground arith }

-- A new group at the end.
Laid-new :
    (groups : Dict ℕ (List Instruction)) (position : ℕ) (done : List Instruction)
    → Laid groups position done
    → Laid (insert (suc position) [] groups) (suc position) done
Laid-new groups position done laid = record {
  covered =
      combine-insert-last (suc position) [] done groups laid.covered ∙ ap some (append-nil done);
  size =
      length-insert-new (suc position) [] groups (laid.fresh (suc position) (omega arith))
      ∙ ap suc laid.size;
  fresh = λ p h. rw (lookup-insert (suc position) p [] groups) (ground (arith, laid.fresh p));
}

pub Turn-Laid :
    (i : Instruction) (s t : Feeding) (done : List Instruction)
    → Turn i s t
    → Laid s.self.positions_to_instructions s.position done
    → Laid t.self.positions_to_instructions t.position done
unfolding record_position
Turn-Laid i s t done (stays h) laid = rw (h.same_groups, h.same_position) laid
Turn-Laid i s t done (matches argument two) laid = Laid-new _ _ done laid
Turn-Laid i s t done (jumps two) laid = Laid-new _ _ done laid

-- What stands before the last group.
pub combine-last :
    (n : ℕ) (group done : List Instruction) (groups : Dict ℕ (List Instruction))
    → combine [] (suc n) groups ≡ some done
    → lookup n groups ≡ some group
    → (front : List Instruction) × (combine [] n groups ≡ some front) × (front ++ group ≡ done)
unfolding combine contains
combine-last n group done groups h found =
    let (front, hf, rest) = bind_some (combine [] n groups) _ done h in
    (front, hf, ground (arith, rest, found))

-- The instruction goes to the last group.
pub Laid-append :
    (groups : Dict ℕ (List Instruction)) (position : ℕ) (done group : List Instruction)
    (i : Instruction)
    → lookup position groups ≡ some group
    → Laid groups position done
    → Laid (insert position (group ++ i ∷ []) groups) position (done ++ i ∷ [])
unfolding combine contains
Laid-append groups position done group i found laid =
    let (front, hf, last) = combine-last position group done groups laid.covered found in
    record {
      covered =
          combine-insert-last position (group ++ i ∷ []) front groups hf
          ∙ ap some (sym (append_assoc front group (i ∷ [])) ∙ ap (λ xs. xs ++ i ∷ []) last);
      size = length-insert-old position (group ++ i ∷ []) group groups found ∙ laid.size;
      fresh = λ p h.
          rw (lookup-insert position p (group ++ i ∷ []) groups) (ground (arith, laid.fresh p));
    }
