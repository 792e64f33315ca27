-- ===== src/Assign/Tests.antt =====
-- Assignments for states of the contract of `test_2` in fdg/fwrg_manager.py.
use smart_executor.Assign.Chosen.{assign_functions_iff, IsAssigned}
use smart_executor.Assign.Appends.{entry-assign_functions, augmented}
use smart_executor.Assign.Total.{assign_functions_total}
use smart_executor.Assign.Random.Share.{select_functions_randomly_lem}
use smart_executor.Assign.Counters.{lookup-assign_functions}
use smart_executor.Assign.Random.Timeout.{assign_functions_timeout_mine_iff, IsTimeoutChild}
use smart_executor.Keys.{Name, get_ftn_seq_from_key_1}
use smart_executor.Assign.Random.{
  assign_functions_timeout_mine, select_functions_randomly, share, Draw,
}
use smart_executor.Assign.Times.{occurrences}
use smart_executor.Assign.{
  extend_augmented, Coverage, FunctionAssignment, read_children, record_assignment, fallback_case,
  assign_functions, new_function_assignment,
}
use smart_executor.Manager.{get_children_fwrg_T_A, get_children_all_reads, new_fwrg_manager}
use smart_executor.Manager.Tests.{manager_2}
use smart_executor.Reach.Tests.{dedup_order}
use smart_executor.Prelude.{
  nat_eq, list_eq, list_beq, contains, lookup, ◌≡◌, refl, false, some, List, [], ◌∷◌, codes,
  get_last?, ◌>>=◌, ◌==◌, Nodup, All-intro, entry, has_key, ℕ, zero, suc, ◌+◌, ◌<◌, ap, ◌∙◌, ◌↔◌,
  ◌⊎◌, true, ◌&&◌, ◌++◌, arith, ltb, leb, if◌then◌else◌, is_some, length, All, dedup, insert, ◌≤◌,
}

abbrev pub functions_4 : List Name
functions_4 = codes "f1" ∷ codes "f2" ∷ codes "f3" ∷ codes "f4" ∷ []

abbrev pub self_2 : FunctionAssignment
self_2 = new_function_assignment 5 functions_4 manager_2 0

abbrev pub targets_2 : List (Name × Coverage)
targets_2 =
    (codes "f3", record { covered = 40; total = 50 })
    ∷ (codes "f4", record { covered = 10; total = 30 })
    ∷ []

abbrev f2_key : Name
f2_key = codes "f2#0"

pub program : Unit {0}
unfolding new_function_assignment assign_functions extend_augmented record_assignment
    assign_functions_timeout_mine get_ftn_seq_from_key_1 fallback_case list_beq contains
    new_fwrg_manager get_children_all_reads select_functions_randomly get_children_fwrg_T_A
    read_children lookup dedup insert has_key
program = tt

abbrev after_f3 : FunctionAssignment
after_f3 = record_assignment (codes "f3" ∷ []) self_2

f2-last : get_last? (get_ftn_seq_from_key_1 f2_key) ≡ some (codes "f2")
unfolding program
f2-last = refl

f2-plain : fallback_case self_2 (codes "f2") ≡ []
unfolding program
f2-plain = refl

f2-assigned :
    assign_functions dedup_order false 4 f2_key targets_2 [] [] self_2
    ≡ some (codes "f3" ∷ [], after_f3)
unfolding program
f2-assigned = refl

-- `f3` is assigned on a state after `f2`.
assign_functions_iff_example :
    (contains (codes "f3" ∷ []) (codes "f3") ≡ true)
    ↔ IsAssigned false 4
        (get_ftn_seq_from_key_1 f2_key)
        (codes "f2")
        targets_2
        []
        self_2
        after_f3
        (codes "f3")
assign_functions_iff_example =
    assign_functions_iff dedup_order false 4 f2_key (codes "f2") targets_2 [] self_2 after_f3
      (codes "f3" ∷ []) (codes "f3") f2-last f2-plain f2-assigned

abbrev after_all_reads : FunctionAssignment
after_all_reads = record_assignment (codes "f3" ∷ []) (record self_2 {
  fwrg_manager =
      extend_augmented (codes "f2") (get_children_all_reads self_2.fwrg_manager (codes "f2"))
        self_2.fwrg_manager;
})

f2-assigned_all_reads :
    assign_functions dedup_order true 4 f2_key targets_2 [] [] self_2
    ≡ some (codes "f3" ∷ [], after_all_reads)
unfolding program
f2-assigned_all_reads = refl

entry-assign_functions_example : entry (codes "f2") (augmented after_all_reads.fwrg_manager) ≡ (
    if true && codes "f2" == codes "f2" && has_key (codes "f2") (augmented self_2.fwrg_manager)
    then entry (codes "f2") (augmented self_2.fwrg_manager)
      ++ get_children_all_reads self_2.fwrg_manager (codes "f2")
    else entry (codes "f2") (augmented self_2.fwrg_manager))
entry-assign_functions_example =
    entry-assign_functions dedup_order true 4 f2_key (codes "f2") targets_2 [] self_2
      after_all_reads (codes "f3" ∷ []) (codes "f2") f2-last f2-plain f2-assigned_all_reads

-- `f3` stands twice in the list then.
f2-twice :
    entry (codes "f2") (augmented after_all_reads.fwrg_manager) ≡ codes "f3" ∷ codes "f3" ∷ []
unfolding program
f2-twice = refl

pub targets_2-counted : All (λ d. has_key d.0 self_2.assignment_times ≡ true) targets_2
unfolding program
targets_2-counted = (refl, (refl, tt))

pub not_reachable-counted :
    All
      (λ f. has_key f self_2.assignment_times ≡ true)
      self_2.fwrg_manager.update_fwrg.dk_not_reachable
unfolding program
not_reachable-counted = tt

assign_functions_total_example :
    is_some (assign_functions dedup_order true 4 f2_key targets_2 [] [] self_2) ≡ true
assign_functions_total_example =
    assign_functions_total dedup_order true 4 f2_key targets_2 [] [] self_2 targets_2-counted
      not_reachable-counted

lookup-assign_functions_example : lookup (codes "f3") after_f3.assignment_times ≡ (
    lookup (codes "f3") self_2.assignment_times >>= λ n.
    some (n + occurrences (codes "f3" ∷ []) (codes "f3")))
lookup-assign_functions_example =
    lookup-assign_functions dedup_order false 4 f2_key (codes "f2") targets_2 [] self_2 after_f3
      (codes "f3" ∷ []) (codes "f3") f2-last f2-plain f2-assigned

abbrev after_timeout : FunctionAssignment
after_timeout = record_assignment (codes "f1" ∷ codes "f3" ∷ []) self_2

f2-assigned_timeout :
    assign_functions_timeout_mine dedup_order 4 f2_key targets_2 (codes "f1" ∷ []) self_2
    ≡ some (codes "f1" ∷ codes "f3" ∷ [], after_timeout)
unfolding program
f2-assigned_timeout = refl

assign_functions_timeout_mine_iff_example :
    (contains (codes "f1" ∷ codes "f3" ∷ []) (codes "f3") ≡ true) ↔ (
      (contains (codes "f1" ∷ []) (codes "f3") ≡ true)
      ⊎ IsTimeoutChild 4 (get_ftn_seq_from_key_1 f2_key) (codes "f2") targets_2 self_2 (codes "f3"))
assign_functions_timeout_mine_iff_example =
    assign_functions_timeout_mine_iff dedup_order 4 f2_key (codes "f2") targets_2 (codes "f1" ∷ [])
      self_2 after_timeout (codes "f1" ∷ codes "f3" ∷ []) (codes "f3") f2-last f2-plain
      f2-assigned_timeout

-- The numbers below `k`, from the largest on.
unfoldable pub countdown : ℕ → List ℕ
countdown zero = []
countdown (suc k) = k ∷ countdown k

pub length-countdown : (k : ℕ) → length (countdown k) ≡ k
unfolding countdown
length-countdown zero = refl
length-countdown (suc k) = ap suc (length-countdown k)

contains-countdown : (k x : ℕ) → contains (countdown k) x ≡ ltb x k
unfolding countdown contains
contains-countdown zero x = ground arith
contains-countdown (suc k) x = ground (arith, contains-countdown k x)

pub countdown-Nodup : (k : ℕ) → Nodup (countdown k)
unfolding countdown
countdown-Nodup zero = tt
countdown-Nodup (suc k) = (ground (arith, contains-countdown k k), countdown-Nodup k)

abbrev pub at_most : ℕ → ℕ → ℕ
at_most n k = if leb k n then k else n

pub at_most-eq : (n k : ℕ) → k ≤ n → at_most n k ≡ k
at_most-eq n k h = ground arith

pub countdown-All : (n k : ℕ) → All (λ i. i < n) (countdown (at_most n k))
unfolding countdown
countdown-All n k =
    All-intro (λ i. i < n) (countdown (at_most n k))
      (λ i m. let small = contains-countdown (at_most n k) i in ground arith)

abbrev pub last_numbers : Draw
last_numbers = record {
  indices = λ n k. countdown (at_most n k);
  length-indices = λ n k h. length-countdown (at_most n k) ∙ at_most-eq n k h;
  indices-Nodup = λ n k. countdown-Nodup (at_most n k);
  indices-All = countdown-All;
}

select_functions_randomly_lem_example :
    (selected : List Name) × (select_functions_randomly last_numbers 3 self_2 ≡ some selected)
    × (length selected ≡ share 3 (length self_2.all_functions))
    × ((f : Name) → contains selected f ≡ true → contains self_2.all_functions f ≡ true)
select_functions_randomly_lem_example =
    select_functions_randomly_lem last_numbers 3 self_2 (omega arith)
