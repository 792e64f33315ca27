-- ===== src/Assign/Times.antt =====
-- The counters of assignments.
use smart_executor.Keys.{Name, name_iff}
use smart_executor.Assign.{FunctionAssignment, count_assignment, record_assignment}
use smart_executor.Prelude.{
  ◌>>=◌, ◌==◌, nat_eq, list_eq, Dict, lookup-insert, has_key-eq, lookup, insert, has_key, ℕ, suc,
  ◌+◌, ◌≡◌, ap, inl, inr, some, List, [], ◌∷◌, arith, if◌then◌else◌, Bool-cases, Option-cases,
}

-- How often the function stands in the list.
abbrev pub occurrences : List Name → Name → ℕ
occurrences [] f = 0
occurrences (g ∷ ftns) f = if g == f then suc (occurrences ftns f) else occurrences ftns f

pub lookup-count_assignment :
    (ftns : List Name) (times : Dict Name ℕ) (f : Name)
    → lookup f (count_assignment ftns times)
      ≡ (lookup f times >>= λ n. some (n + occurrences ftns f))
unfolding count_assignment lookup
lookup-count_assignment [] times f = elim (Option-cases (lookup f times)) [
  | inl e ↦ ground arith
  | inr (n, e) ↦ ground arith
]
lookup-count_assignment (g ∷ ftns) times f = elim (Option-cases (lookup g times)) [
  | inl e ↦ elim (Bool-cases (g == f)) [
    | inl same ↦
        rw (e, count_assignment)
          (ground (
            arith,
            lookup-count_assignment ftns times f,
            ap (λ x. lookup x times) ((name_iff g f).0 same),
          ))
    | inr other ↦ rw (e, count_assignment) (rw other (lookup-count_assignment ftns times f))
  ]
  | inr (n, e) ↦ elim (Bool-cases (g == f)) [
    | inl same ↦
        rw (e, count_assignment)
          (ground (
            arith,
            lookup-count_assignment ftns (insert g (n + 1) times) f,
            lookup-insert g f (n + 1) times,
            ap (λ x. lookup x times) ((name_iff g f).0 same),
          ))
    | inr other ↦
        rw (e, count_assignment)
          (ground (
            arith,
            lookup-count_assignment ftns (insert g (n + 1) times) f,
            lookup-insert g f (n + 1) times,
          ))
  ]
]

-- Recording a list of functions adds to each function's counter how often the list holds it, and
-- makes no counter for a function without one.
pub lookup-record_assignment :
    (assigned : List Name) (self : FunctionAssignment) (f : Name)
    → lookup f (record_assignment assigned self).assignment_times
      ≡ (lookup f self.assignment_times >>= λ n. some (n + occurrences assigned f))
unfolding record_assignment
lookup-record_assignment assigned self f = lookup-count_assignment assigned self.assignment_times f

-- The functions with a counter stay the same.
pub has_key-record_assignment :
    (assigned : List Name) (self : FunctionAssignment) (f : Name)
    → has_key f (record_assignment assigned self).assignment_times ≡ has_key f self.assignment_times
has_key-record_assignment assigned self f = ground (
  arith,
  has_key-eq f self.assignment_times,
  has_key-eq f (record_assignment assigned self).assignment_times,
  lookup-record_assignment assigned self f,
)
