-- ===== src/Assign/Left.antt =====
-- Which functions the counters leave to be assigned.
use mathlib.Core.Option.{some-injective}
use smart_executor.Paths.{Seq}
use smart_executor.Keys.{Name, name_iff}
use smart_executor.Assign.{
  Coverage, is_below, select_dk, select_not_reachable, append_missing, permit_once,
}
use smart_executor.Prelude.{
  ◌==◌, nat_eq, list_eq, contains-append, contains-filter_by, contains, Dict, has_key-eq, lookup,
  has_key, ℕ, ◌*◌, ◌≡◌, refl, subst, inl, inr, Bool, true, false, ◌&&◌, ◌||◌, not, none, some, List,
  [], ◌∷◌, ◌++◌, arith, ltb, leb, Bool-cases, Option-cases, is_some, length, drop_last, All,
}

-- A function with `n` assignments is left: below the limit, or below twice the limit while its
-- coverage is below 70%.
abbrev pub is_left : ℕ → ℕ → Coverage → Bool
is_left limit n cov = ltb n limit || ltb n (2 * limit) && is_below 70 cov

-- The function is listed with a coverage, and the counters leave it.
abbrev pub listed_left : Dict Name ℕ → ℕ → List (Name × Coverage) → Name → Bool
listed_left times limit [] f = false
listed_left times limit ((g, cov) ∷ dk_functions) f =
    let rest = listed_left times limit dk_functions f in
    elim (lookup g times) [ none ↦ rest | some n ↦ g == f && is_left limit n cov || rest ]

pub select_dk_lem :
    (times : Dict Name ℕ) (limit : ℕ) (dk_functions : List (Name × Coverage)) (left : List Name)
    → select_dk times limit dk_functions ≡ some left
    → (f : Name) → contains left f ≡ listed_left times limit dk_functions f
unfolding select_dk lookup contains
select_dk_lem times limit [] left h f =
    subst (λ l. contains l f ≡ false) (some-injective [] left h) refl
select_dk_lem times limit ((g, cov) ∷ dk_functions) left h f =
    elim (Option-cases (lookup g times)) [
      | inl e ↦ absurd (ground arith)
      | inr (n, e) ↦ elim (Option-cases (select_dk times limit dk_functions)) [
        | inl none_left ↦ absurd (ground arith)
        | inr (l, el) ↦
            let rest = select_dk_lem times limit dk_functions l el f in
            let test = ltb n limit || not (leb (2 * limit) n) && is_below 70 cov in
            elim (Bool-cases test) [
              | inl good ↦
                  let same : some (g ∷ l) ≡ some left = ground arith in
                  subst (λ x. contains x f ≡ listed_left times limit ((g, cov) ∷ dk_functions) f)
                    (some-injective (g ∷ l) left same) (rw (e, listed_left) (ground arith))
              | inr bad ↦
                  let same : some l ≡ some left = ground arith in
                  subst (λ x. contains x f ≡ listed_left times limit ((g, cov) ∷ dk_functions) f)
                    (some-injective l left same) (rw (e, listed_left) (ground arith))
            ]
      ]
    ]

-- The function is listed, and below the limit.
abbrev pub listed_below : Dict Name ℕ → ℕ → List Name → Name → Bool
listed_below times limit [] f = false
listed_below times limit (g ∷ ftns) f =
    let rest = listed_below times limit ftns f in
    elim (lookup g times) [ none ↦ rest | some n ↦ g == f && ltb n limit || rest ]

pub select_not_reachable_lem :
    (times : Dict Name ℕ) (limit : ℕ) (ftns left : List Name)
    → select_not_reachable times limit ftns ≡ some left
    → (f : Name) → contains left f ≡ listed_below times limit ftns f
unfolding select_not_reachable lookup contains
select_not_reachable_lem times limit [] left h f =
    subst (λ l. contains l f ≡ false) (some-injective [] left h) refl
select_not_reachable_lem times limit (g ∷ ftns) left h f = elim (Option-cases (lookup g times)) [
  | inl e ↦ absurd (ground arith)
  | inr (n, e) ↦ elim (Option-cases (select_not_reachable times limit ftns)) [
    | inl none_left ↦ absurd (ground arith)
    | inr (l, el) ↦
        let rest = select_not_reachable_lem times limit ftns l el f in
        let test = ltb n limit in
        elim (Bool-cases test) [
          | inl good ↦
              let same : some (g ∷ l) ≡ some left = ground arith in
              subst (λ x. contains x f ≡ listed_below times limit (g ∷ ftns) f)
                (some-injective (g ∷ l) left same) (rw (e, listed_below) (ground arith))
          | inr bad ↦
              let same : some l ≡ some left = ground arith in
              subst (λ x. contains x f ≡ listed_below times limit (g ∷ ftns) f)
                (some-injective l left same) (rw (e, listed_below) (ground arith))
        ]
  ]
]

-- Without a missing key there is a result.
pub select_dk-is_some :
    (times : Dict Name ℕ) (limit : ℕ) (dk_functions : List (Name × Coverage))
    → All (λ d. has_key d.0 times ≡ true) dk_functions
    → is_some (select_dk times limit dk_functions) ≡ true
unfolding select_dk lookup
select_dk-is_some times limit [] h = refl
select_dk-is_some times limit ((g, cov) ∷ dk_functions) h =
    ground (arith, has_key-eq g times, select_dk-is_some times limit dk_functions h.1)

pub select_not_reachable-is_some :
    (times : Dict Name ℕ) (limit : ℕ) (ftns : List Name)
    → All (λ f. has_key f times ≡ true) ftns
    → is_some (select_not_reachable times limit ftns) ≡ true
unfolding select_not_reachable lookup
select_not_reachable-is_some times limit [] h = refl
select_not_reachable-is_some times limit (g ∷ ftns) h =
    ground (arith, has_key-eq g times, select_not_reachable-is_some times limit ftns h.1)

pub append_missing_lem :
    (ftns children : List Name) (f : Name)
    → contains (append_missing ftns children) f ≡ contains children f || contains ftns f
unfolding append_missing contains
append_missing_lem [] children f = ground arith
append_missing_lem (g ∷ ftns) children f = ground (
  arith,
  append_missing_lem ftns children f,
  append_missing_lem ftns (children ++ g ∷ []) f,
  contains-append children (g ∷ []) f,
  name_iff g f,
)

-- The function stands in the sequence before its last place, in a sequence of two or more.
abbrev pub is_repeated : Seq → Name → Bool
is_repeated ftn_seq f = leb 2 (length ftn_seq) && contains (drop_last ftn_seq) f

pub permit_once_lem :
    (ftn_seq : Seq) (children : List Name) (f : Name)
    → contains (permit_once ftn_seq children) f ≡ contains children f && not (is_repeated ftn_seq f)
unfolding permit_once contains
permit_once_lem ftn_seq children f =
    ground (arith, contains-filter_by (λ c. not (contains (drop_last ftn_seq) c)) children f)
