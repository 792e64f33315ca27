-- ===== src/Reach/Decide.antt =====
-- `can_reach_targets` decides whether a target is in reach.
use smart_executor.Keys.{Name, name_iff}
use smart_executor.Reach.{SetOrder, scan_functions, reach_rounds, can_reach_targets}
use smart_executor.Reach.Within.{Within, here, step, ReachesTarget}
use smart_executor.Prelude.{
  ◌==◌, eq_refl, nat_eq, list_eq, contains-append, contains, filter_by, ℕ, zero, suc, ◌≡◌, sym, ap,
  ◌∙◌, subst, ◌↔◌, ◌⊎◌, inl, inr, Bool, true, false, none, some, List, [], ◌∷◌, ◌++◌, arith, ltb,
  Bool-cases, Option-cases, length,
}

-- A member that passes the test.
find_member :
    (p : Name → Bool) (xs : List Name)
    → ltb 0 (length (filter_by p xs)) ≡ true
    → (x : Name) × (contains xs x ≡ true) × (p x ≡ true)
unfolding filter_by contains
find_member p [] h = absurd (ground arith)
find_member p (x ∷ xs) h = elim (Bool-cases (p x)) [
  | inl good ↦ (x, ground (arith, eq_refl x), good)
  | inr bad ↦ let (y, m, good) = find_member p xs (rw bad at h) in (y, ground arith, good)
]

member_found :
    (p : Name → Bool) (xs : List Name) (x : Name)
    → contains xs x ≡ true
    → p x ≡ true
    → ltb 0 (length (filter_by p xs)) ≡ true
unfolding filter_by contains
member_found p [] x m good = absurd (ground arith)
member_found p (y ∷ xs) x m good = elim (Bool-cases (y == x)) [
  | inl same ↦ let e = (name_iff y x).0 same in rw (ap p e ∙ good) (ground arith)
  | inr other ↦
      let rest = member_found p xs x (ground arith) good in
      elim (Bool-cases (p y)) [ inl h ↦ rw h (ground arith) | inr h ↦ rw h rest ]
]

module _ (order : SetOrder) (children : Name → List Name) (targets : List Name) where
  scan_none :
      (functions acc : List Name)
      → scan_functions order children targets functions acc ≡ none
      → (f : Name) × (c : Name) × (contains functions f ≡ true)
        × (contains (children f) c ≡ true)
        × (contains targets c ≡ true)
  unfolding scan_functions contains
  scan_none [] acc h = cc
  scan_none (f ∷ functions) acc h =
      elim (Bool-cases (ltb 0 (length (filter_by (contains targets) (children f))))) [
        | inl hit ↦
            let (c, m, good) = find_member (contains targets) (children f) hit in
            (f, c, ground (arith, eq_refl f), m, good)
        | inr miss ↦
            let (g, c, m, e, good) = scan_none functions (acc ++ children f) (rw miss at h) in
            (g, c, ground arith, e, good)
      ]

  -- What the scan collects when no child is a target.
  record Collected (functions acc all : List Name) : Type 0 where
    no_target :
        (f c : Name)
        → contains functions f ≡ true
        → contains (children f) c ≡ true
        → contains targets c ≡ false
    collects :
        (f c : Name)
        → contains functions f ≡ true
        → contains (children f) c ≡ true
        → contains all c ≡ true
    keeps : (c : Name) → contains acc c ≡ true → contains all c ≡ true
    only :
        (c : Name)
        → contains all c ≡ true
        → (contains acc c ≡ true)
          ⊎ ((f : Name) × (contains functions f ≡ true) × (contains (children f) c ≡ true))

  scan_some :
      (functions acc all : List Name)
      → scan_functions order children targets functions acc ≡ some all
      → Collected functions acc all
  unfolding scan_functions contains
  scan_some [] acc all h = record {
    no_target = λ f c m. absurd (ground arith);
    collects = λ f c m. absurd (ground arith);
    keeps = λ c m. ground arith;
    only = λ c m. inl (ground arith);
  }
  scan_some (f ∷ functions) acc all h =
      elim (Bool-cases (ltb 0 (length (filter_by (contains targets) (children f))))) [
        | inl hit ↦ absurd (ground arith)
        | inr miss ↦
            let rest = scan_some functions (acc ++ children f) all (rw miss at h) in
            record {
              no_target = λ g c m e. elim (Bool-cases (f == g)) [
                | inl same ↦
                    let e' =
                      subst (λ x. contains (children x) c ≡ true) (sym ((name_iff f g).0 same)) e in
                    elim (Bool-cases (contains targets c)) [
                      | inl bad ↦
                          absurd
                            (ground (arith, member_found (contains targets) (children f) c e' bad))
                      | inr good ↦ good
                    ]
                | inr other ↦ rest.no_target g c (ground arith) e
              ];
              collects = λ g c m e. elim (Bool-cases (f == g)) [
                | inl same ↦
                    let e' =
                      subst (λ x. contains (children x) c ≡ true) (sym ((name_iff f g).0 same)) e in
                    rest.keeps c (rw contains-append (ground arith))
                | inr other ↦ rest.collects g c (ground arith) e
              ];
              keeps = λ c m. rest.keeps c (rw contains-append (ground arith));
              only = λ c m. elim (rest.only c m) [
                | inl old ↦ elim (Bool-cases (contains acc c)) [
                  | inl there ↦ inl there
                  | inr new ↦ inr (
                    f,
                    ground (arith, eq_refl f),
                    let split = sym (contains-append acc (children f) c) ∙ old in ground arith,
                  )
                ]
                | inr (g, m', e) ↦ inr (g, ground arith, e)
              ];
            }
      ]

  -- One more round.
  round_none :
      (n : ℕ) (functions : List Name)
      → scan_functions order children targets functions [] ≡ none
      → reach_rounds order children targets (suc n) functions ≡ true
  unfolding reach_rounds
  round_none n functions e = rw (e, reach_rounds)

  round_some :
      (n : ℕ) (functions all : List Name)
      → scan_functions order children targets functions [] ≡ some all
      → reach_rounds order children targets (suc n) functions
        ≡ reach_rounds order children targets n (order.list_set all)
  unfolding reach_rounds
  round_some n functions all e = rw (e, reach_rounds)

  abbrev FromSome : ℕ → List Name → Type 0
  FromSome n functions =
      (f : Name) × (c : Name) × (contains functions f ≡ true)
      × (contains (children f) c ≡ true)
      × ReachesTarget children targets n c

  -- What the next round finds is found one edge further away.
  one_further :
      (n : ℕ) (functions all : List Name)
      → scan_functions order children targets functions [] ≡ some all
      → FromSome n (order.list_set all)
      → FromSome (suc n) functions
  unfolding contains
  one_further n functions all e (g, c, m, edge, (t, good, w)) =
      elim ((scan_some functions [] all e).only g (sym (order.contains-list_set all g) ∙ m)) [
        | inl nowhere ↦ absurd (ground arith)
        | inr (f, m', edge') ↦ (f, g, m', edge', (t, good, step edge w))
      ]

  reach_sound :
      (n : ℕ) (functions : List Name)
      → reach_rounds order children targets (suc n) functions ≡ true
      → FromSome n functions
  unfolding reach_rounds
  reach_sound zero functions h =
      elim (Option-cases (scan_functions order children targets functions [])) [
        | inl e ↦
            let (f, c, m, edge, good) = scan_none functions [] e in (f, c, m, edge, (c, good, here))
        | inr (all, e) ↦ absurd (ground (arith, round_some zero functions all e))
      ]
  reach_sound (suc n) functions h =
      elim (Option-cases (scan_functions order children targets functions [])) [
        | inl e ↦
            let (f, c, m, edge, good) = scan_none functions [] e in (f, c, m, edge, (c, good, here))
        | inr (all, e) ↦
            one_further n functions all e
              (reach_sound n (order.list_set all) (sym (round_some (suc n) functions all e) ∙ h))
      ]

  reach_complete :
      (n : ℕ) (functions : List Name) (f c t : Name)
      → contains functions f ≡ true
      → contains (children f) c ≡ true
      → contains targets t ≡ true
      → Within children n c t
      → reach_rounds order children targets (suc n) functions ≡ true
  reach_complete n functions f c t m edge good here =
      elim (Option-cases (scan_functions order children targets functions [])) [
        | inl e ↦ round_none n functions e
        | inr (all, e) ↦
            absurd (ground (arith, (scan_some functions [] all e).no_target f c m edge))
      ]
  reach_complete (suc n) functions f c t m edge good (step {g = d} next w) =
      elim (Option-cases (scan_functions order children targets functions [])) [
        | inl e ↦ round_none (suc n) functions e
        | inr (all, e) ↦
            round_some (suc n) functions all e
            ∙ reach_complete n (order.list_set all) c d t
                (order.contains-list_set all c ∙ (scan_some functions [] all e).collects f c m edge)
                next good w
      ]

  from_start :
      (n : ℕ) (ftn : Name) → FromSome n (ftn ∷ []) → ReachesTarget children targets (suc n) ftn
  unfolding contains
  from_start n ftn (f, c, m, edge, (t, good, w)) =
      let e = (name_iff ftn f).0 (ground arith) in
      (t, good, step (subst (λ x. contains (children x) c ≡ true) (sym e) edge) w)

  search_sound :
      (max_depth : ℕ) (ftn : Name)
      → reach_rounds order children targets max_depth (ftn ∷ []) ≡ true
      → ReachesTarget children targets max_depth ftn
  unfolding reach_rounds
  search_sound zero ftn h = absurd (ground arith)
  search_sound (suc n) ftn h = from_start n ftn (reach_sound n (ftn ∷ []) h)

  search_complete :
      (max_depth : ℕ) (ftn t : Name)
      → contains targets ftn ≡ false
      → contains targets t ≡ true
      → Within children max_depth ftn t
      → reach_rounds order children targets max_depth (ftn ∷ []) ≡ true
  unfolding contains
  search_complete n ftn t miss good here = absurd (ground arith)
  search_complete (suc n) ftn t miss good (step {g = c} edge w) =
      reach_complete n (ftn ∷ []) ftn c t (ground (arith, eq_refl ftn)) edge good w

  -- For any order in which Python lists a set: the search with a depth limit answers `True` exactly
  -- when a path of at most so many edges leads from the function to one of the targets.
  pub can_reach_targets_iff :
      (ftn : Name) (max_depth : ℕ)
      → (can_reach_targets order children targets ftn max_depth ≡ true)
        ↔ ReachesTarget children targets max_depth ftn
  unfolding can_reach_targets contains
  can_reach_targets_iff ftn max_depth = elim (Bool-cases (contains targets ftn)) [
    | inl now ↦ (λ h. (ftn, now, here), λ found. rw now)
    | inr miss ↦ (
      λ h. search_sound max_depth ftn (rw miss at h),
      λ (t, good, w). rw miss (search_complete max_depth ftn t miss good w),
    )
  ]
