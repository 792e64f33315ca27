-- ===== src/Mine/Pickup/Highest.antt =====
-- The state that is picked up has the highest value, and no other state is lost.
use smart_executor.Prelude.{
  ◌>>=◌, bind_some, ◌==◌, filter_by, keys, ℕ, zero, suc, ◌+◌, ◌≤◌, ◌≡◌, refl, sym, ap, ◌∙◌, subst,
  inl, inr, some, List, [], ◌∷◌, arith, ==_iff, Bool-cases, length, get_elem?, All, All-map, nat_eq,
  list_eq, All-of_contains, All-intro, ◌<◌, true, is_some,
}
use mathlib.Core.Option.{some-injective}
use smart_executor.Keys.{Name}
use smart_executor.Mine.{Mine, insert_desc, sort_desc}
use smart_executor.Mine.Sorted.{IsFirst, contains-sort_desc, sort_desc-IsFirst, length-sort_desc}
use smart_executor.Mine.Pickup.Best.{WinsIn, or_next-WinsIn, break_a_tie-WinsIn, Sound}
use smart_executor.Assign.Times.{occurrences}
use smart_executor.Mine.Pickup.{
  choose_position, enumerate, break_a_tie, Scoring, Pairs, evaluate_state, pop_at, leaders,
  pickup_a_state, all_evaluated, state_value,
}

occurrences-insert_desc :
    (key : Name → ℕ) (x : Name) (xs : List Name) (j : Name)
    → occurrences (insert_desc key x xs) j ≡ occurrences (x ∷ xs) j
unfolding insert_desc
occurrences-insert_desc key x [] j = refl
occurrences-insert_desc key x (y ∷ ys) j = ground (arith, occurrences-insert_desc key x ys j)

occurrences-sort_desc :
    (key : Name → ℕ) (xs : List Name) (j : Name)
    → occurrences (sort_desc key xs) j ≡ occurrences xs j
unfolding sort_desc
occurrences-sort_desc key [] j = refl
occurrences-sort_desc key (x ∷ xs) j =
    occurrences-insert_desc key x (sort_desc key xs) j
    ∙ ground (arith, occurrences-sort_desc key xs j)

pop_at-get_elem? :
    (i : ℕ) (queue : List Name) (k key : Name) (rest : List Name)
    → get_elem? queue i ≡ some k
    → pop_at i queue ≡ some (key, rest)
    → (k ≡ key) × ((j : Name) → occurrences queue j ≡ occurrences (key ∷ rest) j)
unfolding pop_at
pop_at-get_elem? i [] k key rest e h = cc
pop_at-get_elem? zero (x ∷ queue) k key rest e h =
    let whole = some-injective _ _ h in
    (
      sym (some-injective x k e) ∙ ap (λ p. p.0) whole,
      λ j. ap (λ (p : Name × List Name). occurrences (p.0 ∷ p.1) j) whole,
    )
pop_at-get_elem? (suc i) (x ∷ queue) k key rest e h =
    let (found, more, done) = bind_some (pop_at i queue) _ _ h in
    let whole = some-injective _ _ done in
    let (same, count) = pop_at-get_elem? i queue k found.0 found.1 e more in
    (
      same ∙ ap (λ p. p.0) whole,
      λ j.
          let c = count j in
          let moved : occurrences (x ∷ queue) j ≡ occurrences (found.0 ∷ x ∷ found.1) j =
            ground arith in
          moved ∙ ap (λ (p : Name × List Name). occurrences (p.0 ∷ p.1) j) whole,
    )

-- The position of each pair holds its key.
enumerate-All :
    (whole : List Name) (idx : ℕ) (keys : List Name)
    → ((j : ℕ) → get_elem? whole (idx + j) ≡ get_elem? keys j)
    → All (λ p. get_elem? whole p.0 ≡ some p.1) (enumerate idx keys)
unfolding enumerate
enumerate-All whole idx [] h = tt
enumerate-All whole idx (key ∷ keys) h = (
  ap (get_elem? whole) (omega arith) ∙ h 0,
  enumerate-All whole (suc idx) keys (λ j. ap (get_elem? whole) (omega arith) ∙ h (suc j)),
)

module _ (P : ℕ × Name → Type 0) (score : Name → ℕ) (n : ℕ) where
  All-filter_good :
      (xs : Pairs)
      → All P xs
      → All (λ p. P p × (score p.1 ≡ n)) (filter_by (λ p. score p.1 == n) xs)
  unfolding filter_by
  All-filter_good [] h = tt
  All-filter_good (x ∷ xs) h = elim (Bool-cases (score x.1 == n)) [
    | inl good ↦ rw good ((h.0, (==_iff (score x.1) n).0 good), All-filter_good xs h.1)
    | inr bad ↦ rw bad (All-filter_good xs h.1)
  ]

pub zero_add : (j : ℕ) → 0 + j ≡ j
zero_add j = omega arith

-- The leading pairs have the score of the first one.
leaders-first :
    (P : ℕ × Name → Type 0) (score : Name → ℕ) (first : ℕ × Name) (pairs : Pairs)
    → All P (first ∷ pairs)
    → Sound (λ p. P p × (score p.1 ≡ score first.1)) (leaders score (first ∷ pairs))
unfolding leaders
leaders-first P score first pairs h =
    let candi = filter_by (λ p. score p.1 == score first.1) (first ∷ pairs) in
    let all = All-filter_good P score (score first.1) (first ∷ pairs) h in
    elim (Bool-cases (length candi == 1)) [
      | inl alone ↦ rw alone ((first.1, (h.0, refl)), all)
      | inr many ↦ rw many (tt, all)
    ]

first-All :
    (score : Name → ℕ) (queue : List Name) (first : Name) (others : List Name)
    → queue ≡ first ∷ others
    → IsFirst score queue
    → All (λ k. score k ≤ score first) queue
unfolding IsFirst
first-All score queue first others e top =
    let top' : IsFirst score (first ∷ others) = subst (IsFirst score) e top in
    let all : All (λ k. score k ≤ score first) (first ∷ others) = (omega arith, top') in
    subst (All (λ k. score k ≤ score first)) (sym e) all

module _ {World : Type 0} (scoring : Scoring) (self : Mine World) (targets : List Name) where
  abbrev value : Name → ℕ
  value = state_value scoring self targets

  pub chosen_first :
      (queue : List Name) (first : Name) (rest : List Name)
      → queue ≡ first ∷ rest
      → WinsIn
          (λ p. (get_elem? queue p.0 ≡ some p.1) × (value p.1 ≡ value first))
          (choose_position scoring self targets queue)
  unfolding choose_position enumerate
  chosen_first queue first rest e =
      let Q : ℕ × Name → Type 0 = λ p. get_elem? queue p.0 ≡ some p.1 in
      let P : ℕ × Name → Type 0 = λ p. Q p × (value p.1 ≡ value first) in
      let pairs : All Q (enumerate 0 (first ∷ rest)) =
        enumerate-All queue 0 (first ∷ rest)
          (λ j. ap (get_elem? queue) (zero_add j) ∙ ap (λ q. get_elem? q j) e) in
      let sound : Sound P (leaders value (enumerate 0 queue)) =
        subst (λ q. Sound P (leaders value (enumerate 0 q))) (sym e)
          (leaders-first Q value (0, first) (enumerate 1 rest) pairs) in
      or_next-WinsIn P (leaders value (enumerate 0 queue)) (break_a_tie scoring self targets) sound
        (λ candi all. break_a_tie-WinsIn P scoring self targets candi all)

  picked_from :
      (queue : List Name) (first : Name) (others : List Name) (key : Name) (rest : List Name)
      → queue ≡ first ∷ others
      → IsFirst value queue
      → (choose_position scoring self targets queue >>= λ win_idx. pop_at win_idx queue)
        ≡ some (key, rest)
      → ((j : Name) → occurrences queue j ≡ occurrences (key ∷ rest) j)
        × All (λ k. value k ≤ value key) queue
  picked_from queue first others key rest e top h =
      let (i, found, popped) = bind_some (choose_position scoring self targets queue) _ _ h in
      let win =
        subst (WinsIn (λ p. (get_elem? queue p.0 ≡ some p.1) × (value p.1 ≡ value first))) found
          (chosen_first queue first others e) in
      let (same, count) = pop_at-get_elem? i queue win.0 key rest win.1.0 popped in
      let equal : value key ≡ value first = ap value (sym same) ∙ win.1.1 in
      let all : All (λ k. value k ≤ value first) queue = first-All value queue first others e top in
      (count, All-map (λ k. value k ≤ value first) queue (λ k small. omega arith) all)

pub not_empty :
    {n : ℕ} (xs : List Name) → length xs ≡ suc n → (x : Name) × (rest : List Name) × (xs ≡ x ∷ rest)
not_empty [] h = absurd (omega arith)
not_empty (x ∷ xs) h = (x, xs, refl)

all_evaluated_elim :
    {World : Type 0} (scoring : Scoring) (self : Mine World) (targets queue : List Name)
    → all_evaluated scoring self targets queue ≡ true
    → All (λ k. is_some (evaluate_state scoring self targets k) ≡ true) queue
unfolding all_evaluated
all_evaluated_elim scoring self targets [] h = tt
all_evaluated_elim scoring self targets (key ∷ queue) h =
    (ground arith, all_evaluated_elim scoring self targets queue (ground arith))

-- What is picked up from a queue of two or more.
pub picked_evaluated :
    {World : Type 0} (scoring : Scoring) (self : Mine World) (targets : List Name) (a b : Name)
    (queue : List Name) (picked : Name × List Name)
    → pickup_a_state scoring self targets (a ∷ b ∷ queue) ≡ some picked
    → (all_evaluated scoring self targets (a ∷ b ∷ queue) ≡ true)
      × (let sorted = sort_desc (state_value scoring self targets) (a ∷ b ∷ queue) in
          (choose_position scoring self targets sorted >>= λ win_idx. pop_at win_idx sorted)
          ≡ some picked)
unfolding pickup_a_state
picked_evaluated scoring self targets a b queue picked h =
    elim (Bool-cases (all_evaluated scoring self targets (a ∷ b ∷ queue))) [
      | inl evaluated ↦ (evaluated, rw evaluated at h)
      | inr failed ↦ let none_picked = rw failed at h in cc
    ]

-- The state that is picked up has the highest value of all states in the queue, however a tie is
-- broken, and the queue that is left holds every other state as often as before. Where the queue has
-- more than one state, each of them has a value, since the storage of each is recorded.
pub pickup_a_state_lem :
    {World : Type 0} (scoring : Scoring) (self : Mine World) (targets queue : List Name)
    (key : Name) (rest : List Name)
    → pickup_a_state scoring self targets queue ≡ some (key, rest)
    → ((j : Name) → occurrences queue j ≡ occurrences (key ∷ rest) j)
      × All (λ k. state_value scoring self targets k ≤ state_value scoring self targets key) queue
      × (1 < length queue → All (λ k. is_some (evaluate_state scoring self targets k) ≡ true) queue)
unfolding pickup_a_state
pickup_a_state_lem scoring self targets [] key rest h = cc
pickup_a_state_lem scoring self targets (only ∷ []) key rest h =
    let whole = some-injective _ _ h in
    (
      λ j. ap (λ (p : Name × List Name). occurrences (p.0 ∷ p.1) j) whole,
      (
        subst (λ k. state_value scoring self targets only ≤ state_value scoring self targets k)
            (ap (λ p. p.0) whole) (omega arith),
        tt,
      ),
      λ two. absurd (omega arith),
    )
pickup_a_state_lem scoring self targets (a ∷ b ∷ queue) key rest h =
    let score = state_value scoring self targets in
    let sorted = sort_desc score (a ∷ b ∷ queue) in
    let (evaluated, chosen) = picked_evaluated scoring self targets a b queue (key, rest) h in
    let (first, others, e) = not_empty sorted (length-sort_desc score (a ∷ b ∷ queue)) in
    let (count, all) =
      picked_from scoring self targets sorted first others key rest e
        (sort_desc-IsFirst score (a ∷ b ∷ queue)) chosen in
    (
      λ j. sym (occurrences-sort_desc score (a ∷ b ∷ queue) j) ∙ count j,
      All-intro (λ k. score k ≤ score key) (a ∷ b ∷ queue)
          (λ k m.
            All-of_contains (λ x. score x ≤ score key) sorted k all
              (contains-sort_desc score (a ∷ b ∷ queue) k ∙ m)),
      λ two. all_evaluated_elim scoring self targets (a ∷ b ∷ queue) evaluated,
    )
