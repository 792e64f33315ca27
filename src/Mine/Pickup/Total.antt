-- ===== src/Mine/Pickup/Total.antt =====
-- A state is picked up from every queue that is not empty.
use smart_executor.Prelude.{
  ◌>>=◌, ◌==◌, filter_by, ℕ, zero, suc, ◌<◌, ◌≡◌, refl, ap, ◌∙◌, subst, inl, inr, Bool, true,
  Option, none, some, List, [], ◌∷◌, arith, ==_iff, Bool-cases, Option-cases, is_some, length,
  head?, get_elem?, All, nat_eq, list_eq, has_key-eq, lookup, has_key,
}
use smart_executor.Keys.{get_ftn_seq_from_key_1, Name}
use smart_executor.Mine.Pickup.Best.{WinsIn}
use smart_executor.Mine.Pickup.Highest.{not_empty, chosen_first}
use smart_executor.Assign.Random.{Draw}
use smart_executor.Mine.{Mine, sort_desc}
use smart_executor.Mine.Sorted.{length-sort_desc}
use smart_executor.Mine.Pickup.{
  break_a_tie, evaluate_state, select_randomly, break_num_reached, break_by, pickup_a_state,
  or_next, choose_position, Pairs, break_by_depth, insert_asc, leaders, pop_at, unless_zero,
  enumerate, Scoring, sort_asc, all_evaluated, state_value,
}

-- A rule decides, or leaves some pairs.
abbrev Decides : Option ℕ × Pairs → Type 0
Decides (some i, candi) = Unit
Decides (none, candi) = 0 < length candi

leaders-Decides :
    (score : Name → ℕ) (pairs : Pairs) → 0 < length pairs → Decides (leaders score pairs)
unfolding leaders filter_by
leaders-Decides score [] h = absurd (omega arith)
leaders-Decides score (first ∷ pairs) h =
    let t : ℕ × Name → Bool = λ p. score p.1 == score first.1 in
    let here : t first ≡ true = (==_iff (score first.1) (score first.1)).1 refl in
    let long : 0 < length (filter_by t (first ∷ pairs)) = rw here (omega arith) in
    elim (Bool-cases (length (filter_by t (first ∷ pairs)) == 1)) [
      | inl alone ↦ rw alone tt
      | inr many ↦ rw many long
    ]

break_by-Decides :
    (score : Name → ℕ) (pairs : Pairs) → 0 < length pairs → Decides (break_by score pairs)
unfolding break_by
break_by-Decides score pairs h =
    leaders-Decides score (sort_desc (λ p. score p.1) pairs)
      (omega (arith, length-sort_desc (λ (p : ℕ × Name). score p.1) pairs))

length-insert_asc :
    (score : Name → ℕ) (x : ℕ × Name) (xs : Pairs)
    → length (insert_asc score x xs) ≡ suc (length xs)
unfolding insert_asc
length-insert_asc score x [] = refl
length-insert_asc score x (y ∷ ys) = ground (arith, length-insert_asc score x ys)

length-sort_asc : (score : Name → ℕ) (xs : Pairs) → length (sort_asc score xs) ≡ length xs
unfolding sort_asc
length-sort_asc score [] = refl
length-sort_asc score (x ∷ xs) =
    length-insert_asc score x (sort_asc score xs) ∙ ap suc (length-sort_asc score xs)

break_by_depth-Decides : (pairs : Pairs) → 0 < length pairs → Decides (break_by_depth pairs)
unfolding break_by_depth
break_by_depth-Decides pairs h =
    let depth : Name → ℕ = λ key. length (get_ftn_seq_from_key_1 key) in
    leaders-Decides depth (sort_asc depth pairs) (omega (arith, length-sort_asc depth pairs))

unless_zero-Decides :
    (num : Name → ℕ) (pairs : Pairs) → 0 < length pairs → Decides (unless_zero num pairs)
unfolding unless_zero
unless_zero-Decides num [] h = absurd (omega arith)
unless_zero-Decides num (first ∷ pairs) h = elim (Bool-cases (num first.1 == 0)) [
  | inl none_reached ↦ rw none_reached h
  | inr some_reached ↦ rw some_reached (leaders-Decides num (first ∷ pairs) h)
]

break_num_reached-Decides :
    (num : Name → ℕ) (pairs : Pairs) → 0 < length pairs → Decides (break_num_reached num pairs)
unfolding break_num_reached
break_num_reached-Decides num pairs h =
    unless_zero-Decides num (sort_desc (λ p. num p.1) pairs)
      (omega (arith, length-sort_desc (λ (p : ℕ × Name). num p.1) pairs))

get_elem?-is_some : (pairs : Pairs) (i : ℕ) → i < length pairs → is_some (get_elem? pairs i) ≡ true
get_elem?-is_some [] i h = absurd (omega arith)
get_elem?-is_some (x ∷ xs) zero h = refl
get_elem?-is_some (x ∷ xs) (suc i) h = get_elem?-is_some xs i (omega arith)

drawn_one-is_some :
    (pairs : Pairs) (drawn : List ℕ)
    → length drawn ≡ 1
    → All (λ i. i < length pairs) drawn
    → is_some (head? drawn >>= λ i. get_elem? pairs i >>= λ p. some p.0) ≡ true
drawn_one-is_some pairs [] e small = absurd (omega arith)
drawn_one-is_some pairs (i ∷ drawn) e small = elim (Option-cases (get_elem? pairs i)) [
  | inl missing ↦ absurd (ground (arith, get_elem?-is_some pairs i small.0))
  | inr (p, found) ↦ rw found refl
]

select_randomly-is_some :
    (draw : Draw) (pairs : Pairs) → 0 < length pairs → is_some (select_randomly draw pairs) ≡ true
unfolding select_randomly
select_randomly-is_some draw pairs h =
    drawn_one-is_some pairs (draw.indices (length pairs) 1)
      (draw.length-indices (length pairs) 1 (omega arith)) (draw.indices-All (length pairs) 1)

or_next-is_some :
    (found : Option ℕ × Pairs) (next : Pairs → Option ℕ)
    → Decides found
    → ((candi : Pairs) → 0 < length candi → is_some (next candi) ≡ true)
    → is_some (or_next found next) ≡ true
unfolding or_next
or_next-is_some (none, candi) next h more = more candi h
or_next-is_some (some i, candi) next h more = refl

module _ {World : Type 0} (scoring : Scoring) (self : Mine World) (targets : List Name) where
  break_a_tie-is_some :
      (pairs : Pairs) → 0 < length pairs → is_some (break_a_tie scoring self targets pairs) ≡ true
  unfolding break_a_tie
  break_a_tie-is_some pairs h = or_next-is_some _ _ (break_by-Decides _ pairs h) (λ c1 h1.
      or_next-is_some _ _ (break_by-Decides _ c1 h1) (λ c2 h2.
        or_next-is_some _ _ (break_by_depth-Decides c2 h2) (λ c3 h3.
          or_next-is_some _ _ (break_num_reached-Decides _ c3 h3)
            (λ c4 h4. select_randomly-is_some scoring.draw c4 h4))))

  choose_position-is_some :
      (first : Name) (rest : List Name)
      → is_some (choose_position scoring self targets (first ∷ rest)) ≡ true
  unfolding choose_position enumerate
  choose_position-is_some first rest =
      or_next-is_some _ _
        (leaders-Decides (state_value scoring self targets) ((0, first) ∷ enumerate 1 rest)
          (omega arith))
        break_a_tie-is_some

pop_at-is_some :
    (i : ℕ) (queue : List Name) (k : Name)
    → get_elem? queue i ≡ some k
    → is_some (pop_at i queue) ≡ true
unfolding pop_at
pop_at-is_some i [] k e = cc
pop_at-is_some zero (x ∷ queue) k e = refl
pop_at-is_some (suc i) (x ∷ queue) k e = ground (arith, pop_at-is_some i queue k e)

module _ {World : Type 0} (scoring : Scoring) (self : Mine World) (targets : List Name) where
  position-is_some :
      (queue : List Name) (first : Name) (rest : List Name)
      → queue ≡ first ∷ rest
      → is_some (choose_position scoring self targets queue >>= λ win_idx. pop_at win_idx queue)
        ≡ true
  position-is_some queue first rest e =
      elim (Option-cases (choose_position scoring self targets queue)) [
        | inl missing ↦ absurd (
            ground (
              arith,
              choose_position-is_some scoring self targets first rest,
              ap (choose_position scoring self targets) e,
            ))
        | inr (i, found) ↦
            let win =
              subst
                (WinsIn (λ p.
                  (get_elem? queue p.0 ≡ some p.1)
                  × (state_value scoring self targets p.1
                      ≡ state_value scoring self targets first)))
                found (chosen_first scoring self targets queue first rest e) in
            rw found (pop_at-is_some i queue win.0 win.1.0)
      ]

  all_evaluated_intro :
      (queue : List Name)
      → All (λ k. has_key k self.state_storage ≡ true) queue
      → all_evaluated scoring self targets queue ≡ true
  unfolding all_evaluated evaluate_state
  all_evaluated_intro [] h = refl
  all_evaluated_intro (key ∷ queue) h = elim (Option-cases (lookup key self.state_storage)) [
    | inl missing ↦ absurd (ground (arith, has_key-eq key self.state_storage, h.0))
    | inr (slots, found) ↦ rw found (all_evaluated_intro queue h.1)
  ]

  -- A state is picked up from every queue that holds one, if the storage of each state in it is
  -- recorded.
  pub pickup_a_state_total :
      (key : Name) (queue : List Name)
      → All (λ k. has_key k self.state_storage ≡ true) (key ∷ queue)
      → is_some (pickup_a_state scoring self targets (key ∷ queue)) ≡ true
  unfolding pickup_a_state
  pickup_a_state_total key [] stored = refl
  pickup_a_state_total key (next ∷ queue) stored =
      let score = state_value scoring self targets in
      let sorted = sort_desc score (key ∷ next ∷ queue) in
      let (first, others, e) = not_empty sorted (length-sort_desc score (key ∷ next ∷ queue)) in
      rw (all_evaluated_intro (key ∷ next ∷ queue) stored) (position-is_some sorted first others e)
