-- ===== src/Mine/Pickup/Best.antt =====
-- The rules of the tie break choose among the pairs that they are given.
use smart_executor.Prelude.{
  ◌==◌, filter_by, ℕ, zero, suc, ◌≡◌, subst, inl, inr, Bool, Option, none, some, List, [], ◌∷◌, leb,
  Bool-cases, Option-cases, length, head?, get_elem?, All, nat_eq, list_eq,
}
use smart_executor.Keys.{Name}
use mathlib.Core.Option.{some-injective}
use smart_executor.Mine.Sorted.{All-sort_desc}
use smart_executor.Assign.Random.{Draw}
use smart_executor.Mine.{Mine, sort_desc}
use smart_executor.Mine.Pickup.{
  or_next, break_num_reached, Pairs, break_by_depth, insert_asc, Scoring, sort_asc, select_randomly,
  leaders, break_a_tie, unless_zero, break_by,
}

-- The position of a pair fulfils `P`.
module _ (P : ℕ × Name → Type 0) where
  abbrev pub WinsIn : Option ℕ → Type 0
  WinsIn none = Unit
  WinsIn (some i) = (key : Name) × P (i, key)

  abbrev pub Sound : Option ℕ × Pairs → Type 0
  Sound (win_idx, candi) = WinsIn win_idx × All P candi

  All-filter_by : (t : ℕ × Name → Bool) (xs : Pairs) → All P xs → All P (filter_by t xs)
  unfolding filter_by
  All-filter_by t [] h = tt
  All-filter_by t (x ∷ xs) h = elim (Bool-cases (t x)) [
    | inl good ↦ rw good (h.0, All-filter_by t xs h.1)
    | inr bad ↦ rw bad (All-filter_by t xs h.1)
  ]

  leaders-Sound : (score : Name → ℕ) (pairs : Pairs) → All P pairs → Sound (leaders score pairs)
  unfolding leaders
  leaders-Sound score [] h = (tt, tt)
  leaders-Sound score (first ∷ pairs) h =
      let t : ℕ × Name → Bool = λ p. score p.1 == score first.1 in
      let candi = filter_by t (first ∷ pairs) in
      let all = All-filter_by t (first ∷ pairs) h in
      elim (Bool-cases (length candi == 1)) [
        | inl alone ↦ rw alone ((first.1, h.0), all)
        | inr many ↦ rw many (tt, all)
      ]

  All-insert_asc :
      (score : Name → ℕ) (x : ℕ × Name) (xs : Pairs)
      → P x
      → All P xs
      → All P (insert_asc score x xs)
  unfolding insert_asc
  All-insert_asc score x [] p ps = (p, tt)
  All-insert_asc score x (y ∷ ys) p ps = elim (Bool-cases (leb (score x.1) (score y.1))) [
    | inl here ↦ rw here (p, ps)
    | inr later ↦ rw later (ps.0, All-insert_asc score x ys p ps.1)
  ]

  All-sort_asc : (score : Name → ℕ) (xs : Pairs) → All P xs → All P (sort_asc score xs)
  unfolding sort_asc
  All-sort_asc score [] ps = tt
  All-sort_asc score (x ∷ xs) ps =
      All-insert_asc score x (sort_asc score xs) ps.0 (All-sort_asc score xs ps.1)

  break_by-Sound : (score : Name → ℕ) (pairs : Pairs) → All P pairs → Sound (break_by score pairs)
  unfolding break_by
  break_by-Sound score pairs h =
      leaders-Sound score (sort_desc (λ p. score p.1) pairs)
        (All-sort_desc P (λ p. score p.1) pairs h)

  break_by_depth-Sound : (pairs : Pairs) → All P pairs → Sound (break_by_depth pairs)
  unfolding break_by_depth
  break_by_depth-Sound pairs h = leaders-Sound _ _ (All-sort_asc _ pairs h)

  unless_zero-Sound : (num : Name → ℕ) (pairs : Pairs) → All P pairs → Sound (unless_zero num pairs)
  unfolding unless_zero
  unless_zero-Sound num [] h = (tt, tt)
  unless_zero-Sound num (first ∷ pairs) h = elim (Bool-cases (num first.1 == 0)) [
    | inl none_reached ↦ rw none_reached (tt, h)
    | inr some_reached ↦ rw some_reached (leaders-Sound num (first ∷ pairs) h)
  ]

  break_num_reached-Sound :
      (num : Name → ℕ) (pairs : Pairs) → All P pairs → Sound (break_num_reached num pairs)
  unfolding break_num_reached
  break_num_reached-Sound num pairs h =
      unless_zero-Sound num (sort_desc (λ p. num p.1) pairs)
        (All-sort_desc P (λ p. num p.1) pairs h)

  get_elem?-All :
      (pairs : Pairs) (i : ℕ) (p : ℕ × Name) → All P pairs → get_elem? pairs i ≡ some p → P p
  get_elem?-All [] i p h e = cc
  get_elem?-All (x ∷ xs) zero p h e = subst P (some-injective x p e) h.0
  get_elem?-All (x ∷ xs) (suc i) p h e = get_elem?-All xs i p h.1 e

  select_randomly-WinsIn :
      (draw : Draw) (pairs : Pairs) → All P pairs → WinsIn (select_randomly draw pairs)
  unfolding select_randomly
  select_randomly-WinsIn draw pairs h =
      elim (Option-cases (head? (draw.indices (length pairs) 1))) [
        | inl e ↦ rw e tt
        | inr (i, e) ↦ elim (Option-cases (get_elem? pairs i)) [
          | inl e' ↦ rw (e, e') tt
          | inr (p, e') ↦ rw (e, e') (p.1, get_elem?-All pairs i p h e')
        ]
      ]

  pub or_next-WinsIn :
      (found : Option ℕ × Pairs) (next : Pairs → Option ℕ)
      → Sound found
      → ((candi : Pairs) → All P candi → WinsIn (next candi))
      → WinsIn (or_next found next)
  unfolding or_next
  or_next-WinsIn (none, candi) next h more = more candi h.1
  or_next-WinsIn (some i, candi) next h more = h.0

  pub break_a_tie-WinsIn :
      {World : Type 0} (scoring : Scoring) (self : Mine World) (targets : List Name) (pairs : Pairs)
      → All P pairs
      → WinsIn (break_a_tie scoring self targets pairs)
  unfolding break_a_tie
  break_a_tie-WinsIn scoring self targets pairs h =
      or_next-WinsIn _ _ (break_by-Sound _ pairs h) (λ c1 h1.
        or_next-WinsIn _ _ (break_by-Sound _ c1 h1) (λ c2 h2.
          or_next-WinsIn _ _ (break_by_depth-Sound c2 h2) (λ c3 h3.
            or_next-WinsIn _ _ (break_num_reached-Sound _ c3 h3)
              (λ c4 h4. select_randomly-WinsIn scoring.draw c4 h4))))
