-- ===== src/Reach/Collect.antt =====
-- `get_targets_be_reached` lists the targets in reach, each once.
use smart_executor.Keys.{Name, name_iff}
use smart_executor.Reach.{
  SetOrder, collect_reached, collect_functions, collect_rounds, get_targets_be_reached,
}
use smart_executor.Reach.Within.{Within, here, step, Within-cases}
use mathlib.Core.List.{append_assoc, append-nil}
use smart_executor.Prelude.{
  ◌==◌, eq_refl, nat_eq, list_eq, contains-append, Nodup, Nodup-snoc, contains, ℕ, zero, suc, ◌≡◌,
  refl, sym, ap, ◌∙◌, subst, ◌↔◌, ◌⊎◌, inl, inr, true, false, ◌&&◌, ◌||◌, not, List, [], ◌∷◌, ◌++◌,
  arith, if◌then◌else◌, Bool-cases,
}

module _ (children : Name → List Name) where
  all_of : List Name → List Name
  all_of [] = []
  all_of (f ∷ functions) = children f ++ all_of functions

  all_of_sound :
      (functions : List Name) (c : Name)
      → contains (all_of functions) c ≡ true
      → (f : Name) × (contains functions f ≡ true) × (contains (children f) c ≡ true)
  unfolding all_of contains
  all_of_sound [] c m = absurd (ground arith)
  all_of_sound (f ∷ functions) c m = elim (Bool-cases (contains (children f) c)) [
    | inl edge ↦ (f, ground (arith, eq_refl f), edge)
    | inr no_edge ↦
        let split = sym (contains-append (children f) (all_of functions) c) ∙ m in
        let (g, m', edge) = all_of_sound functions c (ground arith) in (g, ground arith, edge)
  ]

  all_of_complete :
      (functions : List Name) (f c : Name)
      → contains functions f ≡ true
      → contains (children f) c ≡ true
      → contains (all_of functions) c ≡ true
  unfolding all_of contains
  all_of_complete [] f c m edge = absurd (ground arith)
  all_of_complete (g ∷ functions) f c m edge = elim (Bool-cases (g == f)) [
    | inl same ↦
        let edge' =
          subst (λ x. contains (children x) c ≡ true) (sym ((name_iff g f).0 same)) edge in
        contains-append (children g) (all_of functions) c ∙ ground arith
    | inr other ↦
        let rest = all_of_complete functions f c (ground arith) edge in
        contains-append (children g) (all_of functions) c ∙ ground arith
  ]

module _ (order : SetOrder) (children : Name → List Name) (targets : List Name) where
  contains-collect_reached :
      (cs reached : List Name) (t : Name)
      → contains (collect_reached order children targets cs reached) t
        ≡ contains reached t || contains targets t && contains cs t
  unfolding collect_reached contains
  contains-collect_reached [] reached t = ground arith
  contains-collect_reached (c ∷ cs) reached t =
      let next =
        if contains targets c && not (contains reached c) then reached ++ c ∷ [] else reached in
      contains-collect_reached cs next t
      ∙ ground (arith, contains-append reached (c ∷ []) t, name_iff c t)

  collect_reached-Nodup :
      (cs reached : List Name)
      → Nodup reached
      → Nodup (collect_reached order children targets cs reached)
  unfolding collect_reached
  collect_reached-Nodup [] reached u = u
  collect_reached-Nodup (c ∷ cs) reached u =
      elim (Bool-cases (contains targets c && not (contains reached c))) [
        | inl add ↦
            rw add
              (collect_reached-Nodup cs (reached ++ c ∷ []) (Nodup-snoc reached c u (ground arith)))
        | inr skip ↦ rw skip (collect_reached-Nodup cs reached u)
      ]

  contains-collect_functions :
      (functions reached all : List Name) (t : Name)
      → contains (collect_functions order children targets functions (reached, all)).0 t
        ≡ contains reached t || contains targets t && contains (all_of children functions) t
  unfolding collect_functions all_of contains
  contains-collect_functions [] reached all t = ground arith
  contains-collect_functions (f ∷ functions) reached all t =
      contains-collect_functions functions
        (collect_reached order children targets (children f) reached) (all ++ children f) t
      ∙ ground (
        arith,
        contains-collect_reached (children f) reached t,
        contains-append (children f) (all_of children functions) t,
      )

  collect_functions-all :
      (functions reached all : List Name)
      → (collect_functions order children targets functions (reached, all)).1
        ≡ all ++ all_of children functions
  unfolding collect_functions all_of
  collect_functions-all [] reached all = sym (append-nil all)
  collect_functions-all (f ∷ functions) reached all =
      collect_functions-all functions (collect_reached order children targets (children f) reached)
        (all ++ children f)
      ∙ append_assoc all (children f) (all_of children functions)

  collect_functions-Nodup :
      (functions reached all : List Name)
      → Nodup reached
      → Nodup (collect_functions order children targets functions (reached, all)).0
  unfolding collect_functions
  collect_functions-Nodup [] reached all u = u
  collect_functions-Nodup (f ∷ functions) reached all u =
      collect_functions-Nodup functions
        (collect_reached order children targets (children f) reached) (all ++ children f)
        (collect_reached-Nodup (children f) reached u)

  collect_rounds-Nodup :
      (n : ℕ) (functions reached : List Name)
      → Nodup reached
      → Nodup (collect_rounds order children targets n functions reached)
  unfolding collect_rounds
  collect_rounds-Nodup zero functions reached u = u
  collect_rounds-Nodup (suc n) functions reached u =
      collect_rounds-Nodup n _ _ (collect_functions-Nodup functions reached [] u)

  -- `t` is reached from one of the functions by at least one edge and at most `n`.
  abbrev FromSome : ℕ → List Name → Name → Type 0
  FromSome n functions t =
      (f : Name) × (contains functions f ≡ true)
      × (m : ℕ) × (n ≡ suc m)
      × (c : Name) × (contains (children f) c ≡ true)
      × Within children m c t

  -- The functions of the next round are the children of those of this one.
  next_functions :
      (functions reached : List Name) (c : Name)
      → contains
          (order.list_set (collect_functions order children targets functions (reached, [])).1)
          c
        ≡ contains (all_of children functions) c
  next_functions functions reached c =
      order.contains-list_set _ c
      ∙ ap (λ l. contains l c) (collect_functions-all functions reached [])

  collect_sound :
      (n : ℕ) (functions reached : List Name) (t : Name)
      → contains (collect_rounds order children targets n functions reached) t ≡ true
      → (contains reached t ≡ true) ⊎ ((contains targets t ≡ true) × FromSome n functions t)
  unfolding collect_rounds contains
  collect_sound zero functions reached t h = inl h
  collect_sound (suc n) functions reached t h =
      let found = collect_functions order children targets functions (reached, []) in
      elim (collect_sound n (order.list_set found.1) found.0 t h) [
        | inl now ↦
            let split = sym (contains-collect_functions functions reached [] t) ∙ now in
            elim (Bool-cases (contains reached t)) [
              | inl old ↦ inl old
              | inr new ↦
                  let (f, m, edge) = all_of_sound children functions t (ground arith) in
                  inr (ground arith, (f, m, n, refl, t, edge, here))
            ]
        | inr (good, (g, m, k, e, c, edge, w)) ↦
            let (f, m', edge') =
              all_of_sound children functions g (sym (next_functions functions reached g) ∙ m) in
            inr (
              good,
              (f, m', n, refl, g, edge', subst (λ i. Within children i g t) (sym e) (step edge w)),
            )
      ]

  collect_complete :
      (n : ℕ) (functions reached : List Name) (t : Name)
      → (contains reached t ≡ true) ⊎ ((contains targets t ≡ true) × FromSome n functions t)
      → contains (collect_rounds order children targets n functions reached) t ≡ true
  unfolding collect_rounds contains
  collect_complete zero functions reached t (inl h) = h
  collect_complete zero functions reached t (inr (good, (f, m, k, e, c, edge, w))) =
      absurd (omega arith)
  collect_complete (suc n) functions reached t (inl h) =
      let found = collect_functions order children targets functions (reached, []) in
      collect_complete n (order.list_set found.1) found.0 t
        (inl (contains-collect_functions functions reached [] t ∙ ground arith))
  collect_complete (suc n) functions reached t (inr (good, (f, m, k, e, c, edge, w))) =
      let found = collect_functions order children targets functions (reached, []) in
      let child = all_of_complete children functions f c m edge in
      collect_complete n (order.list_set found.1) found.0 t (elim (Within-cases w) [
        | inl same ↦
            let child' = subst (λ x. contains (all_of children functions) x ≡ true) same child in
            inl (contains-collect_functions functions reached [] t ∙ ground arith)
        | inr (k', e', g, edge', w') ↦
            inr
              (good, (c, next_functions functions reached c ∙ child, k', omega arith, g, edge', w'))
      ])

  abbrev start_list : Name → List Name
  start_list ftn = if contains targets ftn then ftn ∷ [] else []

  start_sound :
      (ftn t : Name) (n : ℕ)
      → contains (start_list ftn) t ≡ true
      → (contains targets t ≡ true) × Within children n ftn t
  unfolding contains
  start_sound ftn t n h = elim (Bool-cases (contains targets ftn)) [
    | inl target ↦
        let e = (name_iff ftn t).0 (ground arith) in
        (
          subst (λ x. contains targets x ≡ true) e target,
          subst (λ x. Within children n ftn x) e here,
        )
    | inr other ↦ absurd (ground arith)
  ]

  start_complete :
      (ftn t : Name) → contains targets t ≡ true → ftn ≡ t → contains (start_list ftn) t ≡ true
  unfolding contains
  start_complete ftn t good e =
      ground (arith, name_iff ftn t, subst (λ x. contains targets x ≡ true) (sym e) good)

  reached_sound :
      (ftn t : Name) (max_depth : ℕ)
      → contains (get_targets_be_reached order children targets ftn max_depth) t ≡ true
      → (contains targets t ≡ true) × Within children max_depth ftn t
  unfolding get_targets_be_reached contains
  reached_sound ftn t max_depth h = elim (collect_sound max_depth (ftn ∷ []) (start_list ftn) t h) [
    | inl m ↦ start_sound ftn t max_depth m
    | inr (good, (f, m, k, e, c, edge, w)) ↦
        let same = (name_iff ftn f).0 (ground arith) in
        let edge' = subst (λ x. contains (children x) c ≡ true) (sym same) edge in
        (good, subst (λ i. Within children i ftn t) (sym e) (step edge' w))
  ]

  reached_complete :
      (ftn t : Name) (max_depth : ℕ)
      → (contains targets t ≡ true) × Within children max_depth ftn t
      → contains (get_targets_be_reached order children targets ftn max_depth) t ≡ true
  unfolding get_targets_be_reached contains
  reached_complete ftn t max_depth (good, w) =
      collect_complete max_depth (ftn ∷ []) (start_list ftn) t (elim (Within-cases w) [
        | inl same ↦ inl (start_complete ftn t good same)
        | inr (k, e, g, edge, w') ↦
            inr (good, (ftn, ground (arith, eq_refl ftn), k, e, g, edge, w'))
      ])

  -- For any order in which Python lists a set: the list has exactly the targets that a path of at
  -- most `max_depth` edges leads to from the function.
  pub get_targets_be_reached_iff :
      (ftn t : Name) (max_depth : ℕ)
      → (contains (get_targets_be_reached order children targets ftn max_depth) t ≡ true)
        ↔ ((contains targets t ≡ true) × Within children max_depth ftn t)
  get_targets_be_reached_iff ftn t max_depth =
      (reached_sound ftn t max_depth, reached_complete ftn t max_depth)

  -- No target is listed twice.
  pub get_targets_be_reached-Nodup :
      (ftn : Name) (max_depth : ℕ)
      → Nodup (get_targets_be_reached order children targets ftn max_depth)
  unfolding get_targets_be_reached contains
  get_targets_be_reached-Nodup ftn max_depth =
      collect_rounds-Nodup max_depth (ftn ∷ []) _ (start (Bool-cases (contains targets ftn)))
    where
      start :
          (contains targets ftn ≡ true) ⊎ (contains targets ftn ≡ false)
          → Nodup (if contains targets ftn then ftn ∷ [] else [])
      start (inl h) = rw h (refl, tt)
      start (inr h) = rw h tt
