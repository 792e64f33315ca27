-- ===== src/Mine/Filter/Kept.antt =====
-- Of each sequence that is not passed over a state is kept.
use smart_executor.Mine.Filter.Passed.{IsPassedOver, is_fallback_run_iff}
use smart_executor.Prelude.{
  bind_some, ◌==◌, eq_refl, contains-append, All-intro, contains, Dict, lookup, keys, ℕ, suc, ◌<◌,
  ◌≡◌, refl, sym, ap, ◌∙◌, subst, inl, inr, true, false, ◌&&◌, ◌||◌, not, some, List, [], ◌∷◌, ◌++◌,
  arith, leb, Bool-cases, Option-cases, length, All, All-append, nat_eq, list_eq,
}
use mathlib.Core.Option.{some-injective}
use smart_executor.Mine.Filter.{contains_group, contains_group-count_prefixes, grouped}
use smart_executor.Mine.Sorted.{length-sort_desc, All-sort_desc}
use smart_executor.Mine.{
  count_prefixes, two_list_equal, filter_groups, keep_different, filter_queue, is_fallback_run,
  sort_desc, filter_keys, recent_writes_of,
}
use smart_executor.Keys.{name_iff, get_key_1_prefix, Name}

module _ (P : Name → Type 0) where
  keep_different-All :
      (idx : ℕ) (cur_writes : List Name) (pairs : List (Name × List Name))
      → All (λ pr. P pr.0) pairs
      → All P (keep_different idx cur_writes pairs)
  unfolding keep_different
  keep_different-All idx cur_writes [] h = tt
  keep_different-All idx cur_writes ((key, recent) ∷ pairs) h =
      elim (Bool-cases (leb idx 2 || not (two_list_equal cur_writes recent))) [
        | inl keeps ↦ rw keeps (h.0, keep_different-All (suc idx) recent pairs h.1)
        | inr drops ↦ rw drops (keep_different-All (suc idx) cur_writes pairs h.1)
      ]

  recent_writes_of-All :
      (written : Dict Name (Dict ℕ (List Name))) (keys : List Name)
      (pairs : List (Name × List Name))
      → recent_writes_of written keys ≡ some pairs
      → All P keys
      → All (λ pr. P pr.0) pairs × (length pairs ≡ length keys)
  unfolding recent_writes_of
  recent_writes_of-All written [] pairs e h =
      subst (λ ps. All (λ pr. P pr.0) ps × (length ps ≡ 0)) (some-injective _ _ e) (tt, refl)
  recent_writes_of-All written (key ∷ keys) pairs e h =
      let (in_depth, found, e2) = bind_some (lookup key written) _ _ e in
      let (rest, e3, done) = bind_some (recent_writes_of written keys) _ _ e2 in
      let (ps, same) = recent_writes_of-All written keys rest e3 h.1 in
      subst (λ qs. All (λ pr. P pr.0) qs × (length qs ≡ suc (length keys)))
        (some-injective _ _ done) ((h.0, ps), ap suc same)

  keep_different_first :
      (pairs : List (Name × List Name)) → 0 < length pairs → 0 < length (keep_different 0 [] pairs)
  unfolding keep_different
  keep_different_first [] h = absurd (omega arith)
  keep_different_first ((key, recent) ∷ pairs) h = omega arith

  filter_keys-All :
      (written : Dict Name (Dict ℕ (List Name))) (keys kept : List Name)
      → filter_keys written keys ≡ some kept
      → All P keys
      → All P kept × (0 < length keys → 0 < length kept)
  unfolding filter_keys
  filter_keys-All written [] kept e h =
      subst (λ ks. All P ks × (0 < 0 → 0 < length ks)) (some-injective _ _ e)
        (tt, λ pos. absurd (omega arith))
  filter_keys-All written (key ∷ []) kept e h =
      subst (λ ks. All P ks × (0 < 1 → 0 < length ks)) (some-injective _ _ e)
        (h, λ pos. omega arith)
  filter_keys-All written (key ∷ next ∷ keys) kept e h =
      let size : Name × List Name → ℕ = λ p. length p.1 in
      let (pairs, found, done) = bind_some (recent_writes_of written (key ∷ next ∷ keys)) _ _ e in
      let (ps, same) = recent_writes_of-All written (key ∷ next ∷ keys) pairs found h in
      let sorted = All-sort_desc (λ pr. P pr.0) size pairs ps in
      let long = length-sort_desc size pairs in
      subst (λ ks. All P ks × (0 < suc (suc (length keys)) → 0 < length ks))
        (some-injective _ _ done)
        (
          keep_different-All 0 [] (sort_desc size pairs) sorted,
          λ pos. keep_different_first (sort_desc size pairs) (omega arith),
        )

filter_groups-All :
    (P : Name → Type 0) (written : Dict Name (Dict ℕ (List Name))) (groups : Dict Name (List Name))
    (kept : List Name)
    → filter_groups written groups ≡ some kept
    → ((p k : Name) → contains_group groups p k ≡ true → P k)
    → All P kept
unfolding filter_groups contains_group
filter_groups-All P written [] kept e h = subst (All P) (some-injective _ _ e) tt
filter_groups-All P written ((q, keys) ∷ groups) kept e h =
    let (ks, found, e2) = bind_some (filter_keys written keys) _ _ e in
    let (rest, more, done) = bind_some (filter_groups written groups) _ _ e2 in
    let here =
      filter_keys-All P written keys ks found
        (All-intro P keys (λ k m. h q k (ground (arith, eq_refl q)))) in
    subst (All P) (some-injective _ _ done) (
      All-append P ks rest here.0
        (filter_groups-All P written groups rest more (λ p k m. h p k (ground arith))))

first_of :
    (P : Name → Type 0) (ks : List Name)
    → 0 < length ks
    → All P ks
    → (j : Name) × (contains ks j ≡ true) × P j
unfolding contains
first_of P [] h ps = absurd (omega arith)
first_of P (k ∷ ks) h ps = (k, ground (arith, eq_refl k), ps.0)

contains-pos : (ks : List Name) (k : Name) → contains ks k ≡ true → 0 < length ks
unfolding contains
contains-pos [] k h = absurd (ground arith)
contains-pos (j ∷ ks) k h = omega arith

filter_groups-keeps :
    (written : Dict Name (Dict ℕ (List Name))) (groups : Dict Name (List Name)) (kept : List Name)
    (p k : Name)
    → filter_groups written groups ≡ some kept
    → contains_group groups p k ≡ true
    → (j : Name) × (contains kept j ≡ true) × (contains_group groups p j ≡ true)
unfolding filter_groups contains_group
filter_groups-keeps written [] kept p k e m = absurd (ground arith)
filter_groups-keeps written ((q, keys) ∷ groups) kept p k e m =
    let (ks, found, e2) = bind_some (filter_keys written keys) _ _ e in
    let (rest, more, done) = bind_some (filter_groups written groups) _ _ e2 in
    let whole : ks ++ rest ≡ kept = some-injective _ _ done in
    elim (Bool-cases (q == p && contains keys k)) [
      | inl now ↦
          let (all, pos) =
            filter_keys-All (λ j. contains keys j ≡ true) written keys ks found
              (All-intro (λ j. contains keys j ≡ true) keys (λ j m'. m')) in
          let (j, there, good) =
            first_of (λ j. contains keys j ≡ true) ks (pos (contains-pos keys k (ground arith)))
              all in
          (
            j,
            subst (λ l. contains l j ≡ true) whole (rw contains-append (ground arith)),
            ground arith,
          )
      | inr later ↦
          let (j, there, good) = filter_groups-keeps written groups rest p k more (ground arith) in
          (
            j,
            subst (λ l. contains l j ≡ true) whole (rw contains-append (ground arith)),
            ground arith,
          )
    ]

-- Reading of `grouped`.
grouped_elim :
    (queue : List Name) (p k : Name)
    → grouped queue p k ≡ true
    → (contains queue k ≡ true) × (get_key_1_prefix k ≡ some p) × (is_fallback_run p ≡ false)
unfolding contains
grouped_elim [] p k h = absurd (ground arith)
grouped_elim (key ∷ queue) p k h = elim (Option-cases (get_key_1_prefix key)) [
  | inl e ↦
      let (m, e', plain) = grouped_elim queue p k (rw (e, grouped) at h) in
      (ground arith, e', plain)
  | inr (q, e) ↦
      let h2 = rw (e, grouped) at h in
      elim (Bool-cases (not (is_fallback_run q) && (q == p && key == k))) [
        | inl now ↦
            let same : q ≡ p = (name_iff q p).0 (ground arith) in
            let same' : key ≡ k = (name_iff key k).0 (ground arith) in
            (
              ground arith,
              subst (λ x. get_key_1_prefix x ≡ some p) same' (e ∙ ap some same),
              subst (λ x. is_fallback_run x ≡ false) same (ground arith),
            )
        | inr later ↦
            let (m, e', plain) = grouped_elim queue p k (ground arith) in (ground arith, e', plain)
      ]
]

grouped_intro :
    (queue : List Name) (p k : Name)
    → contains queue k ≡ true
    → get_key_1_prefix k ≡ some p
    → is_fallback_run p ≡ false
    → grouped queue p k ≡ true
unfolding contains
grouped_intro [] p k m e plain = absurd (ground arith)
grouped_intro (key ∷ queue) p k m e plain = elim (Bool-cases (key == k)) [
  | inl same ↦
      let e' = subst (λ x. get_key_1_prefix x ≡ some p) (sym ((name_iff key k).0 same)) e in
      rw (e', grouped) (ground (arith, eq_refl p))
  | inr other ↦
      let rest = grouped_intro queue p k (ground arith) e plain in
      elim (Option-cases (get_key_1_prefix key)) [
        | inl e' ↦ rw (e', grouped) rest
        | inr (q, e') ↦ rw (e', grouped) (ground arith)
      ]
]

groups_of :
    (queue : List Name) (groups : Dict Name (List Name)) (p k : Name)
    → count_prefixes queue [] ≡ some groups
    → contains_group groups p k ≡ grouped queue p k
unfolding contains_group
groups_of queue groups p k h = contains_group-count_prefixes queue [] groups p k h

not_passed : (p : Name) → is_fallback_run p ≡ false → ¬ IsPassedOver p
not_passed p plain passed = let run = (is_fallback_run_iff p).1 passed in absurd (ground arith)

plain_of : (p : Name) → ¬ IsPassedOver p → is_fallback_run p ≡ false
plain_of p other = elim (Bool-cases (is_fallback_run p)) [
  | inl run ↦ absurd (other ((is_fallback_run_iff p).0 run))
  | inr plain ↦ plain
]

-- If no key has a missing prefix or missing writes (an exception), `filter_states` keeps only keys
-- that were in the queue and whose prefix is not passed over: passed over are the prefixes of several
-- functions whose text starts and ends with `fallback`, or ends with `fallback#fallback`. For every
-- key in the queue with another prefix, a key of the same prefix stays.
pub filter_queue_lem :
    (written : Dict Name (Dict ℕ (List Name))) (queue kept : List Name)
    → filter_queue written queue ≡ some kept
    → All
        (λ k.
          (contains queue k ≡ true)
          × (p : Name) × (get_key_1_prefix k ≡ some p)
          × (¬ IsPassedOver p))
        kept
      × ((k p : Name)
          → contains queue k ≡ true
          → get_key_1_prefix k ≡ some p
          → ¬ IsPassedOver p
          → (j : Name) × (contains kept j ≡ true) × (get_key_1_prefix j ≡ some p))
unfolding filter_queue
filter_queue_lem written queue kept h =
    let (groups, found, e) = bind_some (count_prefixes queue []) _ _ h in
    (
      filter_groups-All _ written groups kept e (λ p k m.
          let (there, prefix, plain) =
            grouped_elim queue p k (sym (groups_of queue groups p k found) ∙ m) in
          (there, p, prefix, not_passed p plain)),
      λ k p m prefix other.
          let (j, there, g) = filter_groups-keeps written groups kept p k e (
            groups_of queue groups p k found
            ∙ grouped_intro queue p k m prefix (plain_of p other)) in
          (j, there, (grouped_elim queue p j (sym (groups_of queue groups p j found) ∙ g)).1),
    )
