-- ===== src/Mine/Filter.antt =====
-- What `filter_states` keeps.
pub mod Kept
pub mod Passed
use smart_executor.Prelude.{
  bind_some, ◌==◌, contains-append, contains, Dict, lookup, insert, keys, append_at, ◌≡◌, subst,
  inl, inr, Bool, false, ◌&&◌, ◌||◌, not, none, some, List, ◌∷◌, ◌++◌, arith, Bool-cases,
  Option-cases, nat_eq, list_eq, refl, ap, ◌∙◌, true,
}
use smart_executor.Keys.{name_iff, Name, get_key_1_prefix}
use smart_executor.Mine.{count_prefixes, is_fallback_run, []}
use mathlib.Core.Option.{some-injective}

-- The key is listed under the prefix.
unfoldable pub contains_group : Dict Name (List Name) → Name → Name → Bool
contains_group [] p k = false
contains_group ((q, keys) ∷ count) p k = q == p && contains keys k || contains_group count p k

contains_group-insert :
    (q k : Name) (old : List Name) (count : Dict Name (List Name)) (p j : Name)
    → lookup q count ≡ some old
    → contains_group (insert q (old ++ k ∷ []) count) p j
      ≡ contains_group count p j || q == p && k == j
unfolding contains_group insert lookup contains
contains_group-insert q k old [] p j h = absurd (ground arith)
contains_group-insert q k old ((r, keys) ∷ count) p j h = elim (Bool-cases (r == q)) [
  | inl same ↦
      let e = (name_iff r q).0 same in
      let e' : keys ≡ old = some-injective keys old (rw same at h) in
      rw same (
        subst
          (λ x.
            r == p && contains (x ++ k ∷ []) j || contains_group count p j
            ≡ (r == p && contains keys j || contains_group count p j) || q == p && k == j)
          e'
          (rw contains-append (
            subst
              (λ x.
                r == p && (contains keys j || contains (k ∷ []) j) || contains_group count p j
                ≡ (r == p && contains keys j || contains_group count p j) || x == p && k == j)
              e (ground arith))))
  | inr other ↦
      let h' : lookup q count ≡ some old = ground arith in
      ground (arith, contains_group-insert q k old count p j h')
]

contains_group-new :
    (q k : Name) (count : Dict Name (List Name)) (p j : Name)
    → lookup q count ≡ none
    → contains_group (insert q (k ∷ []) count) p j ≡ contains_group count p j || q == p && k == j
unfolding contains_group insert lookup contains
contains_group-new q k [] p j h = ground arith
contains_group-new q k ((r, keys) ∷ count) p j h = elim (Bool-cases (r == q)) [
  | inl same ↦ absurd (ground arith)
  | inr other ↦
      let h' : lookup q count ≡ none = ground arith in
      ground (arith, contains_group-new q k count p j h')
]

contains_group-append_at :
    (q k : Name) (count : Dict Name (List Name)) (p j : Name)
    → contains_group (append_at q k count) p j ≡ contains_group count p j || q == p && k == j
unfolding append_at
contains_group-append_at q k count p j = elim (Option-cases (lookup q count)) [
  | inl e ↦ rw (e, append_at) (contains_group-new q k count p j e)
  | inr (old, e) ↦ rw (e, append_at) (contains_group-insert q k old count p j e)
]

-- The key is in the queue with the prefix, and is not passed over.
abbrev pub grouped : List Name → Name → Name → Bool
grouped [] p k = false
grouped (key ∷ queue) p k =
    let rest = grouped queue p k in
    elim (get_key_1_prefix key) [
      | none ↦ rest
      | some q ↦ not (is_fallback_run q) && (q == p && key == k) || rest
    ]

or_assoc : (a b c : Bool) → (a || b) || c ≡ a || (b || c)
or_assoc true b c = refl
or_assoc false b c = refl

pub contains_group-count_prefixes :
    (queue : List Name) (count groups : Dict Name (List Name)) (p k : Name)
    → count_prefixes queue count ≡ some groups
    → contains_group groups p k ≡ contains_group count p k || grouped queue p k
unfolding count_prefixes
contains_group-count_prefixes [] count groups p k h =
    subst (λ g. contains_group g p k ≡ contains_group count p k || false)
      (some-injective count groups h) (ground arith)
contains_group-count_prefixes (key ∷ queue) count groups p k h =
    let (q, e, h') = bind_some (get_key_1_prefix key) _ _ h in
    let ih = contains_group-count_prefixes queue in
    elim (Bool-cases (is_fallback_run q)) [
      | inl run ↦
          let h2 : count_prefixes queue count ≡ some groups = rw run at h' in
          let g = ih count groups p k h2 in rw (e, grouped) (rw run g)
      | inr plain ↦
          let h2 : count_prefixes queue (append_at q key count) ≡ some groups = rw plain at h' in
          let g = ih (append_at q key count) groups p k h2 in
          let a = contains_group-append_at q key count p k in
          rw (e, grouped)
            (rw plain (
              g
              ∙ ap (λ b. b || grouped queue p k) a
              ∙ or_assoc (contains_group count p k) (q == p && key == k) (grouped queue p k)))
    ]
