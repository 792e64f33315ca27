-- ===== src/Guider/Guided.antt =====
-- An iteration of the guided search with `DFS` or `BFS`: what the guider prepares for it.
use smart_executor.Prelude.{
  Nodup, Nodup-snoc, contains, All-insert, Dict, lookup, has_key, keys, values, ℕ, ◌≤◌, ◌<◌, ◌≡◌,
  refl, inl, inr, true, false, List, [], ◌∷◌, arith, leb, Bool-cases, is_some, length, All, All-map,
  nat_eq, list_eq, ◌==◌, All-pop, pop, sym, subst,
}
use smart_executor.Dispatcher.Modify.{WorldState}
use smart_executor.Strategy.Saved.{add_state-IsReady, IsReady, IsPush}
use smart_executor.Keys.{Name, get_ftn_seq_from_key_1, name_iff}
use smart_executor.Strategy.Takes.{Takes}
use smart_executor.Strategy.{Search, Answer, add_states, at_end, add_state, on_top, delete_state}
use smart_executor.Guider.Fresh.{KeyAt, KeyAt-apart, Rising, KeyAt-widen, ends, goes_on}

has_key-pop :
    {V : Type 0} (key k : Name) (d : Dict Name V)
    → key == k ≡ false
    → has_key k d ≡ true
    → has_key k (pop key d) ≡ true
unfolding has_key pop
has_key-pop key k [] other h = h
has_key-pop key k ((j, v) ∷ d) other h = elim (Bool-cases (j == key)) [
  | inl same ↦
      let equal = (name_iff j key).0 same in
      rw same (ground (arith, subst (λ i. i == k ≡ false) (sym equal) other))
  | inr another ↦ rw another (elim (Bool-cases (j == k)) [
    | inl here ↦ rw here refl
    | inr later ↦ rw later (has_key-pop key k d other (ground arith))
  ])
]

saved-pop :
    {V : Type 0} (key : Name) (pending : List Name) (d : Dict Name V)
    → contains pending key ≡ false
    → All (λ k. has_key k d ≡ true) pending
    → All (λ k. has_key k (pop key d) ≡ true) pending
unfolding contains
saved-pop key [] d new h = tt
saved-pop key (k ∷ pending) d new h = (
  has_key-pop key k d (ground (arith, new, name_iff k key, name_iff key k)) h.0,
  saved-pop key pending d (ground (arith, new)) h.1,
)

-- The contract is deployed in the state.
abbrev pub HasContract : ℕ → WorldState → Type 0
HasContract contract state = is_some (lookup contract state.accounts) ≡ true

module _ (limit contract : ℕ) where
  -- What holds between iterations, with `n` the next index of a key: the pending keys are saved,
  -- different and made before, and the saved states have the contract.
  pub record IsGuided (n : ℕ) (s : Search WorldState) : Type 0 where
    pub ready : IsReady limit s
    pub distinct : Nodup s.pending
    pub made : All (KeyAt 0 n) s.pending
    pub held : All (All (HasContract contract)) (values s.world_states)

  -- A way to put a new key among the pending ones.
  abbrev pub AddsNew : (Name → List Name → List Name) → Type 0
  AddsNew push =
      (key : Name) (keys : List Name)
      → Nodup keys
      → contains keys key ≡ false
      → Nodup (push key keys)

  not_pending :
      (low high : ℕ) (key : Name) (pending : List Name)
      → All (KeyAt 0 low) pending
      → KeyAt low high key
      → contains pending key ≡ false
  unfolding contains
  not_pending low high key [] h a = refl
  not_pending low high key (k ∷ pending) h a =
      rw (KeyAt-apart 0 low high k key h.0 a) (not_pending low high key pending h.1 a)

  add_state-IsGuided :
      (push : Name → List Name → List Name) (low mid : ℕ) (key : Name) (states : List WorldState)
      (s : Search WorldState)
      → IsPush push
      → AddsNew push
      → low ≤ mid
      → KeyAt low mid key
      → All (HasContract contract) states
      → IsGuided low s
      → IsGuided mid (add_state push limit key states s)
  unfolding add_state
  add_state-IsGuided push low mid key states s is adds le a have g =
      let wider =
        All-map (KeyAt 0 low) s.pending (λ k h. KeyAt-widen 0 low 0 mid k (omega arith) le h)
          g.made in
      let ready = add_state-IsReady limit push key states s is g.ready in
      elim (Bool-cases (leb limit (length (get_ftn_seq_from_key_1 key)))) [
        | inl long ↦
            rw long (record { ready = g.ready; distinct = g.distinct; made = wider; held = g.held })
        | inr short ↦ rw short (record {
          ready = rw (short, add_state) at ready;
          distinct = adds key s.pending g.distinct (not_pending low mid key s.pending g.made a);
          made =
              is (KeyAt 0 mid) key s.pending
                (KeyAt-widen low mid 0 mid key (omega arith) (omega arith) a) wider;
          held = All-insert (All (HasContract contract)) key states s.world_states have g.held;
        })
      ]

  pub add_states-IsGuided :
      (push : Name → List Name → List Name) (low high : ℕ) (d : Dict Name (List WorldState))
      (s : Search WorldState)
      → IsPush push
      → AddsNew push
      → Rising (HasContract contract) high low d
      → IsGuided low s
      → IsGuided high (add_states push limit d s)
  unfolding add_states
  add_states-IsGuided push low high [] s is adds (ends le) g = record {
    ready = g.ready;
    distinct = g.distinct;
    made =
        All-map (KeyAt 0 low) s.pending (λ k h. KeyAt-widen 0 low 0 high k (omega arith) le h)
          g.made;
    held = g.held;
  }
  add_states-IsGuided push low high ((key, states) ∷ d) s is adds (goes_on {mid = mid} a le have r)
        g =
      add_states-IsGuided push mid high d (add_state push limit key states s) is adds r
        (add_state-IsGuided push low mid key states s is adds le a have g)

  pub on_top-AddsNew : AddsNew on_top
  on_top-AddsNew key keys distinct new = (new, distinct)

  pub at_end-AddsNew : AddsNew at_end
  at_end-AddsNew key keys distinct new = Nodup-snoc keys key distinct new

  -- The chosen state leaves the pending ones.
  pub Takes-IsGuided :
      (n : ℕ) (s after : Search WorldState) (answer : Answer)
      → Takes s after answer
      → IsGuided n s
      → IsGuided n after
  Takes-IsGuided n s after answer t g = record {
    ready = record {
      saved = rw t.same_world (t.fewer (λ key. has_key key s.world_states ≡ true) g.ready.saved);
      short = t.fewer (λ key. length (get_ftn_seq_from_key_1 key) < limit) g.ready.short;
    };
    distinct = (t.distinct g.distinct).0;
    made = t.fewer (KeyAt 0 n) g.made;
    held = rw t.same_world g.held;
  }

  -- Its states are deleted.
  pub delete_state-IsGuided :
      (n : ℕ) (key : Name) (s : Search WorldState)
      → contains s.pending key ≡ false
      → IsGuided n s
      → IsGuided n (record s { world_states = delete_state key s.world_states })
  unfolding delete_state
  delete_state-IsGuided n key s new g = elim (Bool-cases (has_key key s.world_states)) [
    | inr missing ↦
        rw missing (record { ready = g.ready; distinct = g.distinct; made = g.made; held = g.held })
    | inl there ↦ rw there (record {
      ready = record {
        saved = saved-pop key s.pending s.world_states new g.ready.saved;
        short = g.ready.short;
      };
      distinct = g.distinct;
      made = g.made;
      held = All-pop (All (HasContract contract)) key s.world_states g.held;
    })
  ]
