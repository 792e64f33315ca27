-- ===== src/Guider/Fresh.antt =====
-- The keys that `organize_states` makes: each one with a higher index than those before.
use smart_executor.Guider.{key_seq, organize_states, organize_from}
use smart_executor.Paths.{Seq}
use smart_executor.Guider.Distinct.{IsNamed}
use smart_executor.Prelude.{
  ◌==◌, Dict, insert, ℕ, ◌≤◌, ◌<◌, ◌≡◌, sym, ◌∙◌, inl, inr, false, List, [], ◌∷◌, arith, Bool-cases,
  All, nat_eq, list_eq, ◌+◌, refl, Option, Option-cases,
}
use smart_executor.Keys.RoundTrip.{AreNames, get_key_1_injective}
use smart_executor.Keys.{get_key_1, name_iff, Name}

-- The key was made of a sequence of names and an index from `low` on, below `high`.
pub record KeyAt (low high : ℕ) (key : Name) : Type 0 where
  pub f : Name
  pub fs : List Name
  pub index : ℕ
  pub names : AreNames (f ∷ fs)
  pub made : key ≡ get_key_1 (f ∷ fs) index
  pub above : low ≤ index
  pub below : index < high

-- A key of a lower range is another key.
pub KeyAt-apart :
    (low mid high : ℕ) (k j : Name) → KeyAt low mid k → KeyAt mid high j → k == j ≡ false
KeyAt-apart low mid high k j a b = elim (Bool-cases (k == j)) [
  | inr other ↦ other
  | inl same ↦
      let equal = (name_iff k j).0 same in
      let (_, index) =
        get_key_1_injective a.f b.f a.fs b.fs a.index b.index a.names b.names
          (sym a.made ∙ equal ∙ b.made) in
      absurd (omega (arith, index, a.below, b.above))
]

pub KeyAt-widen :
    (low high lower higher : ℕ) (k : Name)
    → lower ≤ low
    → high ≤ higher
    → KeyAt low high k
    → KeyAt lower higher k
KeyAt-widen low high lower higher k l h a = record {
  f = a.f;
  fs = a.fs;
  index = a.index;
  names = a.names;
  made = a.made;
  above = omega (arith, l, a.above);
  below = omega (arith, h, a.below);
}

-- Keys of rising indices, with states that all have `P`.
pub data Rising {World : Type 0} (P : World → Type 0) (high : ℕ)
    : ℕ → Dict Name (List World) → Type 0 where
  ends : {low : ℕ} → low ≤ high → Rising P high low []
  goes_on :
      {low mid : ℕ} {key : Name} {states : List World} {d : Dict Name (List World)}
      → KeyAt low mid key
      → low ≤ mid
      → All P states
      → Rising P high mid d
      → Rising P high low ((key, states) ∷ d)

module _ {World : Type 0} (P : World → Type 0) where
  Rising-le : (low high : ℕ) (d : Dict Name (List World)) → Rising P high low d → low ≤ high
  Rising-le low high [] (ends le) = le
  Rising-le low high ((key, states) ∷ d) (goes_on {mid = mid} a le s r) =
      omega (arith, le, Rising-le mid high d r)

  Rising-last :
      (low mid high : ℕ) (key : Name) (states : List World) (d : Dict Name (List World))
      → Rising P mid low d
      → KeyAt mid high key
      → mid ≤ high
      → All P states
      → Rising P high low (insert key states d)
  unfolding insert
  Rising-last low mid high key states [] (ends le) a le' s =
      goes_on {mid = high} (KeyAt-widen mid high low high key le (omega arith) a)
        (omega (arith, le, le')) s (ends (omega arith))
  Rising-last low mid high key states ((j, w) ∷ d) (goes_on {mid = next} b le t r) a le' s =
      let small = Rising-le next mid d r in
      rw (KeyAt-apart low mid high j key (KeyAt-widen low next low mid j (omega arith) small b) a)
        (goes_on b le t (Rising-last next mid high key states d r a le' s))

  module _ (ftn_seq_of : World → Option Seq) (limit : ℕ) where
    organize_from-Rising :
        (states : List World) (all : Dict Name (List World)) (low n : ℕ)
        → All (IsNamed ftn_seq_of limit) states
        → All P states
        → Rising P n low all
        → let (d, n') = organize_from ftn_seq_of limit states all n in (n ≤ n') × Rising P n' low d
    unfolding organize_from
    organize_from-Rising [] all low n named have r = (omega arith, r)
    organize_from-Rising (state ∷ states) all low n named have r =
        elim (Option-cases (key_seq ftn_seq_of limit state)) [
          | inl e ↦ rw (e, organize_from) (organize_from-Rising states all low n named.1 have.1 r)
          | inr (seq, e) ↦
              let names : AreNames (seq.0 ∷ seq.1) = rw (e, IsNamed) at named.0 in
              let key = get_key_1 (seq.0 ∷ seq.1) n in
              let made : KeyAt n (n + 1) key = record {
                f = seq.0;
                fs = seq.1;
                index = n;
                names = names;
                made = refl;
                above = omega arith;
                below = omega arith;
              } in
              let (le, r') =
                organize_from-Rising states (insert key (state ∷ []) all) low (n + 1) named.1 have.1
                  (Rising-last low n (n + 1) key (state ∷ []) all r made (omega arith)
                    (have.0, tt)) in
              rw (e, organize_from) (omega (arith, le), r')
        ]

    -- The keys of an iteration are new, and rise from `state_index` on.
    pub organize_states-Rising :
        (states : List World) (n : ℕ)
        → All (IsNamed ftn_seq_of limit) states
        → All P states
        → let (d, n') = organize_states ftn_seq_of limit states n in (n ≤ n') × Rising P n' n d
    unfolding organize_states
    organize_states-Rising states n named have =
        organize_from-Rising states [] n n named have (ends (omega arith))
