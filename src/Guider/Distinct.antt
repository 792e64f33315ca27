-- ===== src/Guider/Distinct.antt =====
-- No state takes the key of another one.
use smart_executor.Prelude.{
  ◌==◌, Dict, insert, values, ℕ, ◌+◌, ◌<◌, ◌≡◌, refl, sym, ap, ◌∙◌, subst, inl, inr, false, Option,
  none, some, List, [], ◌∷◌, ◌++◌, arith, Bool-cases, Option-cases, All, All-append, All-map,
  nat_eq, list_eq,
}
use mathlib.Core.List.{append_assoc, append-nil}
use smart_executor.Paths.{Seq}
use smart_executor.Keys.RoundTrip.{get_key_1_injective, AreNames}
use smart_executor.Keys.{Name, get_key_1, name_iff}
use smart_executor.Guider.{key_seq, organize_states, organize_from}

module _ {V : Type 0} where
  -- The key is none of the dictionary's.
  abbrev IsNew : Name → Dict Name V → Type 0
  IsNew k d = All (λ e. e.0 == k ≡ false) d

  insert-IsNew : (k : Name) (v : V) (d : Dict Name V) → IsNew k d → insert k v d ≡ d ++ (k, v) ∷ []
  unfolding insert
  insert-IsNew k v [] new = refl
  insert-IsNew k v ((j, w) ∷ d) new = rw new.0 (ap (◌∷◌ (j, w)) (insert-IsNew k v d new.1))

  values-append : (d e : Dict Name V) → values (d ++ e) ≡ values d ++ values e
  unfolding values
  values-append [] e = refl
  values-append ((k, v) ∷ d) e = ap (◌∷◌ v) (values-append d e)

-- The key was made of a sequence of names and an index below `n`.
record IsKeyBelow (n : ℕ) (key : Name) : Type 0 where
  f : Name
  fs : List Name
  index : ℕ
  names : AreNames (f ∷ fs)
  made : key ≡ get_key_1 (f ∷ fs) index
  below : index < n

module _ {World : Type 0} where
  abbrev KeysBelow : ℕ → Dict Name (List World) → Type 0
  KeysBelow n d = All (λ e. IsKeyBelow n e.0) d

  fresh_key :
      (n : ℕ) (f : Name) (fs : List Name) (d : Dict Name (List World))
      → AreNames (f ∷ fs)
      → KeysBelow n d
      → IsNew (get_key_1 (f ∷ fs) n) d
  fresh_key n f fs d names below =
      All-map (λ e. IsKeyBelow n e.0) d
        (λ e k. elim (Bool-cases (e.0 == get_key_1 (f ∷ fs) n)) [
          | inl same ↦
              let equal = (name_iff e.0 (get_key_1 (f ∷ fs) n)).0 same in
              let both =
                get_key_1_injective k.f f k.fs fs k.index n k.names names (sym k.made ∙ equal) in
              let small = k.below in let at = both.1 in absurd (omega arith)
          | inr new ↦ new
        ])
        below

  later_keys : (n : ℕ) (d : Dict Name (List World)) → KeysBelow n d → KeysBelow (n + 1) d
  later_keys n d below =
      All-map (λ e. IsKeyBelow n e.0) d
        (λ e k.
          let small = k.below in
          record {
            f = k.f;
            fs = k.fs;
            index = k.index;
            names = k.names;
            made = k.made;
            below = omega arith;
          })
        below

module _ {World : Type 0} (ftn_seq_of : World → Option Seq) (limit : ℕ) where
  -- The state's key is made of names.
  abbrev pub IsNamed : World → Type 0
  IsNamed state = elim (key_seq ftn_seq_of limit state) [
    | none ↦ Unit
    | some seq ↦ AreNames (seq.0 ∷ seq.1)
  ]

  -- The states below the limit, each in a list of its own.
  abbrev pub kept_states : List World → List (List World)
  kept_states [] = []
  kept_states (state ∷ states) = elim (key_seq ftn_seq_of limit state) [
    | none ↦ kept_states states
    | some ftn_seq ↦ (state ∷ []) ∷ kept_states states
  ]

  organize_from-kept :
      (states : List World) (all : Dict Name (List World)) (n : ℕ)
      → All IsNamed states
      → KeysBelow n all
      → values (organize_from ftn_seq_of limit states all n).0 ≡ values all ++ kept_states states
  unfolding organize_from values
  organize_from-kept [] all n named below = sym (append-nil (values all))
  organize_from-kept (state ∷ states) all n named below =
      elim (Option-cases (key_seq ftn_seq_of limit state)) [
        | inl e ↦ rw (e, kept_states, organize_from) (organize_from-kept states all n named.1 below)
        | inr (seq, e) ↦
            let names : AreNames (seq.0 ∷ seq.1) = rw (e, IsNamed) at named.0 in
            let key = get_key_1 (seq.0 ∷ seq.1) n in
            let put = insert-IsNew key (state ∷ []) all (fresh_key n seq.0 seq.1 all names below) in
            let below' : KeysBelow (n + 1) (insert key (state ∷ []) all) =
              subst (KeysBelow (n + 1)) (sym put) (
                All-append _ all ((key, state ∷ []) ∷ []) (later_keys n all below) (
                  record {
                    f = seq.0;
                    fs = seq.1;
                    index = n;
                    names = names;
                    made = refl;
                    below = omega arith;
                  },
                  tt,
                )) in
            rw (e, kept_states, organize_from)
              (organize_from-kept states (insert key (state ∷ []) all) (n + 1) named.1 below'
                ∙ ap (λ d. values d ++ kept_states states) put
                ∙ ap (λ vs. vs ++ kept_states states) (values-append all ((key, state ∷ []) ∷ []))
                ∙ append_assoc (values all) ((state ∷ []) ∷ []) (kept_states states))
      ]

-- If the functions of every state's sequence are names without `#`, then `organize_states` keeps
-- every state whose sequence is below the limit, in the order of the states and each in a list of
-- its own: no state takes the key of another one.
pub values-organize_states :
    {World : Type 0} (ftn_seq_of : World → Option Seq) (limit : ℕ) (states : List World)
    (state_index : ℕ)
    → All (IsNamed ftn_seq_of limit) states
    → values (organize_states ftn_seq_of limit states state_index).0
      ≡ kept_states ftn_seq_of limit states
unfolding organize_states values
values-organize_states ftn_seq_of limit states state_index named =
    organize_from-kept ftn_seq_of limit states [] state_index named tt
