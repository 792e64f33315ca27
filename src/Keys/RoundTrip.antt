-- ===== src/Keys/RoundTrip.antt =====
-- A state key gives back the function sequence, and the number, that it was made of.
use smart_executor.Keys.{
  Name, hash, join_from, get_key, get_ftn_seq_from_key, get_key_1, get_key_1_prefix,
  get_ftn_seq_from_key_1,
}
use smart_executor.Keys.Decimal.{decimal, decimal_injective, not-contains-decimal}
use smart_executor.Keys.Split.{
  split, split-append, split-eq-singleton, rindex-append, take-length, length-split_two,
}
use mathlib.Core.List.{append_assoc}
use mathlib.Core.Option.{some-injective}
use smart_executor.Prelude.{
  get_last?, get_last?-snoc, nat_eq, list_eq, contains-append, contains, ℕ, ◌≡◌, refl, sym, ap, ◌∙◌,
  true, false, some, List, [], ◌∷◌, ◌++◌, arith, get_last?, get_last?-snoc, get_last?-snoc,
  drop_last-snoc, ◌<◌, inl, inr, Bool-cases, is_some, length, drop_last,
}

-- No name of the sequence holds the separator.
abbrev pub AreNames : List Name → Type 0
AreNames [] = Unit
AreNames (ftn ∷ seq) = (contains ftn hash ≡ false) × AreNames seq

join_from-append :
    (pre key : Name) (seq : List Name) → join_from (pre ++ key) seq ≡ pre ++ join_from key seq
unfolding join_from
join_from-append pre key [] = refl
join_from-append pre key (ftn ∷ seq) =
    rw append_assoc (join_from-append pre (key ++ (hash ∷ ftn)) seq)

join_from-cons :
    (key ftn : Name) (seq : List Name)
    → join_from key (ftn ∷ seq) ≡ key ++ (hash ∷ join_from ftn seq)
unfolding join_from
join_from-cons key ftn seq =
    join_from-append key (hash ∷ ftn) seq
    ∙ ap (λ t. key ++ t) (join_from-append (hash ∷ []) ftn seq)

split-join_from :
    (key : Name) (seq : List Name) (tail : List ℕ)
    → contains key hash ≡ false
    → AreNames seq
    → contains tail hash ≡ false
    → split hash (join_from key seq ++ (hash ∷ tail)) ≡ key ∷ (seq ++ tail ∷ [])
unfolding join_from
split-join_from key [] tail hk hs ht =
    rw (split-append hash key tail hk, split-eq-singleton hash tail ht)
split-join_from key (ftn ∷ seq) tail hk hs ht = rw (
  join_from-cons key ftn seq,
  append_assoc,
  split-append hash key _ hk,
  split-join_from ftn seq tail hs.0 hs.1 ht,
)

split-join_from_end :
    (key : Name) (seq : List Name)
    → contains key hash ≡ false
    → AreNames seq
    → split hash (join_from key seq) ≡ key ∷ seq
unfolding join_from
split-join_from_end key [] hk hs = split-eq-singleton hash key hk
split-join_from_end key (ftn ∷ seq) hk hs =
    rw (
      join_from-cons key ftn seq,
      split-append hash key _ hk,
      split-join_from_end ftn seq hs.0 hs.1,
    )

get_key_1-eq :
    (ftn : Name) (seq : List Name) (index : ℕ)
    → get_key_1 (ftn ∷ seq) index ≡ join_from ftn seq ++ (hash ∷ decimal index)
unfolding get_key_1 join_from
get_key_1-eq ftn [] index = refl
get_key_1-eq ftn (next ∷ seq) index = refl

contains-key : (key tail : Name) → contains (key ++ (hash ∷ tail)) hash ≡ true
unfolding contains
contains-key key tail = rw contains-append (ground arith)

not-contains-hash-decimal : (index : ℕ) → contains (decimal index) hash ≡ false
not-contains-hash-decimal index = not-contains-decimal hash index (omega arith)

-- For a sequence of at least one function, whose names hold no `#`, the key of `get_key_1` is
-- split into that sequence again, whatever the number of the state.
pub get_ftn_seq_from_key_1-get_key_1 :
    (ftn : Name) (seq : List Name) (index : ℕ)
    → AreNames (ftn ∷ seq)
    → get_ftn_seq_from_key_1 (get_key_1 (ftn ∷ seq) index) ≡ ftn ∷ seq
unfolding get_ftn_seq_from_key_1
get_ftn_seq_from_key_1-get_key_1 ftn seq index h =
    rw
      (
        get_key_1-eq ftn seq index,
        contains-key (join_from ftn seq) (decimal index),
        split-join_from ftn seq (decimal index) h.0 h.1 (not-contains-hash-decimal index),
      )
      (drop_last-snoc (ftn ∷ seq) (decimal index))

prefix-append :
    (xs ys : Name) → contains ys hash ≡ false → get_key_1_prefix (xs ++ (hash ∷ ys)) ≡ some xs
unfolding get_key_1_prefix
prefix-append xs ys h =
    rw (rindex-append hash xs ys h, get_key_1_prefix) (ap some (take-length xs (hash ∷ ys)))

-- The prefix of a state's key is the key of its function sequence, without the number.
pub get_key_1_prefix-get_key_1 :
    (ftn : Name) (seq : List Name) (index : ℕ)
    → get_key_1_prefix (get_key_1 (ftn ∷ seq) index) ≡ some (get_key (ftn ∷ seq))
unfolding get_key
get_key_1_prefix-get_key_1 ftn seq index =
    rw (get_key_1-eq ftn seq index)
      (prefix-append (join_from ftn seq) (decimal index) (not-contains-hash-decimal index))

-- `get_ftn_seq_from_key` undoes `get_key` on one name or more, none of which holds `#`.
pub get_ftn_seq_from_key-get_key :
    (ftn : Name) (seq : List Name)
    → AreNames (ftn ∷ seq)
    → get_ftn_seq_from_key (get_key (ftn ∷ seq)) ≡ ftn ∷ seq
unfolding get_ftn_seq_from_key get_key join_from
get_ftn_seq_from_key-get_key ftn [] h = rw h.0
get_ftn_seq_from_key-get_key ftn (next ∷ seq) h =
    rw
      (
        join_from-cons ftn next seq,
        contains-key ftn (join_from next seq),
        ← join_from-cons ftn next seq,
      )
      (split-join_from_end ftn (next ∷ seq) h.0 h.1)

last_piece :
    (ftn : Name) (seq : List Name) (index : ℕ)
    → AreNames (ftn ∷ seq)
    → get_last? (split hash (get_key_1 (ftn ∷ seq) index)) ≡ some (decimal index)
last_piece ftn seq index h =
    rw
      (
        get_key_1-eq ftn seq index,
        split-join_from ftn seq (decimal index) h.0 h.1 (not-contains-hash-decimal index),
      )
      (get_last?-snoc (ftn ∷ seq) (decimal index))

-- Two states have the same key only if they have the same function sequence and number: the keys
-- of states with different numbers differ.
pub get_key_1_injective :
    (f g : Name) (fs gs : List Name) (i j : ℕ)
    → AreNames (f ∷ fs)
    → AreNames (g ∷ gs)
    → get_key_1 (f ∷ fs) i ≡ get_key_1 (g ∷ gs) j
    → (f ∷ fs ≡ g ∷ gs) × (i ≡ j)
get_key_1_injective f g fs gs i j hf hg h =
    (same, decimal_injective i j (some-injective _ _ number))
  where
    same : f ∷ fs ≡ g ∷ gs
    same =
        sym (get_ftn_seq_from_key_1-get_key_1 f fs i hf)
        ∙ ap get_ftn_seq_from_key_1 h
        ∙ get_ftn_seq_from_key_1-get_key_1 g gs j hg

    number : some (decimal i) ≡ some (decimal j)
    number =
        sym (last_piece f fs i hf) ∙ ap (λ k. get_last? (split hash k)) h ∙ last_piece g gs j hg

get_last?-is_some : (q : List Name) → 0 < length q → is_some (get_last? q) ≡ true
get_last?-is_some [] h = absurd (omega arith)
get_last?-is_some (a ∷ []) h = refl
get_last?-is_some (a ∷ b ∷ q) h = get_last?-is_some (b ∷ q) (omega arith)

length-drop_last : (q : List Name) → 1 < length q → 0 < length (drop_last q)
length-drop_last [] h = absurd (omega arith)
length-drop_last (a ∷ []) h = absurd (omega arith)
length-drop_last (a ∷ b ∷ q) h = omega arith

-- The sequence that is read from a key has a last function.
pub get_ftn_seq_from_key_1-is_some :
    (key : Name) → is_some (get_last? (get_ftn_seq_from_key_1 key)) ≡ true
unfolding get_ftn_seq_from_key_1
get_ftn_seq_from_key_1-is_some key = elim (Bool-cases (contains key hash)) [
  | inl there ↦
      let pieces = split hash key in
      rw there (
        get_last?-is_some (drop_last pieces)
          (length-drop_last pieces (length-split_two hash key there)))
  | inr missing ↦ rw missing refl
]
