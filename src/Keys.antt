-- ===== src/Keys.antt =====
-- State keys: fdg/utils.py, `get_key` to `get_ftn_seq_from_key_1`. A text is the list of its code
-- points, a function name is a text, and a state key is the names of the state's function sequence
-- and the state's number, with `#` between them.
mod Decimal
mod Split
pub mod RoundTrip
pub mod Tests
use smart_executor.Prelude.{
  ℕ, ◌≡◌, List, ◌∷◌, ◌++◌, Option, none, some, true, contains, nat_eq, list_eq, list_beq_iff, ◌↔◌,
  drop_last, if◌then◌else◌, ◌==◌, take, [],
}
pub use Decimal.{decimal}
pub use Split.{split, rindex}

abbrev pub Name : Type 0
Name = List ℕ

pub name_iff : (f g : Name) → (f == g ≡ true) ↔ (f ≡ g)
name_iff f g = list_beq_iff f g

-- `#`
abbrev pub hash : ℕ
hash = 35

-- the loop of `get_key` and `get_key_1`: `key += "#" + ftn_seq[i]`
unfoldable pub join_from : Name → List Name → Name
join_from key [] = key
join_from key (ftn ∷ seq) = join_from (key ++ (hash ∷ ftn)) seq

unfoldable pub get_key : List Name → Name
unfolding join_from
get_key [] = []
get_key (ftn ∷ seq) = join_from ftn seq

unfoldable pub get_ftn_seq_from_key : Name → List Name
unfolding contains split
get_ftn_seq_from_key key = if contains key hash then split hash key else key ∷ []

unfoldable pub get_key_1 : List Name → ℕ → Name
unfolding join_from decimal
get_key_1 [] index = []
get_key_1 (ftn ∷ []) index = ftn ++ (hash ∷ decimal index)
get_key_1 (ftn ∷ next ∷ seq) index = join_from ftn (next ∷ seq) ++ (hash ∷ decimal index)

-- `none` is the ValueError of `rindex` on a key without `#`.
unfoldable pub get_key_1_prefix : Name → Option Name
unfolding rindex
get_key_1_prefix key = elim (rindex hash key) [ none ↦ none | some idx ↦ some (take idx key) ]

unfoldable pub get_ftn_seq_from_key_1 : Name → List Name
unfolding contains split
get_ftn_seq_from_key_1 key = if contains key hash then drop_last (split hash key) else key ∷ []
