-- ===== src/Guider.antt =====
-- Class `Guider` of fdg/control/guider.py: how the states of an iteration get their keys, and when
-- the search ends. `ftn_seq_of` is the function sequence that annotates a world state.
use smart_executor.Prelude.{
  Dict, insert, ℕ, ◌+◌, Option, none, some, List, [], ◌∷◌, leb, if◌then◌else◌, length, nat_eq,
  list_eq,
}
use smart_executor.Paths.{Seq}
use smart_executor.Mine.{constructor_name}
use smart_executor.Keys.{Name, get_key_1}
pub mod Distinct
pub mod Iterate
pub mod Fresh
pub mod Guided
pub mod Strategies
pub mod Prepared
pub mod Started
pub mod Runs
pub mod Tests

module _ {World : Type 0} (ftn_seq_of : World → Option Seq) (seq_len_limit : ℕ) where
  -- The sequence that a state's key is made of, which is not empty; `none` for a state at the
  -- limit.
  unfoldable pub key_seq : World → Option (Name × List Name)
  key_seq state = elim (ftn_seq_of state) [
    | none ↦ some (constructor_name, [])
    | some ftn_seq ↦ elim ftn_seq [
      | [] ↦ some (constructor_name, [])
      | f ∷ fs ↦ if leb seq_len_limit (length (f ∷ fs)) then none else some (f, fs)
    ]
  ]

  -- `for state in states`: the states by their keys, and `state_index`
  unfoldable pub organize_from :
      List World → Dict Name (List World) → ℕ → Dict Name (List World) × ℕ
  unfolding key_seq get_key_1 insert
  organize_from [] all_states state_index = (all_states, state_index)
  organize_from (state ∷ states) all_states state_index = elim (key_seq state) [
    | none ↦ organize_from states all_states state_index
    | some seq ↦
        organize_from states
          (insert (get_key_1 (seq.0 ∷ seq.1) state_index) (state ∷ []) all_states) (state_index + 1)
  ]

  unfoldable pub organize_states : List World → ℕ → Dict Name (List World) × ℕ
  unfolding organize_from
  organize_states states state_index = organize_from states [] state_index
