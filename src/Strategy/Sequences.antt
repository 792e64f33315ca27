-- ===== src/Strategy/Sequences.antt =====
-- Class `Seq` of fdg/control/ftn_search_strategy.py: given sequences are executed step by step.
pub mod Next
use smart_executor.Prelude.{
  ◌>>=◌, prepend, ◌==◌, list_beq, Dict, ℕ, Bool, true, false, ◌&&◌, Option, none, some, List, [],
  ◌∷◌, ◌++◌, ltb, if◌then◌else◌, codes, length, get_elem?, nat_eq, list_eq,
}
use smart_executor.Strategy.{save_states, Answer}
use smart_executor.Keys.{get_ftn_seq_from_key_1, Name}
use smart_executor.Paths.{Seq}

pub record Sequences (World : Type 0) : Type 0 where
  pub world_states : Dict Name (List World)
  pub queue : List Name
  pub sequences : List Seq

abbrev pub constructor_key : Name
constructor_key = codes "constructor"

-- `for i in range(len(seq)): if seq[i] != seq_[i]: …`
unfoldable pub is_prefix : Seq → Seq → Bool
unfolding list_beq
is_prefix [] seq_ = true
is_prefix (f ∷ seq) [] = false
is_prefix (f ∷ seq) (g ∷ seq_) = f == g && is_prefix seq seq_

-- `for seq_ in self.sequences`
unfoldable pub next_functions : Seq → List Seq → List Name
unfolding is_prefix
next_functions seq [] = []
next_functions seq (seq_ ∷ sequences) =
    let rest = next_functions seq sequences in
    if ltb (length seq) (length seq_) && is_prefix seq seq_
    then (elim (get_elem? seq_ (length seq)) [ none ↦ rest | some f ↦ f ∷ rest ])
    else rest

-- `[seq[0] for seq in self.sequences]`; an empty sequence raises `IndexError`.
unfoldable pub first_functions : List Seq → Option (List Name)
first_functions [] = some []
first_functions ([] ∷ sequences) = none
first_functions ((f ∷ seq) ∷ sequences) = prepend f (first_functions sequences)

abbrev pub flagged : Dict Name (List Name) → Bool → Answer
flagged states_functions deletable = record {
  states_functions = states_functions;
  deletable = some deletable;
}

module _ {World : Type 0} where
  -- `for key, states in states_dict.items()`
  unfoldable pub append_states : Dict Name (List World) → Sequences World → Sequences World
  unfolding save_states
  append_states [] self = self
  append_states ((key, states) ∷ states_dict) self = append_states states_dict (record self {
    world_states = save_states key states self.world_states;
    queue = self.queue ++ key ∷ [];
  })

  -- `while True`, by the keys of the queue
  unfoldable pub next_state : List Name → Sequences World → Option (Answer × Sequences World)
  unfolding first_functions next_functions get_ftn_seq_from_key_1 list_beq
  next_state [] self = some (flagged [] false, record self { queue = [] })
  next_state (state_key ∷ queue) self =
      if state_key == constructor_key
      then (elim self.sequences [
        | [] ↦ some (flagged [] true, record self { queue = queue })
        | seq ∷ sequences ↦ first_functions self.sequences >>= λ functions.
            some (flagged ((constructor_key, functions) ∷ []) true, record self { queue = queue })
      ])
      else (elim (next_functions (get_ftn_seq_from_key_1 state_key) self.sequences) [
        | [] ↦ next_state queue self
        | f ∷ fs ↦ some (flagged ((state_key, f ∷ fs) ∷ []) true, record self { queue = queue })
      ])

  unfoldable pub assign_states :
      Dict Name (List World) → Sequences World → Option (Answer × Sequences World)
  unfolding append_states next_state
  assign_states states_dict self =
      let saved = append_states states_dict self in next_state saved.queue saved

unfoldable pub termination_seq : ℕ → Bool
termination_seq states_num = states_num == 0
