-- ===== src/Prelude/Dicts.antt =====
-- Python's `dict`: an association list in the order of insertion. A write to a key that is there
-- keeps its place, and a new key goes to the end.
use Prim.Native.Nat.{suc}
use mathlib.Core.Path.{◌≡◌, refl, ap, subst}
use mathlib.Core.Logic.{inl, inr}
use mathlib.Core.Bool.{Bool, true, false}
use mathlib.Core.Option.{Option, none, some}
use mathlib.Core.List.{List, [], ◌∷◌, ◌++◌}
use native.Mathlib.Omega.{arith}
use smart_executor.Prelude.Tests.{if◌then◌else◌, Bool-cases, is_some}
use smart_executor.Prelude.Lists.{length, All}
use smart_executor.Prelude.Equality.{Comparable, ◌==◌, contains}

abbrev pub Dict {ℓ κ} : Type ℓ → Type κ → Type (ℓ ⊔ κ)
Dict K V = List (K × V)

module _ {ℓ κ} {K : Type ℓ} {V : Type κ} where
  unfoldable pub keys : Dict K V → List K
  keys [] = []
  keys ((k, v) ∷ d) = k ∷ keys d

  unfoldable pub values : Dict K V → List V
  values [] = []
  values ((k, v) ∷ d) = v ∷ values d

module _ {ℓ κ} {K : Type ℓ} {V : Type κ} ⦃e : Comparable K⦄ where
  unfoldable pub lookup : K → Dict K V → Option V
  lookup k [] = none
  lookup k ((j, v) ∷ d) = if j == k then some v else lookup k d

  -- `k in d.keys()`
  unfoldable pub has_key : K → Dict K V → Bool
  has_key k [] = false
  has_key k ((j, v) ∷ d) = if j == k then true else has_key k d

  -- `d[k] = v`
  unfoldable pub insert : K → V → Dict K V → Dict K V
  insert k v [] = (k, v) ∷ []
  insert k v ((j, w) ∷ d) = if j == k then (j, v) ∷ d else (j, w) ∷ insert k v d

  -- `d.pop(k)` where `k` is there
  unfoldable pub pop : K → Dict K V → Dict K V
  pop k [] = []
  pop k ((j, v) ∷ d) = if j == k then d else (j, v) ∷ pop k d

  pub lookup-insert :
      (k j : K) (v : V) (d : Dict K V)
      → lookup j (insert k v d) ≡ (if k == j then some v else lookup j d)
  unfolding lookup insert
  lookup-insert k j v [] = refl
  lookup-insert k j v ((i, w) ∷ d) =
      ground (arith, e.same_iff k j, e.same_iff i k, e.same_iff i j, lookup-insert k j v d)

module _ {ℓ κ} {K : Type ℓ} {V : Type κ} ⦃e : Comparable K⦄ where
  pub has_key-eq : (k : K) (d : Dict K V) → has_key k d ≡ is_some (lookup k d)
  unfolding has_key lookup
  has_key-eq k [] = refl
  has_key-eq k ((j, v) ∷ d) = ground (arith, has_key-eq k d)

  pub contains-keys : (k : K) (d : Dict K V) → contains (keys d) k ≡ is_some (lookup k d)
  unfolding contains keys lookup
  contains-keys k [] = refl
  contains-keys k ((j, v) ∷ d) = ground (arith, contains-keys k d)

  -- The keys of a `dict` are different.
  abbrev pub IsDict : Dict K V → Type 0
  IsDict [] = Unit
  IsDict ((k, v) ∷ d) = (is_some (lookup k d) ≡ false) × IsDict d

  pub insert-IsDict : (k : K) (v : V) (d : Dict K V) → IsDict d → IsDict (insert k v d)
  unfolding insert lookup
  insert-IsDict k v [] h = (refl, tt)
  insert-IsDict k v ((j, w) ∷ d) h = elim (Bool-cases (j == k)) [
    | inl same ↦ rw same h
    | inr new ↦
        let ih = insert-IsDict k v d h.1 in
        rw new (ground (arith, lookup-insert k j v d, e.same_iff k j, e.same_iff j k), ih)
  ]

module _ {ℓ κ} {K : Type ℓ} {V : Type κ} ⦃e : Comparable K⦄ where
  -- The list at a key, empty where the key is missing.
  abbrev pub entry : K → Dict K (List V) → List V
  entry k d = elim (lookup k d) [ none ↦ [] | some vs ↦ vs ]

  pub entry-cons :
      (k j : K) (vs : List V) (d : Dict K (List V))
      → entry j ((k, vs) ∷ d) ≡ (if k == j then vs else entry j d)
  unfolding lookup
  entry-cons k j vs d = ground arith

  pub entry-eq-nil : (k : K) (d : Dict K (List V)) → is_some (lookup k d) ≡ false → entry k d ≡ []
  entry-eq-nil k d h = ground arith

  pub entry-insert :
      (k j : K) (vs : List V) (d : Dict K (List V))
      → entry j (insert k vs d) ≡ (if k == j then vs else entry j d)
  entry-insert k j vs d = ground (arith, lookup-insert k j vs d)

-- `d[k] = [v]` for a new key, and `d[k] += [v]` else
unfoldable pub append_at {ℓ κ} :
    {K : Type ℓ} {V : Type κ} ⦃e : Comparable K⦄ → K → V → Dict K (List V) → Dict K (List V)
append_at k v d = elim (lookup k d) [
  | none ↦ insert k (v ∷ []) d
  | some vs ↦ insert k (vs ++ v ∷ []) d
]

module _ {ℓ κ} {K : Type ℓ} {V : Type κ} ⦃e : Comparable K⦄ where
  pub length-insert-new :
      (k : K) (v : V) (d : Dict K V) → lookup k d ≡ none → length (insert k v d) ≡ suc (length d)
  unfolding insert lookup
  length-insert-new k v [] h = refl
  length-insert-new k v ((j, w) ∷ d) h = elim (Bool-cases (j == k)) [
    | inl same ↦ absurd (ground arith)
    | inr other ↦ rw other (ap suc (length-insert-new k v d (ground arith)))
  ]

  pub length-insert-old :
      (k : K) (v w : V) (d : Dict K V) → lookup k d ≡ some w → length (insert k v d) ≡ length d
  unfolding insert lookup
  length-insert-old k v w [] h = cc
  length-insert-old k v w ((j, u) ∷ d) h = elim (Bool-cases (j == k)) [
    | inl same ↦ rw same refl
    | inr other ↦ rw other (ap suc (length-insert-old k v w d (ground arith)))
  ]

module _ {ℓ κ μ} {K : Type ℓ} {V : Type κ} ⦃e : Comparable K⦄ (Q : V → Type μ) where
  pub All-insert :
      (k : K) (v : V) (d : Dict K V) → Q v → All Q (values d) → All Q (values (insert k v d))
  unfolding values insert
  All-insert k v [] hv h = (hv, tt)
  All-insert k v ((j, w) ∷ d) hv h = elim (Bool-cases (j == k)) [
    | inl same ↦ rw same (hv, h.1)
    | inr other ↦ rw other (h.0, All-insert k v d hv h.1)
  ]

  pub All-lookup : (k : K) (v : V) (d : Dict K V) → All Q (values d) → lookup k d ≡ some v → Q v
  unfolding values lookup
  All-lookup k v [] h e = cc
  All-lookup k v ((j, w) ∷ d) h e = elim (Bool-cases (j == k)) [
    | inl same ↦ subst Q (ground arith) h.0
    | inr other ↦ All-lookup k v d h.1 (ground arith)
  ]

  pub All-pop : (k : K) (d : Dict K V) → All Q (values d) → All Q (values (pop k d))
  unfolding values pop
  All-pop k [] h = tt
  All-pop k ((j, w) ∷ d) h = elim (Bool-cases (j == k)) [
    | inl same ↦ rw same h.1
    | inr other ↦ rw other (h.0, All-pop k d h.1)
  ]
