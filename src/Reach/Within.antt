-- ===== src/Reach/Within.antt =====
-- Reachability by at most so many edges, the meaning of the bounded searches.
use smart_executor.Keys.{Name}
use smart_executor.Paths.Walks.{IsWalk}
use mathlib.Core.Option.{some-injective}
use smart_executor.Prelude.{
  nat_eq, list_eq, contains, ℕ, zero, suc, ◌≤◌, ◌≡◌, refl, subst, ◌⊎◌, inl, inr, true, some, List,
  [], ◌∷◌, arith, length, get_last?,
}

pub data Within (children : Name → List Name) : ℕ → Name → Name → Type 0 where
  here : {n : ℕ} {f : Name} → Within children n f f
  step :
      {n : ℕ} {f g t : Name}
      → contains (children f) g ≡ true
      → Within children n g t
      → Within children (suc n) f t

-- Some target is at most `n` edges away.
abbrev pub ReachesTarget : (Name → List Name) → List Name → ℕ → Name → Type 0
ReachesTarget children targets n f =
    (t : Name) × (contains targets t ≡ true) × Within children n f t

-- A walk reaches its last function by as many edges.
pub walk-Within :
    (children : Name → List Name) (n : ℕ) (f t : Name) (post : List Name)
    → IsWalk children (f ∷ post)
    → get_last? (f ∷ post) ≡ some t
    → length post ≤ n
    → Within children n f t
walk-Within children n f t [] w l h = subst (λ x. Within children n f x) (some-injective f t l) here
walk-Within children zero f t (g ∷ post) w l h = absurd (omega arith)
walk-Within children (suc n) f t (g ∷ post) w l h =
    step w.0 (walk-Within children n g t post w.1 l (omega arith))

-- The first edge of a path, if it has one.
pub Within-cases :
    {children : Name → List Name} {n : ℕ} {f t : Name}
    → Within children n f t
    → (f ≡ t)
      ⊎ ((m : ℕ) × (n ≡ suc m)
          × (g : Name) × (contains (children f) g ≡ true)
          × Within children m g t)
Within-cases here = inl refl
Within-cases (step {n = m} {g = g} edge w) = inr (m, refl, g, edge, w)
