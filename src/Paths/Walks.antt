-- ===== src/Paths/Walks.antt =====
-- Walks in a graph, and the shape of the paths that `derive_paths` makes: a start function, once or
-- twice, and then functions that all differ.
use smart_executor.Keys.{Name, name_iff}
use smart_executor.Paths.{Seq, is_self_dependency}
use smart_executor.Prelude.{
  ◌==◌, nat_eq, list_eq, Nodup, contains, ℕ, ◌+◌, ◌≤◌, ◌≡◌, refl, true, false, some, List, [], ◌∷◌,
  ◌++◌, arith, if◌then◌else◌, length, head?, get_last?,
}

-- The path with a self dependency at its start taken once.
abbrev pub core : Seq → Seq
core [] = []
core (a ∷ []) = a ∷ []
core (a ∷ b ∷ path) = if a == b then b ∷ path else a ∷ b ∷ path

-- Each function of the sequence is a child of the one before it.
abbrev pub IsWalk : (Name → List Name) → Seq → Type 0
IsWalk children [] = Unit
IsWalk children (a ∷ []) = Unit
IsWalk children (a ∷ b ∷ path) = (contains (children a) b ≡ true) × IsWalk children (b ∷ path)

pub IsWalk-snoc :
    (children : Name → List Name) (path : Seq) {last : Name} (child : Name)
    → IsWalk children path
    → get_last? path ≡ some last
    → contains (children last) child ≡ true
    → IsWalk children (path ++ child ∷ [])
IsWalk-snoc children [] child h l c = tt
IsWalk-snoc children (a ∷ []) child h l c = (ground arith, tt)
IsWalk-snoc children (a ∷ b ∷ path) child h l c =
    (h.0, IsWalk-snoc children (b ∷ path) child h.1 l c)

pub core-snoc :
    (path : Seq) (child : Name)
    → contains path child ≡ false
    → core (path ++ child ∷ []) ≡ core path ++ child ∷ []
unfolding contains
core-snoc [] child new = refl
core-snoc (a ∷ []) child new = ground arith
core-snoc (a ∷ b ∷ path) child new = ground arith

pub contains-core : (path : Seq) (ftn : Name) → contains (core path) ftn ≡ contains path ftn
unfolding contains
contains-core [] ftn = refl
contains-core (a ∷ []) ftn = refl
contains-core (a ∷ b ∷ path) ftn = ground (arith, name_iff a b)

pub self_dependency_path :
    (path : Seq) (child : Name) → is_self_dependency child path ≡ true → path ≡ child ∷ []
unfolding is_self_dependency
self_dependency_path [] child h = absurd (ground arith)
self_dependency_path (a ∷ []) child h = ground (arith, name_iff child a)
self_dependency_path (a ∷ b ∷ path) child h = absurd (ground arith)

pub core-self_dependency :
    (path : Seq) (child : Name)
    → is_self_dependency child path ≡ true
    → core (path ++ child ∷ []) ≡ core path
unfolding is_self_dependency
core-self_dependency [] child h = absurd (ground arith)
core-self_dependency (a ∷ []) child h = ground (arith, name_iff a child, name_iff child a)
core-self_dependency (a ∷ b ∷ path) child h = absurd (ground arith)

pub get_last?-core : (path : Seq) → get_last? (core path) ≡ get_last? path
get_last?-core [] = refl
get_last?-core (a ∷ []) = refl
get_last?-core (a ∷ b ∷ path) = ground arith

pub length-le-core : (path : Seq) → length path ≤ length (core path) + 1
length-le-core [] = omega arith
length-le-core (a ∷ []) = omega arith
length-le-core (a ∷ b ∷ path) = ground arith

-- A sequence that starts with `sf`, steps along edges, and repeats no function but `sf` as its
-- second one; without that repetition its length is at most `n`.
pub record IsPath (children : Name → List Name) (sf : Name) (n : ℕ) (path : Seq) : Type 0 where
  pub starts : head? path ≡ some sf
  pub walk : IsWalk children path
  pub simple : Nodup (core path)
  pub size : length (core path) ≤ n

pub IsPath-mono :
    {children : Name → List Name} {sf : Name} {m n : ℕ} {path : Seq}
    → m ≤ n
    → IsPath children sf m path
    → IsPath children sf n path
IsPath-mono le h = record {
  starts = h.starts;
  walk = h.walk;
  simple = h.simple;
  size = omega arith;
}
