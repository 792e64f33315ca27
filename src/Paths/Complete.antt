-- ===== src/Paths/Complete.antt =====
-- No bounded walk is missed: every one is followed by a sequence that `derive_paths` returns.
use smart_executor.Keys.{Name, name_iff}
use smart_executor.Paths.{Seq, extend_paths, derive_rounds, derive_paths}
use smart_executor.Paths.Walks.{core, IsWalk, get_last?-core}
use mathlib.Core.List.{append_assoc, append-nil}
use smart_executor.Paths.Rounds.{
  In, In-left, In-right, extend_paths-Grows, keeps_at_round, derives_at_round,
}
use smart_executor.Prelude.{
  eq_refl, nat_eq, list_eq, contains-append, Nodup, contains, ℕ, zero, suc, ◌-◌, ◌≤◌, ◌≡◌, refl,
  sym, ap, ◌∙◌, subst, ◌⊎◌, inl, inr, false, some, List, [], ◌∷◌, ◌++◌, arith, length, get_last?,
  get_last?-snoc,
}

pub not-contains_of_Nodup :
    (xs : Seq) (c : Name) (ys : Seq) → Nodup (xs ++ (c ∷ ys)) → contains xs c ≡ false
unfolding contains
not-contains_of_Nodup [] c ys u = refl
not-contains_of_Nodup (x ∷ xs) c ys u =
    let rest = not-contains_of_Nodup xs c ys u.1 in
    let first = rw contains-append at u.0 in ground (arith, name_iff x c, name_iff c x)

module _ (children : Name → List Name) where
  -- Some path of the list goes on from `p`, up to a self dependency at the start.
  abbrev pub Covers : List Seq → Seq → Type 0
  Covers paths p = (q : Seq) × (rest : Seq) × In q paths × (core q ≡ p ++ rest)

  -- A path that is found is gone on from in the result.
  Covers-core :
      (rounds : ℕ) (all_paths paths : List Seq) (path : Seq)
      → In path all_paths ⊎ In path paths
      → Covers (derive_rounds children rounds all_paths paths) (core path)
  unfolding derive_rounds
  Covers-core zero all_paths paths path m = (
    path,
    [],
    elim m [ inl h ↦ In-left path all_paths paths h | inr h ↦ In-right path all_paths paths h ],
    sym (append-nil (core path)),
  )
  Covers-core (suc rounds) all_paths paths path (inl h) =
      let found = extend_paths children paths (all_paths, []) in
      Covers-core rounds found.0 found.1 path
        (inl ((extend_paths-Grows children paths (all_paths, [])).all_paths path h))
  Covers-core (suc rounds) all_paths paths path (inr h) =
      let found = extend_paths children paths (all_paths, []) in
      let (q, rest, somewhere, shape) = keeps_at_round children paths (all_paths, []) path h in
      let (q', rest', m, shape') = Covers-core rounds found.0 found.1 q somewhere in
      (
        q',
        rest ++ rest',
        m,
        shape' ∙ ap (λ t. t ++ rest') shape ∙ append_assoc (core path) rest rest',
      )

  Covers-walk :
      (rounds : ℕ) (all_paths paths : List Seq) (path post : Seq) (last : Name)
      → In path paths
      → get_last? path ≡ some last
      → IsWalk children (last ∷ post)
      → Nodup (core path ++ post)
      → length post ≤ rounds
      → Covers (derive_rounds children rounds all_paths paths) (core path ++ post)
  unfolding derive_rounds
  Covers-walk rounds all_paths paths path [] last m l w u short =
      rw append-nil (Covers-core rounds all_paths paths path (inr m))
  Covers-walk zero all_paths paths path (c ∷ post) last m l w u short = absurd (omega arith)
  Covers-walk (suc rounds) all_paths paths path (c ∷ post) last m l w u short =
      let found = extend_paths children paths (all_paths, []) in
      let (q, now, shape, _) =
        derives_at_round children paths (all_paths, []) path c last m l w.0
          (not-contains_of_Nodup (core path) c post u) in
      let longer = ap (λ t. t ++ post) shape ∙ append_assoc (core path) (c ∷ []) post in
      let ends = sym (get_last?-core q) ∙ ap get_last? shape ∙ get_last?-snoc (core path) c in
      subst (Covers (derive_rounds children (suc rounds) all_paths paths)) longer (
        Covers-walk rounds found.0 found.1 q post c now ends w.1 (subst Nodup (sym longer) u)
          (omega arith))

-- Every sequence of different functions that starts with the start function, goes along edges of
-- the graph and is no longer than the limit is the front of some sequence that `derive_paths`
-- returns, where a start function that stands twice in it is read once.
pub derive_paths-Covers :
    (children : Name → List Name) (limit : ℕ) (sf : Name) (post : Seq)
    → IsWalk children (sf ∷ post)
    → Nodup (sf ∷ post)
    → length (sf ∷ post) ≤ limit
    → Covers children (derive_paths children limit sf) (sf ∷ post)
unfolding derive_paths contains
derive_paths-Covers children limit sf post w u short =
    Covers-walk children (limit - 1) [] ((sf ∷ []) ∷ []) (sf ∷ []) post sf
      (ground (arith, eq_refl (sf ∷ []))) refl w u (omega arith)
