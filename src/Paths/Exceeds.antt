-- ===== src/Paths/Exceeds.antt =====
-- A self dependency makes a sequence longer than the limit.
use smart_executor.Keys.{Name, name_iff}
use smart_executor.Paths.{
  Seq, Extension, last_children, extend_child, extend_with, extend_path, extend_paths,
  derive_rounds, derive_paths, add_path, is_self_dependency,
}
use smart_executor.Paths.Walks.{core, IsWalk, get_last?-core}
use smart_executor.Paths.Rounds.{
  In, In-right, extend_children-Grows, step_derives, derives_at_round,
}
use smart_executor.Paths.Complete.{not-contains_of_Nodup}
use mathlib.Core.List.{append_assoc}
use smart_executor.Prelude.{
  eq_refl, nat_eq, list_eq, Nodup, contains, ℕ, zero, suc, ◌+◌, ◌-◌, ◌≤◌, ◌<◌, ◌≡◌, refl, sym, ap,
  ◌∙◌, subst, ◌≢◌, true, false, some, List, [], ◌∷◌, ◌++◌, arith, length, get_last?, get_last?-snoc,
}

-- The start function's own edge doubles it, and the next child extends the doubled path.
doubled :
    (sf c : Name) (cs : List Name)
    → sf ≢ c
    → In (sf ∷ sf ∷ c ∷ []) (extend_with (sf ∷ c ∷ cs) (sf ∷ []) ([], [])).1
unfolding extend_with
doubled sf c cs other =
    let start : Extension = record { path = sf ∷ []; all_paths = []; derived_paths = [] } in
    let ext : Extension = record {
      path = sf ∷ sf ∷ [];
      all_paths = (sf ∷ sf ∷ []) ∷ [];
      derived_paths = [];
    } in
    let twice : extend_child sf start ≡ ext =
      unfold extend_child add_path is_self_dependency contains in ground (arith, eq_refl sf) in
    let new : contains (sf ∷ sf ∷ []) c ≡ false =
      unfold contains in ground (arith, name_iff sf c, other) in
    let found =
      subst (λ x. In (sf ∷ sf ∷ c ∷ []) (extend_child c x).derived_paths) (sym twice)
        (step_derives c ext new) in
    (extend_children-Grows cs (extend_child c (extend_child sf start))).derived_paths _ found

module _ (children : Name → List Name) where
  -- A walk that goes on from a path of a round makes a path that is longer by each step.
  grows_by_steps :
      (rounds : ℕ) (all_paths paths : List Seq) (path post : Seq) (last : Name)
      → In path paths
      → get_last? path ≡ some last
      → IsWalk children (last ∷ post)
      → Nodup (core path ++ post)
      → length post ≡ rounds
      → (q : Seq) × In q (derive_rounds children rounds all_paths paths)
        × (length path + rounds ≤ length q)
  unfolding derive_rounds
  grows_by_steps zero all_paths paths path post last m l w u size =
      (path, In-right path all_paths paths m, omega arith)
  grows_by_steps (suc rounds) all_paths paths path [] last m l w u size = absurd (omega arith)
  grows_by_steps (suc rounds) all_paths paths path (c ∷ post) last m l w u size =
      let found = extend_paths children paths (all_paths, []) in
      let (q, now, shape, longer) =
        derives_at_round children paths (all_paths, []) path c last m l w.0
          (not-contains_of_Nodup (core path) c post u) in
      let whole = ap (λ t. t ++ post) shape ∙ append_assoc (core path) (c ∷ []) post in
      let ends = sym (get_last?-core q) ∙ ap get_last? shape ∙ get_last?-snoc (core path) c in
      let (q', m', size') =
        grows_by_steps rounds found.0 found.1 q post c now ends w.1 (subst Nodup (sym whole) u)
          (omega arith) in
      (q', m', omega arith)

  first_round :
      (sf c : Name) (cs : List Name)
      → children sf ≡ sf ∷ c ∷ cs
      → sf ≢ c
      → In (sf ∷ sf ∷ c ∷ []) (extend_paths children ((sf ∷ []) ∷ []) ([], [])).1
  unfolding extend_paths extend_path last_children
  first_round sf c cs e other =
      subst (λ l. In (sf ∷ sf ∷ c ∷ []) (extend_with l (sf ∷ []) ([], [])).1) (sym e)
        (doubled sf c cs other)

-- For a start function that is the first of its own children: each walk of different functions
-- from it along its second child, as long as the limit allows, has a sequence among the results
-- that is longer than the limit.
pub derive_paths_exceeds :
    (children : Name → List Name) (limit : ℕ) (sf c : Name) (cs : List Name) (post : Seq)
    → children sf ≡ sf ∷ c ∷ cs
    → IsWalk children (c ∷ post)
    → Nodup (sf ∷ c ∷ post)
    → length (sf ∷ c ∷ post) ≡ limit
    → (q : Seq) × (contains (derive_paths children limit sf) q ≡ true) × (limit < length q)
unfolding derive_paths derive_rounds contains
derive_paths_exceeds children zero sf c cs post e w u size = absurd (omega arith)
derive_paths_exceeds children (suc zero) sf c cs post e w u size = absurd (omega arith)
derive_paths_exceeds children (suc (suc n)) sf c cs post e w u size =
    let found = extend_paths children ((sf ∷ []) ∷ []) ([], []) in
    let other : sf ≢ c = λ same. absurd (ground (arith, name_iff c sf)) in
    let start = first_round children sf c cs e other in
    let simple : Nodup (core (sf ∷ sf ∷ c ∷ []) ++ post) = rw (eq_refl sf) u in
    let rounds : suc (suc n) - 1 ≡ suc n = omega arith in
    let (q, m, longer) =
      grows_by_steps children n found.0 found.1 (sf ∷ sf ∷ c ∷ []) post c start refl w simple
        (omega arith) in
    (
      q,
      subst (λ r. contains (derive_rounds children r [] ((sf ∷ []) ∷ [])) q ≡ true) (sym rounds) m,
      omega arith,
    )
