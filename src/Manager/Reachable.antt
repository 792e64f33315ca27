-- ===== src/Manager/Reachable.antt =====
-- What is in reach in the contract's write-read graph is in reach in the graph that guides the
-- choice of functions.
use smart_executor.Keys.{Name, name_iff}
use mathlib.Core.Option.{some-injective}
use smart_executor.Fwrg.{Slots, get_children}
use smart_executor.Paths.{Seq, derive_paths, paths_from, get_path}
use smart_executor.Paths.Walks.{IsWalk, core}
use smart_executor.Paths.Complete.{derive_paths-Covers}
use smart_executor.Targets.{PathsTo, organize_paths, construct_fwrg_targets}
use smart_executor.Targets.Organize.{recorded, recorded_iff}
use smart_executor.Targets.Edges.{recorded-IsWalk}
use smart_executor.Augment.Sound.{has_edge_mono-add_edges_1}
use smart_executor.Manager.{FwrgManager, new_fwrg_manager, get_children_fwrg, get_children_fwrg_T_A}
use smart_executor.Reach.{SetOrder, can_reach_targets}
use smart_executor.Reach.Within.{walk-Within}
use smart_executor.Reach.Decide.{can_reach_targets_iff}
use smart_executor.Prelude.{
  ◌==◌, list_beq_iff, nat_eq, list_eq, Nodup, contains, Dict, lookup-insert, entry, lookup, insert,
  values, ℕ, ◌-◌, ◌≤◌, ◌<◌, ◌≡◌, refl, ap, ◌∙◌, subst, ◌⊎◌, inl, inr, true, some, List, [], ◌∷◌,
  ◌++◌, arith, if◌then◌else◌, Bool-cases, length, head?, get_last?,
}

module _ (children : Name → List Name) (limit : ℕ) where
  lookup-paths_from :
      (sfs : List Name) (paths : Dict Name (List Seq)) (sf : Name)
      → (contains sfs sf ≡ true) ⊎ (lookup sf paths ≡ some (derive_paths children limit sf))
      → lookup sf (paths_from children limit sfs paths) ≡ some (derive_paths children limit sf)
  unfolding paths_from contains
  lookup-paths_from [] paths sf (inl m) = absurd (ground arith)
  lookup-paths_from [] paths sf (inr h) = h
  lookup-paths_from (g ∷ sfs) paths sf m =
      lookup-paths_from sfs (insert g (derive_paths children limit g) paths) sf (next m)
    where
      next :
          (contains (g ∷ sfs) sf ≡ true) ⊎ (lookup sf paths ≡ some (derive_paths children limit sf))
          → (contains sfs sf ≡ true)
            ⊎ (lookup sf (insert g (derive_paths children limit g) paths)
                ≡ some (derive_paths children limit sf))
      next h = elim (Bool-cases (g == sf)) [
        | inl same ↦ inr (
            lookup-insert g sf (derive_paths children limit g) paths
            ∙ ground (arith, ap (derive_paths children limit) ((name_iff g sf).0 same)))
        | inr other ↦ elim h [
          | inl m' ↦ inl (ground arith)
          | inr old ↦ inr (lookup-insert g sf (derive_paths children limit g) paths ∙ ground arith)
        ]
      ]

contains-values :
    (d : Dict Name (List Seq)) (k : Name) (v : List Seq)
    → lookup k d ≡ some v
    → contains (values d) v ≡ true
unfolding lookup values contains
contains-values [] k v h = cc
contains-values ((j, w) ∷ d) k v h = ground (arith, contains-values d k v, list_beq_iff w v)

-- The front of a sequence whose core goes on from a given walk.
front_of_core :
    (q : Seq) (sf : Name) (post rest : Seq)
    → core q ≡ sf ∷ (post ++ rest)
    → (front : Seq) × (q ≡ front ++ rest) × ((front ≡ sf ∷ post) ⊎ (front ≡ sf ∷ sf ∷ post))
front_of_core [] sf post rest h = cc
front_of_core (a ∷ []) sf post rest h = (sf ∷ post, h, inl refl)
front_of_core (a ∷ b ∷ q) sf post rest h = elim (Bool-cases (a == b)) [
  | inl same ↦
      let e = (name_iff a b).0 same in
      let h' : b ∷ q ≡ sf ∷ (post ++ rest) =
        subst (λ x. (if x then b ∷ q else a ∷ b ∷ q) ≡ sf ∷ (post ++ rest)) same h in
      let first : a ≡ sf = e ∙ some-injective b sf (ap head? h') in
      (sf ∷ sf ∷ post, ap (λ x. x ∷ b ∷ q) first ∙ ap (λ l. sf ∷ l) h', inr refl)
  | inr other ↦ (
    sf ∷ post,
    subst (λ x. (if x then b ∷ q else a ∷ b ∷ q) ≡ sf ∷ (post ++ rest)) other h,
    inl refl,
  )
]

IsWalk-mono :
    (c d : Name → List Name) (path : Seq)
    → ((f g : Name) → contains (c f) g ≡ true → contains (d f) g ≡ true)
    → IsWalk c path
    → IsWalk d path
IsWalk-mono c d [] sub w = tt
IsWalk-mono c d (a ∷ []) sub w = tt
IsWalk-mono c d (a ∷ b ∷ path) sub w = (sub a b w.0, IsWalk-mono c d (b ∷ path) sub w.1)

module _ (children : Name → List Name) (limit : ℕ) (start_functions dk : List Name) where
  abbrev paths_to : PathsTo
  paths_to = organize_paths dk (get_path children limit start_functions)

  -- A front of a returned sequence is recorded for its last function, if that is a target.
  recorded-front :
      (sf t : Name) (q front rest : Seq)
      → contains start_functions sf ≡ true
      → contains dk t ≡ true
      → contains (derive_paths children limit sf) q ≡ true
      → q ≡ front ++ rest
      → get_last? front ≡ some t
      → 1 < length front
      → recorded paths_to t front ≡ true
  unfolding get_path
  recorded-front sf t q front rest ms mt found e l size =
      (recorded_iff dk (get_path children limit start_functions) t front).1 (record {
        target = mt;
        paths = derive_paths children limit sf;
        listed =
            contains-values (paths_from children limit start_functions []) sf
              (derive_paths children limit sf)
              (lookup-paths_from children limit start_functions [] sf (inl ms));
        path = q;
        among = found;
        rest = rest;
        front = e;
        ends = l;
        size = size;
      })

  -- The walk goes along edges of the target graph.
  target-IsWalk :
      (sf t g : Name) (post : Seq)
      → contains start_functions sf ≡ true
      → contains dk t ≡ true
      → IsWalk children (sf ∷ g ∷ post)
      → Nodup (sf ∷ g ∷ post)
      → length (sf ∷ g ∷ post) ≤ limit
      → get_last? (sf ∷ g ∷ post) ≡ some t
      → IsWalk (λ f. entry f (construct_fwrg_targets paths_to)) (sf ∷ g ∷ post)
  target-IsWalk sf t g post ms mt w u short l =
      let (q, rest, found, shape) = derive_paths-Covers children limit sf (g ∷ post) w u short in
      let (front, e, cases) = front_of_core q sf (g ∷ post) rest shape in
      elim cases [
        | inl plain ↦
            let r =
              recorded-front sf t q front rest ms mt found e (ap get_last? plain ∙ l)
                (rw plain (omega arith)) in
            subst (IsWalk (λ f. entry f (construct_fwrg_targets paths_to))) plain
              (recorded-IsWalk paths_to t front r)
        | inr twice ↦
            let r =
              recorded-front sf t q front rest ms mt found e (ap get_last? twice ∙ l)
                (rw twice (omega arith)) in
            (subst (IsWalk (λ f. entry f (construct_fwrg_targets paths_to))) twice
              (recorded-IsWalk paths_to t front r)).1
      ]

module _ (order : SetOrder) (limit : ℕ) (start_functions dk : List Name)
    (reads writes all_reads : Dict Name Slots) where
  abbrev manager : FwrgManager
  manager = new_fwrg_manager limit start_functions dk reads writes all_reads

  -- The walk goes along edges of the augmented graph.
  augmented-IsWalk :
      (sf t : Name) (post : Seq)
      → contains start_functions sf ≡ true
      → contains dk t ≡ true
      → IsWalk (get_children_fwrg manager) (sf ∷ post)
      → Nodup (sf ∷ post)
      → length (sf ∷ post) ≤ limit
      → get_last? (sf ∷ post) ≡ some t
      → IsWalk (get_children_fwrg_T_A manager) (sf ∷ post)
  unfolding new_fwrg_manager get_children_fwrg get_children_fwrg_T_A
  augmented-IsWalk sf t [] ms mt w u short l = tt
  augmented-IsWalk sf t (g ∷ post) ms mt w u short l =
      let paths_df = manager.acyclic_paths.paths_df in
      let targets = construct_fwrg_targets paths_df in
      IsWalk-mono (λ f. entry f targets) (get_children_fwrg_T_A manager) (sf ∷ g ∷ post)
        (λ f h. has_edge_mono-add_edges_1 paths_df targets f h)
        (target-IsWalk (get_children manager.fwrg.fwrg_dict) limit start_functions dk sf t g post ms
          mt w u short l)

  -- For any order in which Python lists a set, and a limit on the length of sequences: if a walk of
  -- different functions in the contract's write-read graph, no longer than the limit, leads from a
  -- start function to a target, then `can_reach_targets` answers `True` for the start function in
  -- the augmented target graph, with a depth of one less than the limit.
  pub can_reach_targets-new_fwrg_manager :
      (sf t : Name) (post : Seq)
      → contains start_functions sf ≡ true
      → contains dk t ≡ true
      → IsWalk (get_children_fwrg manager) (sf ∷ post)
      → Nodup (sf ∷ post)
      → length (sf ∷ post) ≤ limit
      → get_last? (sf ∷ post) ≡ some t
      → can_reach_targets order (get_children_fwrg_T_A manager) dk sf (limit - 1) ≡ true
  can_reach_targets-new_fwrg_manager sf t post ms mt w u short l =
      (can_reach_targets_iff order (get_children_fwrg_T_A manager) dk sf (limit - 1)).1 (
        t,
        mt,
        walk-Within (get_children_fwrg_T_A manager) (limit - 1) sf t post
            (augmented-IsWalk sf t post ms mt w u short l) l (omega arith),
      )
