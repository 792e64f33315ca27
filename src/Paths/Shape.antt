-- ===== src/Paths/Shape.antt =====
-- Every sequence that `derive_paths` returns is a bounded walk without cycles.
use smart_executor.Keys.{Name}
use smart_executor.Paths.{
  Seq, Extension, last_children, add_path, is_self_dependency, extend_child, extend_children,
  extend_path, extend_with, extend_paths, derive_rounds, derive_paths,
}
use smart_executor.Paths.Walks.{
  core, IsWalk-snoc, core-snoc, contains-core, core-self_dependency, self_dependency_path, IsPath,
  IsPath-mono,
}
use smart_executor.Prelude.{
  nat_eq, list_eq, All-intro, Nodup-snoc, contains, ℕ, zero, suc, ◌+◌, ◌-◌, ◌<◌, ◌≡◌, refl, sym, ap,
  ◌∙◌, inl, inr, true, false, some, List, [], ◌∷◌, ◌++◌, arith, Bool-cases, Option-cases, get_last?,
  length-append, head?-append, get_last?-snoc, All, All-append, All-map,
}

All-add_path :
    (P : Seq → Type 0) (path : Seq) (all_paths : List Seq)
    → P path
    → All P all_paths
    → All P (add_path path all_paths)
unfolding add_path
All-add_path P path all_paths h hs = elim (Bool-cases (contains all_paths path)) [
  | inl old ↦ rw old hs
  | inr new ↦ rw new (All-append P all_paths (path ∷ []) hs (h, tt))
]

module _ (children : Name → List Name) (sf : Name) where
  IsPath-snoc :
      {n : ℕ} {path : Seq} {last : Name} (child : Name)
      → IsPath children sf n path
      → get_last? path ≡ some last
      → contains (children last) child ≡ true
      → contains path child ≡ false
      → IsPath children sf (suc n) (path ++ child ∷ [])
  IsPath-snoc {n} {path} child h l c new = record {
    starts = head?-append path (child ∷ []) h.starts;
    walk = IsWalk-snoc children path child h.walk l c;
    simple =
        rw (core-snoc path child new)
          (Nodup-snoc (core path) child h.simple (rw contains-core new));
    size =
        rw (core-snoc path child new)
          (let s = h.size in omega (arith, length-append (core path) (child ∷ [])));
  }

  IsPath-self_dependency :
      {n : ℕ} {path : Seq} {last : Name} (child : Name)
      → IsPath children sf n path
      → get_last? path ≡ some last
      → contains (children last) child ≡ true
      → is_self_dependency child path ≡ true
      → IsPath children sf n (path ++ child ∷ [])
  IsPath-self_dependency {n} {path} child h l c self = record {
    starts = head?-append path (child ∷ []) h.starts;
    walk = IsWalk-snoc children path child h.walk l c;
    simple = rw (core-self_dependency path child self) h.simple;
    size = rw (core-self_dependency path child self) h.size;
  }

  -- What holds of the loop over the children of a path's last function.
  record IsExtension (n : ℕ) (last : Name) (ext : Extension) : Type 0 where
    path : IsPath children sf n ext.path
    ends : get_last? ext.path ≡ some last
    all_paths : All (IsPath children sf n) ext.all_paths
    derived_paths : All (IsPath children sf (suc n)) ext.derived_paths

  extend_child-IsExtension :
      {n : ℕ} {last : Name} (child : Name) (ext : Extension)
      → contains (children last) child ≡ true
      → IsExtension n last ext
      → IsExtension n last (extend_child child ext)
  unfolding extend_child
  extend_child-IsExtension {n} child ext c h = elim (Bool-cases (contains ext.path child)) [
    | inl old ↦ elim (Bool-cases (is_self_dependency child ext.path)) [
      | inl self ↦
          let longer = IsPath-self_dependency child h.path h.ends c self in
          rw (old, self)
            (record {
              path = longer;
              ends =
                  get_last?-snoc ext.path child
                  ∙ sym (ap get_last? (self_dependency_path ext.path child self))
                  ∙ h.ends;
              all_paths =
                  All-add_path (IsPath children sf n) (ext.path ++ child ∷ []) ext.all_paths longer
                    h.all_paths;
              derived_paths = h.derived_paths;
            })
      | inr other ↦
          rw (old, other)
            (record {
              path = h.path;
              ends = h.ends;
              all_paths =
                  All-add_path (IsPath children sf n) ext.path ext.all_paths h.path h.all_paths;
              derived_paths = h.derived_paths;
            })
    ]
    | inr new ↦ rw new (record {
      path = h.path;
      ends = h.ends;
      all_paths = h.all_paths;
      derived_paths =
          All-append (IsPath children sf (suc n)) ext.derived_paths ((ext.path ++ child ∷ []) ∷ [])
            h.derived_paths (IsPath-snoc child h.path h.ends c new, tt);
    })
  ]

  extend_children-IsExtension :
      {n : ℕ} {last : Name} (cs : List Name) (ext : Extension)
      → All (λ c. contains (children last) c ≡ true) cs
      → IsExtension n last ext
      → IsExtension n last (extend_children cs ext)
  unfolding extend_children
  extend_children-IsExtension [] ext hs h = h
  extend_children-IsExtension (c ∷ cs) ext hs h =
      extend_children-IsExtension cs (extend_child c ext) hs.1
        (extend_child-IsExtension c ext hs.0 h)

  -- What holds of the paths found so far, and of those of the next round.
  abbrev AreFound : ℕ → List Seq × List Seq → Type 0
  AreFound n found = All (IsPath children sf n) found.0 × All (IsPath children sf (suc n)) found.1

  extend_with-AreFound :
      {n : ℕ} (last : Name) (cs : List Name) (path : Seq) (found : List Seq × List Seq)
      → get_last? path ≡ some last
      → All (λ c. contains (children last) c ≡ true) cs
      → IsPath children sf n path
      → AreFound n found
      → AreFound n (extend_with cs path found)
  unfolding extend_with
  extend_with-AreFound {n} last [] path (all_paths, derived_paths) e cs h hs =
      (All-add_path (IsPath children sf n) path all_paths h hs.0, hs.1)
  extend_with-AreFound {n} last (c ∷ rest) path (all_paths, derived_paths) e cs h hs =
      let start : IsExtension n last
          (record { path = path; all_paths = all_paths; derived_paths = derived_paths }) =
        record { path = h; ends = e; all_paths = hs.0; derived_paths = hs.1 } in
      let done = extend_children-IsExtension (c ∷ rest) _ cs start in
      (done.all_paths, done.derived_paths)

  extend_path-AreFound :
      {n : ℕ} (path : Seq) (found : List Seq × List Seq)
      → IsPath children sf n path
      → AreFound n found
      → AreFound n (extend_path children path found)
  unfolding extend_path last_children extend_with
  extend_path-AreFound {n} path found h hs = elim (Option-cases (get_last? path)) [
    | inl e ↦ rw (e, last_children) (All-add_path (IsPath children sf n) path found.0 h hs.0, hs.1)
    | inr (last, e) ↦
        rw (e, last_children)
          (extend_with-AreFound last (children last) path found e
            (All-intro (λ c. contains (children last) c ≡ true) (children last) (λ c m. m)) h hs)
  ]

  extend_paths-AreFound :
      (n : ℕ) (paths : List Seq) (found : List Seq × List Seq)
      → All (IsPath children sf n) paths
      → AreFound n found
      → AreFound n (extend_paths children paths found)
  unfolding extend_paths
  extend_paths-AreFound n [] found h hs = hs
  extend_paths-AreFound n (path ∷ paths) found h hs =
      extend_paths-AreFound n paths (extend_path children path found) h.1
        (extend_path-AreFound path found h.0 hs)

  derive_rounds-IsPath :
      (rounds n : ℕ) (all_paths paths : List Seq)
      → All (IsPath children sf n) all_paths
      → All (IsPath children sf n) paths
      → All (IsPath children sf (n + rounds)) (derive_rounds children rounds all_paths paths)
  unfolding derive_rounds
  derive_rounds-IsPath zero n all_paths paths ha hp =
      All-append (IsPath children sf (n + 0)) all_paths paths
        (All-map (IsPath children sf n) all_paths (λ p. IsPath-mono (omega arith)) ha)
        (All-map (IsPath children sf n) paths (λ p. IsPath-mono (omega arith)) hp)
  derive_rounds-IsPath (suc rounds) n all_paths paths ha hp =
      let found = extend_paths children paths (all_paths, []) in
      let hs = extend_paths-AreFound n paths (all_paths, []) hp (ha, tt) in
      let rest =
        derive_rounds-IsPath rounds (suc n) found.0 found.1
          (All-map (IsPath children sf n) found.0 (λ p. IsPath-mono (omega arith)) hs.0) hs.1 in
      All-map (IsPath children sf (suc n + rounds)) _ (λ p. IsPath-mono (omega arith)) rest

-- For a limit of at least one: every sequence that `derive_paths` returns starts with the start
-- function, goes along edges of the graph, and repeats no function, except that the start function
-- may stand twice at the front; without that repetition its length is at most the limit.
pub derive_paths-IsPath :
    (children : Name → List Name) (limit : ℕ) (sf : Name)
    → 0 < limit
    → All (IsPath children sf limit) (derive_paths children limit sf)
unfolding derive_paths contains
derive_paths-IsPath children limit sf h =
    All-map (IsPath children sf (1 + (limit - 1))) _ (λ p. IsPath-mono (omega arith))
      (derive_rounds-IsPath children sf (limit - 1) 1 [] ((sf ∷ []) ∷ []) tt
        (record { starts = refl; walk = tt; simple = (refl, tt); size = omega arith }, tt))
