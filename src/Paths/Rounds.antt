-- ===== src/Paths/Rounds.antt =====
-- What a round of `derive_paths` keeps of the paths that it is given, and how it extends them.
use smart_executor.Keys.{Name, name_iff}
use smart_executor.Paths.{
  Seq, Extension, last_children, add_path, is_self_dependency, extend_child, extend_children,
  extend_with, extend_path, extend_paths,
}
use smart_executor.Paths.Walks.{core, core-snoc, contains-core, core-self_dependency}
use mathlib.Core.List.{append-nil}
use smart_executor.Prelude.{
  ◌==◌, eq_refl, list_beq_iff, nat_eq, list_eq, contains-append, contains, ◌≤◌, ◌<◌, ◌≡◌, sym, ap,
  ◌∙◌, subst, ◌⊎◌, inl, inr, true, false, some, List, [], ◌∷◌, ◌++◌, arith, Bool-cases, length,
  get_last?, length-append,
}

abbrev pub In : Seq → List Seq → Type 0
In path paths = contains paths path ≡ true

In-add_path : (path : Seq) (paths : List Seq) → In path (add_path path paths)
unfolding add_path contains
In-add_path path paths = ground (arith, contains-append paths (path ∷ []) path, eq_refl path)

In-mono-add_path : (q path : Seq) (paths : List Seq) → In q paths → In q (add_path path paths)
unfolding add_path
In-mono-add_path q path paths h = ground (arith, contains-append paths (path ∷ []) q)

pub In-left : (q : Seq) (xs ys : List Seq) → In q xs → In q (xs ++ ys)
In-left q xs ys h = rw contains-append (ground arith)

pub In-right : (q : Seq) (xs ys : List Seq) → In q ys → In q (xs ++ ys)
In-right q xs ys h = rw contains-append (ground arith)

-- Nothing that is found is lost: `b` has all of `a`'s paths.
pub record Grows (a b : List Seq × List Seq) : Type 0 where
  pub all_paths : (q : Seq) → In q a.0 → In q b.0
  pub derived_paths : (q : Seq) → In q a.1 → In q b.1

Grows-refl : (a : List Seq × List Seq) → Grows a a
Grows-refl a = record { all_paths = λ q h. h; derived_paths = λ q h. h }

Grows-trans : {a b c : List Seq × List Seq} → Grows a b → Grows b c → Grows a c
Grows-trans g h = record {
  all_paths = λ q m. h.all_paths q (g.all_paths q m);
  derived_paths = λ q m. h.derived_paths q (g.derived_paths q m);
}

abbrev found_in : Extension → List Seq × List Seq
found_in ext = (ext.all_paths, ext.derived_paths)

extend_child-Grows :
    (c : Name) (ext : Extension) → Grows (found_in ext) (found_in (extend_child c ext))
unfolding extend_child
extend_child-Grows c ext = elim (Bool-cases (contains ext.path c)) [
  | inl old ↦
      rw old (record {
        all_paths = λ q h. In-mono-add_path q _ ext.all_paths h;
        derived_paths = λ q h. h;
      })
  | inr new ↦
      rw new
        (record { all_paths = λ q h. h; derived_paths = λ q h. In-left q ext.derived_paths _ h })
]

pub extend_children-Grows :
    (cs : List Name) (ext : Extension) → Grows (found_in ext) (found_in (extend_children cs ext))
unfolding extend_children
extend_children-Grows [] ext = Grows-refl (found_in ext)
extend_children-Grows (c ∷ cs) ext =
    Grows-trans (extend_child-Grows c ext) (extend_children-Grows cs (extend_child c ext))

extend_with-Grows :
    (cs : List Name) (path : Seq) (found : List Seq × List Seq)
    → Grows found (extend_with cs path found)
unfolding extend_with
extend_with-Grows [] path (all_paths, derived_paths) = record {
  all_paths = λ q h. In-mono-add_path q path all_paths h;
  derived_paths = λ q h. h;
}
extend_with-Grows (c ∷ cs) path (all_paths, derived_paths) =
    extend_children-Grows (c ∷ cs)
      (record { path = path; all_paths = all_paths; derived_paths = derived_paths })

extend_path-Grows :
    (children : Name → List Name) (path : Seq) (found : List Seq × List Seq)
    → Grows found (extend_path children path found)
unfolding extend_path
extend_path-Grows children path found = extend_with-Grows (last_children children path) path found

pub extend_paths-Grows :
    (children : Name → List Name) (paths : List Seq) (found : List Seq × List Seq)
    → Grows found (extend_paths children paths found)
unfolding extend_paths
extend_paths-Grows children [] found = Grows-refl found
extend_paths-Grows children (path ∷ paths) found =
    Grows-trans (extend_path-Grows children path found)
      (extend_paths-Grows children paths (extend_path children path found))

-- The path of a loop over children keeps its core and its members.
core-extend_child : (c : Name) (ext : Extension) → core (extend_child c ext).path ≡ core ext.path
unfolding extend_child
core-extend_child c ext = elim (Bool-cases (contains ext.path c)) [
  | inl old ↦ elim (Bool-cases (is_self_dependency c ext.path)) [
    | inl self ↦ rw (old, self) (core-self_dependency ext.path c self)
    | inr other ↦ rw (old, other)
  ]
  | inr new ↦ rw new
]

pub step_derives :
    (c : Name) (ext : Extension)
    → contains ext.path c ≡ false
    → In (ext.path ++ c ∷ []) (extend_child c ext).derived_paths
unfolding extend_child contains
step_derives c ext new = rw new (
    In-right (ext.path ++ c ∷ []) ext.derived_paths ((ext.path ++ c ∷ []) ∷ [])
      (ground (arith, eq_refl (ext.path ++ c ∷ []))))

length-extend_child :
    (c : Name) (ext : Extension) → length ext.path ≤ length (extend_child c ext).path
unfolding extend_child
length-extend_child c ext = ground (arith, length-append ext.path (c ∷ []))

-- A child that is not on the path extends it, up to the self dependency at its start.
derives :
    (cs : List Name) (c : Name) (ext : Extension)
    → contains cs c ≡ true
    → contains (core ext.path) c ≡ false
    → (q : Seq) × In q (extend_children cs ext).derived_paths
      × (core q ≡ core ext.path ++ c ∷ [])
      × (length ext.path < length q)
unfolding extend_children contains
derives [] c ext m new = absurd (ground arith)
derives (d ∷ cs) c ext m new = elim (Bool-cases (d == c)) [
  | inl same ↦
      let e = (name_iff d c).0 same in
      let new' =
        sym (contains-core ext.path d)
        ∙ subst (λ x. contains (core ext.path) x ≡ false) (sym e) new in
      (
        ext.path ++ d ∷ [],
        (extend_children-Grows cs (extend_child d ext)).derived_paths _ (step_derives d ext new'),
        core-snoc ext.path d new' ∙ ap (λ x. core ext.path ++ x ∷ []) e,
        omega (arith, length-append ext.path (d ∷ [])),
      )
  | inr other ↦
      let (q, found, shape, longer) =
        derives cs c (extend_child d ext) (ground arith) (rw core-extend_child new) in
      (
        q,
        found,
        shape ∙ ap (λ p. p ++ c ∷ []) (core-extend_child d ext),
        omega (arith, length-extend_child d ext),
      )
]

step_keeps :
    (c : Name) (ext : Extension)
    → contains ext.path c ≡ true
    → In (extend_child c ext).path (extend_child c ext).all_paths
unfolding extend_child
step_keeps c ext old = rw old (In-add_path _ ext.all_paths)

derives_with :
    (cs : List Name) (c : Name) (path : Seq) (found : List Seq × List Seq)
    → contains cs c ≡ true
    → contains (core path) c ≡ false
    → (q : Seq) × In q (extend_with cs path found).1
      × (core q ≡ core path ++ c ∷ [])
      × (length path < length q)
unfolding extend_with contains
derives_with [] c path found m new = absurd (ground arith)
derives_with (d ∷ cs) c path (all_paths, derived_paths) m new =
    derives (d ∷ cs) c
      (record { path = path; all_paths = all_paths; derived_paths = derived_paths }) m new

-- The path itself is found again, or is extended.
keeps :
    (cs : List Name) (path : Seq) (found : List Seq × List Seq)
    → (q : Seq) × (rest : Seq) × (In q (extend_with cs path found).0
        ⊎ In q (extend_with cs path found).1)
      × (core q ≡ core path ++ rest)
unfolding extend_with
keeps [] path found = (path, [], inl (In-add_path path found.0), sym (append-nil (core path)))
keeps (c ∷ cs) path (all_paths, derived_paths) =
    let ext : Extension = record {
      path = path;
      all_paths = all_paths;
      derived_paths = derived_paths;
    } in
    let grows = extend_children-Grows cs (extend_child c ext) in
    elim (Bool-cases (contains path c)) [
      | inl old ↦ (
        (extend_child c ext).path,
        [],
        inl (grows.all_paths _ (step_keeps c ext old)),
        core-extend_child c ext ∙ sym (append-nil (core path)),
      )
      | inr new ↦ (
        path ++ c ∷ [],
        c ∷ [],
        inr (grows.derived_paths _ (step_derives c ext new)),
        core-snoc path c new,
      )
    ]

module _ (children : Name → List Name) where
  pub keeps_at_round :
      (paths : List Seq) (found : List Seq × List Seq) (path : Seq)
      → In path paths
      → (q : Seq) × (rest : Seq) × (In q (extend_paths children paths found).0
          ⊎ In q (extend_paths children paths found).1)
        × (core q ≡ core path ++ rest)
  unfolding extend_paths extend_path contains
  keeps_at_round [] found path m = absurd (ground arith)
  keeps_at_round (p ∷ paths) found path m = elim (Bool-cases (p == path)) [
    | inl same ↦
        let (q, rest, somewhere, shape) = keeps (last_children children p) p found in
        let grows = extend_paths-Grows children paths (extend_path children p found) in
        let e = (list_beq_iff p path).0 same in
        (
          q,
          rest,
          elim somewhere [
            | inl h ↦ inl (grows.all_paths q h)
            | inr h ↦ inr (grows.derived_paths q h)
          ],
          shape ∙ ap (λ t. core t ++ rest) e,
        )
    | inr other ↦ keeps_at_round paths (extend_path children p found) path (ground arith)
  ]

  last_children_edge :
      (path : Seq) (c : Name) {last : Name}
      → get_last? path ≡ some last
      → contains (children last) c ≡ true
      → contains (last_children children path) c ≡ true
  unfolding last_children
  last_children_edge path c l edge = rw (l, last_children) edge

  pub derives_at_round :
      (paths : List Seq) (found : List Seq × List Seq) (path : Seq) (c last : Name)
      → In path paths
      → get_last? path ≡ some last
      → contains (children last) c ≡ true
      → contains (core path) c ≡ false
      → (q : Seq) × In q (extend_paths children paths found).1
        × (core q ≡ core path ++ c ∷ [])
        × (length path < length q)
  unfolding extend_paths contains
  derives_at_round [] found path c last m l edge new = absurd (ground arith)
  derives_at_round (p ∷ paths) found path c last m l edge new = elim (Bool-cases (p == path)) [
    | inl same ↦
        let e = (list_beq_iff p path).0 same in
        let grows = extend_paths-Grows children paths (extend_path children p found) in
        let (q, now, shape, longer) =
          derives_with (last_children children p) c p found
            (last_children_edge p c (ap get_last? e ∙ l) edge)
            (subst (λ t. contains (core t) c ≡ false) (sym e) new) in
        (
          q,
          grows.derived_paths q now,
          shape ∙ ap (λ t. core t ++ c ∷ []) e,
          subst (λ t. length t < length q) e longer,
        )
    | inr other ↦
        derives_at_round paths (extend_path children p found) path c last (ground arith) l edge new
  ]
