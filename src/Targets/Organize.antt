-- ===== src/Targets/Organize.antt =====
-- Which sequences are recorded as paths to a target.
use smart_executor.Targets.Fronts.{
  any_front_of_lists_complete, any_front_sound, any_front_of_lists, any_front, is_front,
  front_sound, any_front_complete, front_complete, any_front_of_lists_sound,
}
use smart_executor.Keys.{Name, name_iff}
use smart_executor.Paths.{Seq}
use smart_executor.Targets.{
  PathsTo, add_by_length, add_path_to, organize_path, organize_all, organize_from, organize_paths,
}
use smart_executor.Prelude.{
  ◌==◌, list_beq_iff, nat_eq, list_eq, contains-append, contains, Dict, lookup-insert, has_key-eq,
  entry, entry-insert, lookup, values, ℕ, ◌-◌, ◌<◌, ◌≡◌, sym, ◌∙◌, ◌↔◌, inl, inr, Bool, true, false,
  ◌&&◌, ◌||◌, none, some, List, [], ◌∷◌, ◌++◌, arith, ltb, if◌then◌else◌, Option-cases, length,
  get_last?,
}

-- The path is recorded for the target, under its number of edges.
abbrev pub recorded : PathsTo → Name → Seq → Bool
recorded paths_df ftn path = elim (lookup ftn paths_df) [
  | none ↦ false
  | some by_length ↦ contains (entry (length path - 1) by_length) path
]

contains-add_by_length :
    (p q : Seq) (by_length : Dict ℕ (List Seq))
    → contains (entry (length q - 1) (add_by_length p by_length)) q
      ≡ contains (entry (length q - 1) by_length) q || p == q
unfolding add_by_length contains
contains-add_by_length p q by_length =
    let k = length p - 1 in
    let old = entry k by_length in
    ground (
      arith,
      entry-insert k (length q - 1) (old ++ p ∷ []) by_length,
      entry-insert k (length q - 1) (p ∷ []) by_length,
      contains-append old (p ∷ []) q,
      has_key-eq k by_length,
      list_beq_iff p q,
    )

recorded-add_path_to :
    (f g : Name) (p q : Seq) (paths_df : PathsTo)
    → recorded (add_path_to f p paths_df) g q ≡ recorded paths_df g q || f == g && p == q
unfolding add_path_to lookup contains
recorded-add_path_to f g p q paths_df = elim (Option-cases (lookup f paths_df)) [
  | inl e ↦
      rw (e, add_path_to)
        (ground (
          arith,
          lookup-insert f g (add_by_length p []) paths_df,
          name_iff f g,
          contains-add_by_length p q [],
        ))
  | inr (by_length, e) ↦
      rw (e, add_path_to)
        (ground (
          arith,
          lookup-insert f g (add_by_length p by_length) paths_df,
          name_iff f g,
          contains-add_by_length p q by_length,
        ))
]

recorded-organize_path :
    (dk : List Name) (before after : Seq) (paths_df : PathsTo) (g : Name) (q : Seq)
    → recorded (organize_path dk before after paths_df) g q
      ≡ recorded paths_df g q || contains dk g && is_front g q before after
unfolding organize_path
recorded-organize_path dk before [] paths_df g q = ground arith
recorded-organize_path dk before (f ∷ after) paths_df g q =
    let next =
      if contains dk f && ltb 0 (length before)
      then add_path_to f (before ++ f ∷ []) paths_df
      else paths_df in
    rw (recorded-organize_path dk (before ++ f ∷ []) after next g q)
      (ground (arith, recorded-add_path_to f g (before ++ f ∷ []) q paths_df, name_iff f g))

recorded-organize_all :
    (dk : List Name) (paths : List Seq) (paths_df : PathsTo) (g : Name) (q : Seq)
    → recorded (organize_all dk paths paths_df) g q
      ≡ recorded paths_df g q || contains dk g && any_front g q paths
unfolding organize_all any_front
recorded-organize_all dk [] paths_df g q = ground arith
recorded-organize_all dk (path ∷ paths) paths_df g q =
    rw (recorded-organize_all dk paths (organize_path dk [] path paths_df) g q)
      (ground (arith, recorded-organize_path dk [] path paths_df g q))

recorded-organize_from :
    (dk : List Name) (lists : List (List Seq)) (paths_df : PathsTo) (g : Name) (q : Seq)
    → recorded (organize_from dk lists paths_df) g q
      ≡ recorded paths_df g q || contains dk g && any_front_of_lists g q lists
unfolding organize_from any_front_of_lists
recorded-organize_from dk [] paths_df g q = ground arith
recorded-organize_from dk (paths ∷ lists) paths_df g q =
    rw (recorded-organize_from dk lists (organize_all dk paths paths_df) g q)
      (ground (arith, recorded-organize_all dk paths paths_df g q))

-- A sequence that is recorded for a target: the front of a path, up to the target, and more than
-- the start function.
pub record IsTargetPath (dk : List Name) (lists : List (List Seq)) (g : Name) (q : Seq)
    : Type 0 where
  pub target : contains dk g ≡ true
  pub paths : List Seq
  pub listed : contains lists paths ≡ true
  pub path : Seq
  pub among : contains paths path ≡ true
  pub rest : Seq
  pub front : path ≡ q ++ rest
  pub ends : get_last? q ≡ some g
  pub size : 1 < length q

module _ (dk : List Name) (paths : Dict Name (List Seq)) (g : Name) (q : Seq) where
  recorded-organize_paths :
      recorded (organize_paths dk paths) g q
      ≡ contains dk g && any_front_of_lists g q (values paths)
  unfolding organize_paths lookup
  recorded-organize_paths = recorded-organize_from dk (values paths) [] g q

  recorded_sound :
      recorded (organize_paths dk paths) g q ≡ true → IsTargetPath dk (values paths) g q
  recorded_sound h =
      let both = sym recorded-organize_paths ∙ h in
      let (ps, listed, some_path) = any_front_of_lists_sound g q (values paths) (ground arith) in
      let (path, among, is_one) = any_front_sound g q ps some_path in
      let (rest, front, ends, size) = front_sound g q path is_one in
      record {
        target = ground arith;
        paths = ps;
        listed = listed;
        path = path;
        among = among;
        rest = rest;
        front = front;
        ends = ends;
        size = size;
      }

  recorded_complete :
      IsTargetPath dk (values paths) g q → recorded (organize_paths dk paths) g q ≡ true
  recorded_complete t =
      let is_one = front_complete g q t.path t.rest t.front t.ends t.size in
      let some_path =
        any_front_of_lists_complete g q (values paths) t.paths t.listed
          (any_front_complete g q t.paths t.path t.among is_one) in
      rw (recorded-organize_paths, t.target, some_path)

  -- A sequence is recorded as a path to `g` exactly when `g` is a target and the sequence is the
  -- front of one of the given paths that ends at `g` and is longer than the start function.
  pub recorded_iff :
      (recorded (organize_paths dk paths) g q ≡ true) ↔ IsTargetPath dk (values paths) g q
  recorded_iff = (recorded_sound, recorded_complete)
