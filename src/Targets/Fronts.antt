-- ===== src/Targets/Fronts.antt =====
-- Which sequences are the front of a path up to a given function.
use smart_executor.Prelude.{
  ◌==◌, eq_refl, list_beq_iff, contains, ◌+◌, ◌<◌, ◌≡◌, sym, ap, ◌∙◌, inl, inr, Bool, true, false,
  ◌&&◌, ◌||◌, some, List, [], ◌∷◌, ◌++◌, arith, ltb, Bool-cases, length, get_last?, drop_last,
  length-append, get_last?-snoc, drop_last-append, nat_eq, list_eq,
}
use mathlib.Core.List.{append_assoc}
use smart_executor.Paths.{Seq}
use smart_executor.Keys.{name_iff, Name}

-- `path` is the front of `before ++ after` up to an occurrence of `ftn` behind `before`, and not
-- the first function of the sequence.
abbrev pub is_front : Name → Seq → Seq → Seq → Bool
is_front ftn path before [] = false
is_front ftn path before (f ∷ after) =
    f == ftn && ltb 0 (length before) && before ++ f ∷ [] == path
    || is_front ftn path (before ++ f ∷ []) after

unfoldable pub any_front : Name → Seq → List Seq → Bool
any_front g q [] = false
any_front g q (path ∷ paths) = is_front g q [] path || any_front g q paths

unfoldable pub any_front_of_lists : Name → Seq → List (List Seq) → Bool
unfolding any_front
any_front_of_lists g q [] = false
any_front_of_lists g q (paths ∷ lists) = any_front g q paths || any_front_of_lists g q lists

-- What `is_front` finds.
record IsFront (g : Name) (q before after : Seq) : Type 0 where
  mid : Seq
  rest : Seq
  split : after ≡ mid ++ (g ∷ rest)
  front : q ≡ before ++ (mid ++ g ∷ [])
  size : 0 < length before + length mid

is_front_sound :
    (g : Name) (q before after : Seq) → is_front g q before after ≡ true → IsFront g q before after
is_front_sound g q before [] h = absurd (ground arith)
is_front_sound g q before (f ∷ after) h =
    elim (Bool-cases (f == g && ltb 0 (length before) && before ++ f ∷ [] == q)) [
      | inl now ↦ record {
        mid = [];
        rest = after;
        split = ap (λ x. x ∷ after) ((name_iff f g).0 (ground arith));
        front =
            sym ((list_beq_iff (before ++ f ∷ []) q).0 (ground arith))
            ∙ ap (λ x. before ++ x ∷ []) ((name_iff f g).0 (ground arith));
        size = ground arith;
      }
      | inr later ↦
          let found = is_front_sound g q (before ++ f ∷ []) after (ground arith) in
          record {
            mid = f ∷ found.mid;
            rest = found.rest;
            split = ap (◌∷◌ f) found.split;
            front = found.front ∙ append_assoc before (f ∷ []) _;
            size = omega arith;
          }
    ]

is_front_complete :
    (g : Name) (q before mid rest : Seq)
    → q ≡ before ++ (mid ++ g ∷ [])
    → 0 < length before + length mid
    → is_front g q before (mid ++ (g ∷ rest)) ≡ true
is_front_complete g q before [] rest e size =
    ground (arith, eq_refl g, list_beq_iff (before ++ g ∷ []) q)
is_front_complete g q before (f ∷ mid) rest e size =
    let later =
      is_front_complete g q (before ++ f ∷ []) mid rest
        (e ∙ sym (append_assoc before (f ∷ []) (mid ++ g ∷ [])))
        (omega (arith, length-append before (f ∷ []))) in
    ground arith

pub front_sound :
    (g : Name) (q path : Seq)
    → is_front g q [] path ≡ true
    → (rest : Seq) × (path ≡ q ++ rest) × (get_last? q ≡ some g) × (1 < length q)
front_sound g q path h =
    let f = is_front_sound g q [] path h in
    (
      f.rest,
      rw f.front (f.split ∙ sym (append_assoc f.mid (g ∷ []) f.rest)),
      rw f.front (get_last?-snoc f.mid g),
      rw f.front (let s = f.size in omega (arith, length-append f.mid (g ∷ []))),
    )

pub front_complete :
    (g : Name) (q path rest : Seq)
    → path ≡ q ++ rest
    → get_last? q ≡ some g
    → 1 < length q
    → is_front g q [] path ≡ true
front_complete g q path rest e l size =
    let whole = drop_last-append q l in
    let long = ap length whole in
    let there =
      is_front_complete g q [] (drop_last q) rest (sym whole)
        (omega (arith, length-append (drop_last q) (g ∷ []))) in
    rw (e, ← whole, append_assoc) (rw whole there)

pub any_front_sound :
    (g : Name) (q : Seq) (paths : List Seq)
    → any_front g q paths ≡ true
    → (path : Seq) × (contains paths path ≡ true) × (is_front g q [] path ≡ true)
unfolding any_front contains
any_front_sound g q [] h = absurd (ground arith)
any_front_sound g q (path ∷ paths) h = elim (Bool-cases (is_front g q [] path)) [
  | inl now ↦ (path, ground (arith, eq_refl path), now)
  | inr later ↦ let (p, m, f) = any_front_sound g q paths (ground arith) in (p, ground arith, f)
]

pub any_front_complete :
    (g : Name) (q : Seq) (paths : List Seq) (path : Seq)
    → contains paths path ≡ true
    → is_front g q [] path ≡ true
    → any_front g q paths ≡ true
unfolding any_front contains
any_front_complete g q [] path m f = absurd (ground arith)
any_front_complete g q (p ∷ paths) path m f =
    ground (arith, any_front_complete g q paths path, list_beq_iff p path)

pub any_front_of_lists_sound :
    (g : Name) (q : Seq) (lists : List (List Seq))
    → any_front_of_lists g q lists ≡ true
    → (paths : List Seq) × (contains lists paths ≡ true) × (any_front g q paths ≡ true)
unfolding any_front_of_lists contains
any_front_of_lists_sound g q [] h = absurd (ground arith)
any_front_of_lists_sound g q (paths ∷ lists) h = elim (Bool-cases (any_front g q paths)) [
  | inl now ↦ (paths, ground (arith, eq_refl paths), now)
  | inr later ↦
      let (p, m, f) = any_front_of_lists_sound g q lists (ground arith) in (p, ground arith, f)
]

pub any_front_of_lists_complete :
    (g : Name) (q : Seq) (lists : List (List Seq)) (paths : List Seq)
    → contains lists paths ≡ true
    → any_front g q paths ≡ true
    → any_front_of_lists g q lists ≡ true
unfolding any_front_of_lists contains
any_front_of_lists_complete g q [] paths m f = absurd (ground arith)
any_front_of_lists_complete g q (p ∷ lists) paths m f =
    ground (arith, any_front_of_lists_complete g q lists paths, list_beq_iff p paths)
