-- ===== src/Strategy/Sequences/Next.antt =====
-- Which functions continue the given sequences.
use smart_executor.Paths.{Seq}
use smart_executor.Keys.{name_iff, Name}
use smart_executor.Augment.{longer}
use smart_executor.Strategy.Sequences.{next_functions, is_prefix}
use smart_executor.Prelude.{
  ◌==◌, eq_refl, list_beq_iff, nat_eq, list_eq, contains, ◌≡◌, refl, sym, ap, subst, ◌↔◌, inl, inr,
  true, false, ◌&&◌, List, [], ◌∷◌, ◌++◌, arith, ltb, Bool-cases, Option-cases, length, head?,
  get_elem?, length-append,
}

prefix_rest : (seq seq_ : Seq) → is_prefix seq seq_ ≡ true → (rest : Seq) × (seq_ ≡ seq ++ rest)
unfolding is_prefix
prefix_rest [] seq_ h = (seq_, refl)
prefix_rest (f ∷ seq) [] h = cc
prefix_rest (f ∷ seq) (g ∷ seq_) h =
    let (rest, e) = prefix_rest seq seq_ (ground arith) in
    let same : f ≡ g = (name_iff f g).0 (ground arith) in
    (rest, subst (λ x. x ∷ seq_ ≡ f ∷ (seq ++ rest)) same (ap (◌∷◌ f) e))

is_prefix-append : (seq rest : Seq) → is_prefix seq (seq ++ rest) ≡ true
unfolding is_prefix
is_prefix-append [] rest = refl
is_prefix-append (f ∷ seq) rest = ground (arith, eq_refl f, is_prefix-append seq rest)

get_elem?-append : (seq rest : Seq) → get_elem? (seq ++ rest) (length seq) ≡ head? rest
get_elem?-append [] [] = refl
get_elem?-append [] (f ∷ rest) = refl
get_elem?-append (f ∷ seq) rest = get_elem?-append seq rest

next_functions-append :
    (seq rest : Seq) (f : Name) (sequences : List Seq)
    → next_functions seq ((seq ++ (f ∷ rest)) ∷ sequences) ≡ f ∷ next_functions seq sequences
unfolding next_functions
next_functions-append seq rest f sequences =
    let long : ltb (length seq) (length (seq ++ (f ∷ rest))) ≡ true =
      ground (arith, length-append seq (f ∷ rest)) in
    rw (long, is_prefix-append seq (f ∷ rest), get_elem?-append seq (f ∷ rest)) refl

next_functions-whole :
    (seq : Seq) (sequences : List Seq)
    → next_functions seq ((seq ++ []) ∷ sequences) ≡ next_functions seq sequences
unfolding next_functions
next_functions-whole seq sequences =
    let short : ltb (length seq) (length (seq ++ [])) ≡ false =
      ground (arith, length-append seq []) in
    rw short refl

next_functions-other :
    (seq seq_ : Seq) (sequences : List Seq)
    → is_prefix seq seq_ ≡ false
    → next_functions seq (seq_ ∷ sequences) ≡ next_functions seq sequences
unfolding next_functions
next_functions-other seq seq_ sequences h = ground arith

-- One of the sequences goes on with the function.
pub record GoesOn (seq : Seq) (sequences : List Seq) (f : Name) : Type 0 where
  pub seq_ : Seq
  pub given : contains sequences seq_ ≡ true
  pub rest : Seq
  pub split : seq_ ≡ seq ++ (f ∷ rest)

later :
    {seq : Seq} {sequences : List Seq} {f : Name} (seq_ : Seq)
    → GoesOn seq sequences f
    → GoesOn seq (seq_ ∷ sequences) f
unfolding contains
later {sequences = sequences} seq_ g =
    let m = g.given in
    record { seq_ = g.seq_; given = ground arith; rest = g.rest; split = g.split }

-- A step over one sequence.
abbrev Sound : Seq → List Seq → Name → Type 0
Sound seq sequences f = contains (next_functions seq sequences) f ≡ true → GoesOn seq sequences f

next_step :
    (seq rest : Seq) (sequences : List Seq) (f : Name)
    → Sound seq sequences f
    → Sound seq ((seq ++ rest) ∷ sequences) f
unfolding contains
next_step seq [] sequences f ih h =
    later (seq ++ [])
      (ih (subst (λ fs. contains fs f ≡ true) (next_functions-whole seq sequences) h))
next_step seq (g ∷ rest) sequences f ih h =
    let h' = subst (λ fs. contains fs f ≡ true) (next_functions-append seq rest g sequences) h in
    elim (Bool-cases (g == f)) [
      | inl same ↦ record {
        seq_ = seq ++ (g ∷ rest);
        given = ground (arith, list_beq_iff (seq ++ (g ∷ rest)) (seq ++ (g ∷ rest)));
        rest = rest;
        split = ap (λ x. seq ++ (x ∷ rest)) ((name_iff g f).0 same);
      }
      | inr other ↦ later (seq ++ (g ∷ rest)) (ih (ground arith))
    ]

next-Sound : (seq : Seq) (sequences : List Seq) (f : Name) → Sound seq sequences f
unfolding next_functions contains
next-Sound seq [] f h = absurd (ground arith)
next-Sound seq (seq_ ∷ sequences) f h = elim (Bool-cases (is_prefix seq seq_)) [
  | inl prefix ↦
      let (rest, e) = prefix_rest seq seq_ prefix in
      subst (λ s. Sound seq (s ∷ sequences) f) (sym e)
        (next_step seq rest sequences f (next-Sound seq sequences f)) h
  | inr other ↦ later seq_ (
      next-Sound seq sequences f
        (subst (λ fs. contains fs f ≡ true) (next_functions-other seq seq_ sequences other) h))
]

keeps :
    (seq seq_ : Seq) (sequences : List Seq) (f : Name)
    → contains (next_functions seq sequences) f ≡ true
    → contains (next_functions seq (seq_ ∷ sequences)) f ≡ true
unfolding next_functions contains
keeps seq seq_ sequences f m =
    elim (Bool-cases (ltb (length seq) (length seq_) && is_prefix seq seq_)) [
      | inl longer ↦ elim (Option-cases (get_elem? seq_ (length seq))) [
        | inl e ↦ rw (longer, e) m
        | inr (g, e) ↦ rw (longer, e) (ground arith)
      ]
      | inr other ↦ rw other m
    ]

abbrev Complete : Seq → List Seq → Seq → Name → Type 0
Complete seq sequences rest f =
    contains sequences (seq ++ (f ∷ rest)) ≡ true → contains (next_functions seq sequences) f ≡ true

next-Complete :
    (seq : Seq) (sequences : List Seq) (rest : Seq) (f : Name) → Complete seq sequences rest f
unfolding next_functions contains
next-Complete seq [] rest f m = absurd (ground arith)
next-Complete seq (seq_ ∷ sequences) rest f m = elim (Bool-cases (seq_ == seq ++ (f ∷ rest))) [
  | inl same ↦
      let e = (list_beq_iff seq_ (seq ++ (f ∷ rest))).0 same in
      subst (λ s. contains (next_functions seq (s ∷ sequences)) f ≡ true) (sym e)
        (subst (λ fs. contains fs f ≡ true) (sym (next_functions-append seq rest f sequences))
          (ground (arith, eq_refl f)))
  | inr other ↦ elim (Bool-cases (is_prefix seq seq_)) [
    | inl prefix ↦ keeps seq seq_ sequences f (next-Complete seq sequences rest f (ground arith))
    | inr no_prefix ↦
        subst (λ fs. contains fs f ≡ true) (sym (next_functions-other seq seq_ sequences no_prefix))
          (next-Complete seq sequences rest f (ground arith))
  ]
]

-- The functions that are executed next on a state of a sequence are exactly those with which one of
-- the given sequences goes on.
pub next_functions_iff :
    (seq : Seq) (sequences : List Seq) (f : Name)
    → (contains (next_functions seq sequences) f ≡ true) ↔ GoesOn seq sequences f
next_functions_iff seq sequences f = (
  next-Sound seq sequences f,
  λ g.
      next-Complete seq sequences g.rest f
        (subst (λ s. contains sequences s ≡ true) g.split g.given),
)
