-- ===== src/Augment/Support.antt =====
-- What the added edges of a pair of sequences join.
use smart_executor.Keys.{Name}
use smart_executor.Paths.{Seq}
use smart_executor.Augment.{
  shorter, longer, Gap, or_else, scan_until, gap_edges, scan_element, scan_elements, last_gap,
  find_edges, end_edge, cross_edges, pair_edges, belong_relation, common_elements,
}
use smart_executor.Prelude.{
  ◌==◌, eq_refl, nat_eq, list_eq, contains, ◌≡◌, refl, subst, ◌⊎◌, inl, inr, true, false, Option,
  none, some, [], ◌∷◌, arith, ltb, if◌then◌else◌, Bool-cases, Option-cases, length, head?,
  get_last?, All, All-append, All-map,
}

-- The edge leads from one sequence to the other.
abbrev pub Joins : Seq → Seq → Name × Name → Type 0
Joins s1 s2 (f, t) =
    ((contains s1 f ≡ true) × (contains s2 t ≡ true))
    ⊎ ((contains s2 f ≡ true) × (contains s1 t ≡ true))

Joins-comm : (s1 s2 : Seq) (e : Name × Name) → Joins s1 s2 e → Joins s2 s1 e
Joins-comm s1 s2 (f, t) (inl h) = inr h
Joins-comm s1 s2 (f, t) (inr h) = inl h

-- The element, where it is there, is of the sequence.
abbrev OfSeq : Seq → Option Name → Type 0
OfSeq s none = Unit
OfSeq s (some e) = contains s e ≡ true

abbrev Within2 : Seq → Seq → Type 0
Within2 rest s = (e : Name) → contains rest e ≡ true → contains s e ≡ true

OfSeq-or_else :
    (s : Seq) (o : Option Name) (e : Name) → OfSeq s o → contains s e ≡ true → OfSeq s (or_else o e)
OfSeq-or_else s none e h m = m
OfSeq-or_else s (some t) e h m = h

record IsScan (s2 : Seq) (r : Option Name × Option Name × Seq) : Type 0 where
  t2 : OfSeq s2 r.0
  f2 : OfSeq s2 r.1
  rest : Within2 r.2 s2

scan_until-IsScan :
    (s2 : Seq) (e : Name) (rest2 : Seq) (t2 f2 : Option Name)
    → OfSeq s2 t2
    → OfSeq s2 f2
    → Within2 rest2 s2
    → IsScan s2 (scan_until e rest2 t2 f2)
unfolding scan_until contains
scan_until-IsScan s2 e [] t2 f2 ht hf hr = record { t2 = ht; f2 = hf; rest = hr }
scan_until-IsScan s2 e (x ∷ rest2) t2 f2 ht hf hr =
    let tail : Within2 rest2 s2 = λ y m. hr y (ground arith) in
    let here = hr x (ground (arith, eq_refl x)) in
    elim (Bool-cases (x == e)) [
      | inl same ↦ rw same (record { t2 = ht; f2 = hf; rest = tail })
      | inr other ↦ rw other (
          scan_until-IsScan s2 e rest2 (or_else t2 x) (some x) (OfSeq-or_else s2 t2 x ht here) here
            tail)
    ]

gap_edges-Joins :
    (s1 s2 : Seq) (t1 f1 t2 f2 : Option Name)
    → OfSeq s1 t1
    → OfSeq s1 f1
    → OfSeq s2 t2
    → OfSeq s2 f2
    → All (Joins s1 s2) (gap_edges t1 f1 t2 f2)
unfolding gap_edges
gap_edges-Joins s1 s2 (some t1) (some f1) (some t2) (some f2) a b c d =
    (inr (d, a), (inl (b, c), tt))
gap_edges-Joins s1 s2 none f1 t2 f2 a b c d = tt
gap_edges-Joins s1 s2 (some t1) none t2 f2 a b c d = tt
gap_edges-Joins s1 s2 (some t1) (some f1) none f2 a b c d = tt
gap_edges-Joins s1 s2 (some t1) (some f1) (some t2) none a b c d = tt

record IsGap (s1 s2 : Seq) (gap : Gap) : Type 0 where
  t1 : OfSeq s1 gap.t1
  f1 : OfSeq s1 gap.f1
  rest2 : Within2 gap.rest2 s2
  edges : All (Joins s1 s2) gap.edges

scan_element-IsGap :
    (s1 s2 common : Seq) (e : Name) (gap : Gap)
    → contains s1 e ≡ true
    → IsGap s1 s2 gap
    → IsGap s1 s2 (scan_element common e gap)
unfolding scan_element
scan_element-IsGap s1 s2 common e gap m h =
    let r = scan_until e gap.rest2 none none in
    let scan = scan_until-IsScan s2 e gap.rest2 none none tt tt h.rest2 in
    elim (Bool-cases (contains common e)) [
      | inl old ↦ rw old (record {
        t1 = tt;
        f1 = tt;
        rest2 = scan.rest;
        edges =
            All-append (Joins s1 s2) gap.edges _ h.edges
              (gap_edges-Joins s1 s2 gap.t1 gap.f1 r.0 r.1 h.t1 h.f1 scan.t2 scan.f2);
      })
      | inr new ↦ rw new (record {
        t1 = OfSeq-or_else s1 gap.t1 e h.t1 m;
        f1 = m;
        rest2 = h.rest2;
        edges = h.edges;
      })
    ]

scan_elements-IsGap :
    (s1 s2 common es : Seq) (gap : Gap)
    → Within2 es s1
    → IsGap s1 s2 gap
    → IsGap s1 s2 (scan_elements common es gap)
unfolding scan_elements contains
scan_elements-IsGap s1 s2 common [] gap sub h = h
scan_elements-IsGap s1 s2 common (e ∷ es) gap sub h =
    scan_elements-IsGap s1 s2 common es (scan_element common e gap) (λ y m. sub y (ground arith))
      (scan_element-IsGap s1 s2 common e gap (sub e (ground (arith, eq_refl e))) h)

last_gap-Joins :
    (s1 s2 : Seq) (e : Name) (gap : Gap) → IsGap s1 s2 gap → All (Joins s1 s2) (last_gap e gap)
unfolding last_gap
last_gap-Joins s1 s2 e gap h =
    let r = scan_until e gap.rest2 none none in
    let scan = scan_until-IsScan s2 e gap.rest2 none none tt tt h.rest2 in
    All-append (Joins s1 s2) gap.edges _ h.edges
      (gap_edges-Joins s1 s2 gap.t1 gap.f1 r.0 r.1 h.t1 h.f1 scan.t2 scan.f2)

find_edges-Joins :
    (seq1 seq2 common : Seq)
    → All (Joins (shorter seq1 seq2) (longer seq1 seq2)) (find_edges seq1 seq2 common)
unfolding find_edges
find_edges-Joins seq1 seq2 common =
    let s1 = shorter seq1 seq2 in
    let s2 = longer seq1 seq2 in
    let start : Gap = record { t1 = none; f1 = none; rest2 = s2; edges = [] } in
    let gap = scan_elements common s1 start in
    let h =
      scan_elements-IsGap s1 s2 common s1 start (λ y m. m)
        (record { t1 = tt; f1 = tt; rest2 = λ y m. m; edges = tt }) in
    elim (Option-cases (get_last? s1)) [
      | inl e ↦ rw (e, find_edges) h.edges
      | inr (x, e) ↦ rw (e, find_edges) (last_gap-Joins s1 s2 x gap h)
    ]

end_edge-Joins :
    (s1 s2 : Seq) (f t : Option Name) → OfSeq s1 f → OfSeq s2 t → All (Joins s1 s2) (end_edge f t)
unfolding end_edge
end_edge-Joins s1 s2 (some f) (some t) a b = (inl (a, b), tt)
end_edge-Joins s1 s2 none t a b = tt
end_edge-Joins s1 s2 (some f) none a b = tt

OfSeq-head? : (s : Seq) → OfSeq s (head? s)
unfolding contains
OfSeq-head? [] = tt
OfSeq-head? (x ∷ s) = ground (arith, eq_refl x)

OfSeq-get_last? : (s : Seq) → OfSeq s (get_last? s)
unfolding contains
OfSeq-get_last? [] = tt
OfSeq-get_last? (x ∷ []) = ground (arith, eq_refl x)
OfSeq-get_last? (x ∷ y ∷ s) = weaken x (get_last? (y ∷ s)) (OfSeq-get_last? (y ∷ s))
  where
    weaken : (x : Name) (o : Option Name) → OfSeq (y ∷ s) o → OfSeq (x ∷ y ∷ s) o
    weaken x none h = tt
    weaken x (some e) h = ground arith

cross_edges-Joins : (s1 s2 : Seq) → All (Joins s1 s2) (cross_edges s1 s2)
unfolding cross_edges
cross_edges-Joins s1 s2 =
    All-append (Joins s1 s2) (end_edge (get_last? s1) (head? s2)) _
      (end_edge-Joins s1 s2 (get_last? s1) (head? s2) (OfSeq-get_last? s1) (OfSeq-head? s2))
      (All-map (Joins s2 s1) _ (λ e. Joins-comm s2 s1 e)
        (end_edge-Joins s2 s1 (get_last? s2) (head? s1) (OfSeq-get_last? s2) (OfSeq-head? s1)))

Joins-ordered :
    (s1 s2 : Seq) (e : Name × Name) → Joins (shorter s1 s2) (longer s1 s2) e → Joins s1 s2 e
Joins-ordered s1 s2 e h = elim (Bool-cases (ltb (length s2) (length s1))) [
  | inl swapped ↦
      Joins-comm s2 s1 e
        (subst (λ b. Joins (if b then s2 else s1) (if b then s1 else s2) e) swapped h)
  | inr kept ↦ subst (λ b. Joins (if b then s2 else s1) (if b then s1 else s2) e) kept h
]

-- An edge that a pair of sequences adds joins the two, which do not belong to one another.
pub pair_edges-Joins :
    (s1 s2 : Seq) → All (λ e. (belong_relation s1 s2 ≡ false) × Joins s1 s2 e) (pair_edges s1 s2)
unfolding pair_edges
pair_edges-Joins s1 s2 = elim (Bool-cases (belong_relation s1 s2)) [
  | inl belongs ↦ rw belongs tt
  | inr apart ↦ elim (Bool-cases (ltb 0 (length (common_elements s1 s2)))) [
    | inl common ↦
        rw (apart, common)
          (All-map (Joins (shorter s1 s2) (longer s1 s2)) _ (λ e h. (refl, Joins-ordered s1 s2 e h))
            (find_edges-Joins s1 s2 (common_elements s1 s2)))
    | inr distinct ↦
        rw (apart, distinct) (All-map (Joins s1 s2) _ (λ e h. (refl, h)) (cross_edges-Joins s1 s2))
  ]
]
