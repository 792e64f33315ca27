-- ===== src/Fwrg/Parents.antt =====
-- The reversed graph: which parents a function has.
use smart_executor.Keys.{Name, name_iff}
use smart_executor.Fwrg.{
  Slots, add_parent, scan_reads, scan_writers, parents_of, parents_from, get_parents_frwg, new_fwrg,
  generate_frwg, get_children,
}
use smart_executor.Fwrg.Edges.{
  overlaps, overlaps-nil, overlaps_sound, overlaps_complete, contains-get_children,
}
use smart_executor.Prelude.{
  ◌==◌, eq_refl, nat_eq, list_eq, contains-append, contains, Dict, has_key-eq, IsDict, entry,
  entry-insert, entry-cons, entry-eq-nil, lookup, ◌≡◌, refl, sym, ◌∙◌, subst, inl, inr, Bool, true,
  false, ◌&&◌, ◌||◌, List, [], ◌∷◌, ◌++◌, arith, Bool-cases, is_some,
}

-- Whether `f` stands among the parents of `g`.
abbrev has_parent : Name → Name → Dict Name (List Name) → Bool
has_parent g f frwg = contains (entry g frwg) f

has_parent-add_parent :
    (g f h k : Name) (frwg : Dict Name (List Name))
    → has_parent h k (add_parent g f frwg) ≡ has_parent h k frwg || g == h && f == k
unfolding add_parent contains
has_parent-add_parent g f h k frwg = ground (
  arith,
  entry-insert g h (entry g frwg ++ f ∷ []) frwg,
  entry-insert g h (f ∷ []) frwg,
  name_iff g h,
  name_iff f k,
  contains-append (entry h frwg) (f ∷ []) k,
  has_key-eq g frwg,
)

has_parent-scan_reads :
    (g f h k : Name) (writes reads : Slots) (frwg : Dict Name (List Name))
    → has_parent h k (scan_reads g f writes reads frwg)
      ≡ has_parent h k frwg || g == h && (f == k && overlaps reads writes)
unfolding scan_reads
has_parent-scan_reads g f h k writes [] frwg = ground arith
has_parent-scan_reads g f h k writes (r ∷ reads) frwg =
    ground
      (arith, has_parent-add_parent g f h k frwg, has_parent-scan_reads g f h k writes reads frwg)

has_parent-scan_writers :
    (g h k : Name) (reads : Slots) (writes : Dict Name Slots) (frwg : Dict Name (List Name))
    → IsDict writes
    → has_parent h k (scan_writers g reads writes frwg)
      ≡ has_parent h k frwg || g == h && overlaps reads (entry k writes)
unfolding scan_writers lookup
has_parent-scan_writers g h k reads [] frwg u = ground (arith, overlaps-nil reads)
has_parent-scan_writers g h k reads ((f, ws) ∷ writes) frwg u =
    let rest = has_parent-scan_writers g h k reads writes (scan_reads g f ws reads frwg) u.1 in
    elim (Bool-cases (f == k)) [
      | inl same ↦
          let gone = subst (λ j. is_some (lookup j writes) ≡ false) ((name_iff f k).0 same) u.0 in
          rw (entry-cons f k ws writes, rest)
            (ground (
              arith,
              has_parent-scan_reads g f h k ws reads frwg,
              entry-eq-nil k writes gone,
              overlaps-nil reads,
            ))
      | inr other ↦
          rw (entry-cons f k ws writes, rest)
            (ground (arith, has_parent-scan_reads g f h k ws reads frwg))
    ]

-- A function with no parent yet gets those that write some of its reads; the others keep theirs.
has_parent-parents_of :
    (g h k : Name) (reads : Slots) (writes : Dict Name Slots) (frwg : Dict Name (List Name))
    → IsDict writes
    → entry g frwg ≡ []
    → has_parent h k (parents_of g reads writes frwg)
      ≡ has_parent h k frwg || g == h && overlaps reads (entry k writes)
unfolding parents_of
has_parent-parents_of g h k [] writes frwg u new =
    ground (arith, entry-insert g h [] frwg, name_iff g h)
has_parent-parents_of g h k (r ∷ reads) writes frwg u new =
    has_parent-scan_writers g h k (r ∷ reads) writes frwg u

nil_of_no_member : (xs : List Name) → ((k : Name) → contains xs k ≡ false) → xs ≡ []
unfolding contains
nil_of_no_member [] none_in = refl
nil_of_no_member (x ∷ xs) none_in = absurd (ground (arith, none_in x, eq_refl x))

-- The functions that are still to come have no parents.
abbrev AreNew : Dict Name Slots → Dict Name (List Name) → Type 0
AreNew reads frwg = (j : Name) → is_some (lookup j reads) ≡ true → entry j frwg ≡ []

AreNew-parents_of :
    (g : Name) (r : Slots) (reads writes : Dict Name Slots) (frwg : Dict Name (List Name))
    → IsDict writes
    → is_some (lookup g reads) ≡ false
    → AreNew ((g, r) ∷ reads) frwg
    → AreNew reads (parents_of g r writes frwg)
unfolding lookup contains
AreNew-parents_of g r reads writes frwg u fresh new j later = nil_of_no_member _ λ k.
    elim (Bool-cases (g == j)) [
      | inl same ↦
          let gone = subst (λ i. is_some (lookup i reads) ≡ false) ((name_iff g j).0 same) fresh in
          absurd (ground arith)
      | inr other ↦
          let start = new g (ground (arith, name_iff g g)) in
          let later' : is_some (lookup j ((g, r) ∷ reads)) ≡ true = ground arith in
          let empty = new j later' in
          rw (has_parent-parents_of g j k r writes frwg u start) (ground arith)
    ]

has_parent-parents_from :
    (h k : Name) (reads writes : Dict Name Slots) (frwg : Dict Name (List Name))
    → IsDict reads
    → IsDict writes
    → AreNew reads frwg
    → has_parent h k (parents_from writes reads frwg)
      ≡ has_parent h k frwg || overlaps (entry h reads) (entry k writes)
unfolding parents_from lookup
has_parent-parents_from h k [] writes frwg ur uw new = ground arith
has_parent-parents_from h k ((g, r) ∷ reads) writes frwg ur uw new =
    let start = new g (ground (arith, name_iff g g)) in
    let first = has_parent-parents_of g h k r writes frwg uw start in
    let rest =
      has_parent-parents_from h k reads writes (parents_of g r writes frwg) ur.1 uw
        (AreNew-parents_of g r reads writes frwg uw ur.0 new) in
    elim (Bool-cases (g == h)) [
      | inl same ↦
          let gone = subst (λ i. is_some (lookup i reads) ≡ false) ((name_iff g h).0 same) ur.0 in
          rw (entry-cons g h r reads, rest, first) (ground (arith, entry-eq-nil h reads gone))
      | inr other ↦ rw (entry-cons g h r reads, rest, first) (ground arith)
    ]

overlaps_comm : (xs ys : Slots) → overlaps xs ys ≡ overlaps ys xs
overlaps_comm xs ys = elim (Bool-cases (overlaps xs ys)) [
  | inl h ↦ let (v, x, y) = overlaps_sound xs ys h in h ∙ sym (overlaps_complete ys xs v y x)
  | inr h ↦ elim (Bool-cases (overlaps ys xs)) [
    | inl h' ↦
        let (v, y, x) = overlaps_sound ys xs h' in ground (arith, overlaps_complete xs ys v x y)
    | inr h' ↦ h ∙ sym h'
  ]
]

-- For `dict`s of reads and of writes: `f` stands among the parents of `g` exactly when `g` stands
-- among the children of `f`. So the two graphs that the constructor builds by different loops are
-- the reverse of one another.
pub get_parents_frwg-get_children :
    (f g : Name) (reads writes : Dict Name Slots)
    → IsDict reads
    → IsDict writes
    → contains (get_parents_frwg (new_fwrg reads writes) g) f
      ≡ contains (get_children (new_fwrg reads writes).fwrg_dict f) g
unfolding get_parents_frwg new_fwrg generate_frwg lookup
get_parents_frwg-get_children f g reads writes ur uw =
    has_parent-parents_from g f reads writes [] ur uw (λ j _. refl)
    ∙ overlaps_comm (entry g reads) (entry f writes)
    ∙ sym (contains-get_children f g reads writes ur uw)
