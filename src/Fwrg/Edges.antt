-- ===== src/Fwrg/Edges.antt =====
-- Which edges the write-read graph has.
use smart_executor.Keys.{Name, name_iff}
use smart_executor.Fwrg.{
  Slots, Children, collect_writes, collect_children, children_of, graph_from, generate_fwrg,
  generate_graph_all_reads, get_children,
}
use smart_executor.Prelude.{
  ◌==◌, nat_eq, list_eq, contains, filter_by, Dict, lookup-insert, contains-keys, IsDict, entry,
  lookup, insert, append_at, ◌≡◌, refl, ap, ◌∙◌, subst, ◌↔◌, inl, inr, Bool, true, false, ◌||◌,
  Option, none, some, [], ◌∷◌, ◌++◌, arith, if◌then◌else◌, Bool-cases, Option-cases, is_some,
}
use mathlib.Core.List.{append_assoc}

-- The written slots that are read, in the order of the writes and as often.
abbrev pub shared : Slots → Slots → Slots
shared writes reads = filter_by (contains reads) writes

-- What adding the slots to an edge makes of it: an edge is there once it has a slot.
abbrev pub extend : Option Slots → Slots → Option Slots
extend o [] = o
extend none (slot ∷ slots) = some (slot ∷ slots)
extend (some old) (slot ∷ slots) = some (old ++ (slot ∷ slots))

extend-cons :
    (o : Option Slots) (slot : Name) (slots : Slots)
    → extend (extend o (slot ∷ [])) slots ≡ extend o (slot ∷ slots)
extend-cons none slot [] = refl
extend-cons none slot (x ∷ slots) = refl
extend-cons (some old) slot [] = refl
extend-cons (some old) slot (x ∷ slots) = ap some (append_assoc old (slot ∷ []) (x ∷ slots))

lookup-append_at :
    (g h : Name) (slot : Name) (d : Children)
    → lookup h (append_at g slot d)
      ≡ (if g == h then extend (lookup h d) (slot ∷ []) else lookup h d)
unfolding append_at
lookup-append_at g h slot d = ground (
  arith,
  lookup-insert g h (slot ∷ []) d,
  lookup-insert g h (entry g d ++ slot ∷ []) d,
  name_iff g h,
)

lookup-collect_writes :
    (g h : Name) (reads writes : Slots) (d : Children)
    → lookup h (collect_writes g reads writes d)
      ≡ (if g == h then extend (lookup h d) (shared writes reads) else lookup h d)
unfolding collect_writes filter_by
lookup-collect_writes g h reads [] d = ground arith
lookup-collect_writes g h reads (w ∷ writes) d = elim (Bool-cases (contains reads w)) [
  | inl read ↦
      rw (read, lookup-collect_writes g h reads writes (append_at g w d), lookup-append_at g h w d)
        (ground (arith, extend-cons (lookup h d) w (shared writes reads)))
  | inr not_read ↦ rw (not_read, lookup-collect_writes g h reads writes d)
]

shared-nil : (writes : Slots) → shared writes [] ≡ []
unfolding filter_by contains
shared-nil [] = refl
shared-nil (w ∷ writes) = shared-nil writes

shared_missing :
    (h : Name) (writes : Slots) (reads : Dict Name Slots)
    → is_some (lookup h reads) ≡ false
    → shared writes (entry h reads) ≡ []
shared_missing h writes reads missing = elim (Option-cases (lookup h reads)) [
  | inl e ↦ rw (e, entry) (shared-nil writes)
  | inr (r, e) ↦ absurd (ground arith)
]

lookup-collect_children :
    (h : Name) (writes : Slots) (reads : Dict Name Slots) (d : Children)
    → IsDict reads
    → lookup h (collect_children writes reads d)
      ≡ extend (lookup h d) (shared writes (entry h reads))
unfolding collect_children lookup
lookup-collect_children h writes [] d u = rw (shared-nil writes)
lookup-collect_children h writes ((g, r) ∷ reads) d u =
    let rest = lookup-collect_children h writes reads (collect_writes g r writes d) u.1 in
    let first = lookup-collect_writes g h r writes d in
    elim (Bool-cases (g == h)) [
      | inl same ↦
          let gone =
            shared_missing h writes reads
              (subst (λ k. is_some (lookup k reads) ≡ false) ((name_iff g h).0 same) u.0) in
          rw (rest, gone, first) (ground arith)
      | inr other ↦ rw (rest, first) (ground arith)
    ]

pub lookup-children_of :
    (h : Name) (writes : Slots) (reads : Dict Name Slots)
    → IsDict reads
    → lookup h (children_of writes reads) ≡ extend none (shared writes (entry h reads))
unfolding children_of lookup filter_by
lookup-children_of h [] reads u = refl
lookup-children_of h (w ∷ writes) reads u = lookup-collect_children h (w ∷ writes) reads [] u

-- What a function's row of the graph is, when it is there already or is made from its writes.
abbrev row : Option Children → Option Slots → Dict Name Slots → Option Children
row old none reads = old
row old (some ws) reads = some (children_of ws reads)

lookup-graph_from :
    (f : Name) (reads writes : Dict Name Slots) (graph : Dict Name Children)
    → IsDict writes
    → lookup f (graph_from reads writes graph) ≡ row (lookup f graph) (lookup f writes) reads
unfolding graph_from lookup
lookup-graph_from f reads [] graph u = refl
lookup-graph_from f reads ((g, ws) ∷ writes) graph u =
    let rest = lookup-graph_from f reads writes (insert g (children_of ws reads) graph) u.1 in
    let missing : g ≡ f → is_some (lookup f writes) ≡ false =
      λ e. subst (λ k. is_some (lookup k writes) ≡ false) e u.0 in
    rw rest (ground (arith, name_iff g f, lookup-insert g f (children_of ws reads) graph, missing))

-- The slots that a graph has on the edge from `f` to `g`, if it has that edge.
abbrev pub edge : Dict Name Children → Name → Name → Option Slots
edge graph f g = elim (lookup f graph) [ none ↦ none | some children ↦ lookup g children ]

-- For `dict`s of writes and of reads: the slots that the graph has on the edge from `f` to `g` are
-- those that `f` writes and `g` reads in conditions, in the order of the writes and as often, and
-- the edge is missing where there is no such slot.
pub edge-generate_fwrg :
    (f g : Name) (reads writes : Dict Name Slots)
    → IsDict reads
    → IsDict writes
    → edge (generate_fwrg reads writes) f g ≡ extend none (shared (entry f writes) (entry g reads))
unfolding generate_fwrg lookup
edge-generate_fwrg f g reads writes ur uw =
    rw (lookup-graph_from f reads writes [] uw, edge)
      (elim (Option-cases (lookup f writes)) [
        | inl e ↦ rw (e, entry) (unfold filter_by in refl)
        | inr (ws, e) ↦ rw (e, entry) (lookup-children_of g ws reads ur)
      ])

-- the same for the graph over all the reads of the functions
pub edge-generate_graph_all_reads :
    (f g : Name) (writes all_reads : Dict Name Slots)
    → IsDict all_reads
    → IsDict writes
    → edge (generate_graph_all_reads writes all_reads) f g
      ≡ extend none (shared (entry f writes) (entry g all_reads))
unfolding generate_graph_all_reads generate_fwrg
edge-generate_graph_all_reads f g writes all_reads ur uw =
    edge-generate_fwrg f g all_reads writes ur uw

-- Whether some slot is in both lists.
abbrev pub overlaps : Slots → Slots → Bool
overlaps [] reads = false
overlaps (w ∷ writes) reads = contains reads w || overlaps writes reads

is_some-extend :
    (writes reads : Slots) → is_some (extend none (shared writes reads)) ≡ overlaps writes reads
unfolding filter_by
is_some-extend [] reads = refl
is_some-extend (w ∷ writes) reads = ground (arith, is_some-extend writes reads)

pub overlaps-nil : (writes : Slots) → overlaps writes [] ≡ false
unfolding contains
overlaps-nil [] = refl
overlaps-nil (w ∷ writes) = overlaps-nil writes

pub overlaps_sound :
    (writes reads : Slots)
    → overlaps writes reads ≡ true
    → (v : Name) × (contains writes v ≡ true) × (contains reads v ≡ true)
unfolding contains
overlaps_sound [] reads h = absurd (ground arith)
overlaps_sound (w ∷ writes) reads h = elim (Bool-cases (contains reads w)) [
  | inl read ↦ (w, ground (arith, name_iff w w), read)
  | inr not_read ↦
      let (v, written, read) = overlaps_sound writes reads (ground arith) in (v, ground arith, read)
]

pub overlaps_complete :
    (writes reads : Slots) (v : Name)
    → contains writes v ≡ true
    → contains reads v ≡ true
    → overlaps writes reads ≡ true
unfolding contains
overlaps_complete [] reads v hw hr = absurd (ground arith)
overlaps_complete (w ∷ writes) reads v hw hr =
    ground (arith, name_iff w v, overlaps_complete writes reads v)

get_children-eq :
    (graph : Dict Name Children) (f g : Name)
    → contains (get_children graph f) g ≡ is_some (edge graph f g)
unfolding get_children contains
get_children-eq graph f g = elim (Option-cases (lookup f graph)) [
  | inl e ↦ rw (e, edge, get_children)
  | inr (children, e) ↦ rw (e, edge, get_children) (contains-keys g children)
]

pub contains-get_children :
    (f g : Name) (reads writes : Dict Name Slots)
    → IsDict reads
    → IsDict writes
    → contains (get_children (generate_fwrg reads writes) f) g
      ≡ overlaps (entry f writes) (entry g reads)
contains-get_children f g reads writes ur uw =
    get_children-eq (generate_fwrg reads writes) f g
    ∙ ap is_some (edge-generate_fwrg f g reads writes ur uw)
    ∙ is_some-extend (entry f writes) (entry g reads)

-- For `dict`s of writes and of reads: `g` is a child of `f` in the graph exactly when some slot is
-- written by `f` and read by `g` in a condition.
pub get_children_iff :
    (f g : Name) (reads writes : Dict Name Slots)
    → IsDict reads
    → IsDict writes
    → (contains (get_children (generate_fwrg reads writes) f) g ≡ true)
      ↔ ((v : Name) × (contains (entry f writes) v ≡ true) × (contains (entry g reads) v ≡ true))
get_children_iff f g reads writes ur uw = rw (contains-get_children f g reads writes ur uw) (
  overlaps_sound (entry f writes) (entry g reads),
  λ (v, written, read). overlaps_complete (entry f writes) (entry g reads) v written read,
)
