-- ===== src/Fwrg.antt =====
-- The function write-read graph: class `FWRG` of fdg/fwrg_manager.py, and the graph over all reads
-- of its class `FWRG_manager`. A slot is the text that names a storage location.
pub mod Edges
pub mod Parents
pub mod Tests
use smart_executor.Keys.{Name}
use smart_executor.Prelude.{
  nat_eq, list_eq, contains, Dict, entry, lookup, insert, has_key, keys, append_at, none, some,
  List, ◌∷◌, ◌++◌, if◌then◌else◌, [],
}

abbrev pub Slots : Type 0
Slots = List Name

-- What a graph maps a function to: its children, each with the slots on the edge.
abbrev pub Children : Type 0
Children = Dict Name Slots

-- `for write in writes: if write in reads: …`, which adds `write` to the edge to `ftn_read`
unfoldable pub collect_writes : Name → Slots → Slots → Children → Children
unfolding contains append_at lookup insert
collect_writes ftn_read reads [] children = children
collect_writes ftn_read reads (write ∷ writes) children =
    collect_writes ftn_read reads writes
      (if contains reads write then append_at ftn_read write children else children)

-- `for ftn_read, reads in …items()`
unfoldable pub collect_children : Slots → Dict Name Slots → Children → Children
unfolding collect_writes
collect_children writes [] children = children
collect_children writes ((ftn_read, reads) ∷ items) children =
    collect_children writes items (collect_writes ftn_read reads writes children)

-- one round of the outer loop, over a function and its writes
unfoldable pub children_of : Slots → Dict Name Slots → Children
unfolding collect_children
children_of [] reads = []
children_of (write ∷ writes) reads = collect_children (write ∷ writes) reads []

graph_from : Dict Name Slots → Dict Name Slots → Dict Name Children → Dict Name Children
graph_from reads [] graph = graph
graph_from reads ((ftn, writes) ∷ items) graph =
    graph_from reads items (insert ftn (children_of writes reads) graph)

unfoldable pub generate_fwrg : Dict Name Slots → Dict Name Slots → Dict Name Children
unfolding graph_from children_of insert
generate_fwrg ftn_reads_in_condition ftn_writes = graph_from ftn_reads_in_condition ftn_writes []

unfoldable pub generate_graph_all_reads : Dict Name Slots → Dict Name Slots → Dict Name Children
unfolding graph_from children_of insert
generate_graph_all_reads writes all_reads = graph_from all_reads writes []

-- `ftn` has a new parent, unless it is there.
unfoldable pub add_parent : Name → Name → Dict Name (List Name) → Dict Name (List Name)
unfolding has_key insert contains lookup
add_parent ftn ftn_write frwg =
    if has_key ftn frwg
    then (if contains (entry ftn frwg) ftn_write
        then frwg
        else insert ftn (entry ftn frwg ++ ftn_write ∷ []) frwg)
    else insert ftn (ftn_write ∷ []) frwg

-- `for read in reads: if read in writes: …; break`
unfoldable pub scan_reads :
    Name → Name → Slots → Slots → Dict Name (List Name) → Dict Name (List Name)
unfolding contains add_parent
scan_reads ftn ftn_write writes [] frwg = frwg
scan_reads ftn ftn_write writes (read ∷ reads) frwg =
    if contains writes read
    then add_parent ftn ftn_write frwg
    else scan_reads ftn ftn_write writes reads frwg

-- `for ftn_write, writes in self.ftn_writes.items()`
unfoldable pub scan_writers :
    Name → Slots → Dict Name Slots → Dict Name (List Name) → Dict Name (List Name)
unfolding scan_reads
scan_writers ftn reads [] frwg = frwg
scan_writers ftn reads ((ftn_write, writes) ∷ items) frwg =
    scan_writers ftn reads items (scan_reads ftn ftn_write writes reads frwg)

-- one round of the outer loop. The empty `dict` that the source stores for a function without
-- reads is the empty list here.
unfoldable pub parents_of :
    Name → Slots → Dict Name Slots → Dict Name (List Name) → Dict Name (List Name)
unfolding scan_writers insert
parents_of ftn [] writes frwg = insert ftn [] frwg
parents_of ftn (read ∷ reads) writes frwg = scan_writers ftn (read ∷ reads) writes frwg

parents_from : Dict Name Slots → Dict Name Slots → Dict Name (List Name) → Dict Name (List Name)
parents_from writes [] frwg = frwg
parents_from writes ((ftn, reads) ∷ items) frwg =
    parents_from writes items (parents_of ftn reads writes frwg)

unfoldable pub generate_frwg : Dict Name Slots → Dict Name Slots → Dict Name (List Name)
unfolding parents_from parents_of
generate_frwg ftn_reads_in_condition ftn_writes = parents_from ftn_writes ftn_reads_in_condition []

pub record Fwrg : Type 0 where
  pub ftn_reads_in_condition : Dict Name Slots
  pub ftn_writes : Dict Name Slots
  pub fwrg_dict : Dict Name Children
  pub frwg_dict : Dict Name (List Name)

-- `FWRG.__init__`
unfoldable pub new_fwrg : Dict Name Slots → Dict Name Slots → Fwrg
unfolding generate_fwrg generate_frwg
new_fwrg reads writes = record {
  ftn_reads_in_condition = reads;
  ftn_writes = writes;
  fwrg_dict = generate_fwrg reads writes;
  frwg_dict = generate_frwg reads writes;
}

unfoldable pub get_reads_in_conditions : Fwrg → Name → Slots
unfolding lookup
get_reads_in_conditions fwrg ftn_name = entry ftn_name fwrg.ftn_reads_in_condition

-- the keys of the children that a graph has for a function: `get_children_fwrg` on `fwrg_dict`,
-- `get_children_all_reads` on `fwrg_all_reads`
unfoldable pub get_children : Dict Name Children → Name → List Name
unfolding lookup keys
get_children graph ftn = elim (lookup ftn graph) [ none ↦ [] | some children ↦ keys children ]

unfoldable pub get_parents_frwg : Fwrg → Name → List Name
unfolding lookup
get_parents_frwg fwrg ftn = entry ftn fwrg.frwg_dict
