-- ===== src/Prelude.antt =====
-- The names that the other modules share: the libraries', passed on, and those of the children.
mod Tests
mod Lists
mod Equality
mod Dicts
mod Options
pub use Options.{
  ◌>>=◌, maybe, prepend, bind_some, Gives, Gives-elim, Gives-map, Gives->>=, if-intro, maybe-intro,
  is_some-elim,
}
pub use Tests.*
pub use Lists.*
pub use Equality.{
  option_eq, option_beq_iff, Comparable, ◌==◌, eq_refl, list_beq_iff, nat_eq, list_eq,
  contains-append, contains-dedup, Nodup, contains-filter_by, All-of_contains, All-intro,
  Nodup-snoc, dedup-Nodup,
}
unfoldable pub use Equality.{list_beq, option_beq, contains, dedup, filter_by}
pub use Dicts.{
  All-insert, All-lookup, All-pop, Dict, lookup-insert, length-insert-new, length-insert-old,
  has_key-eq, contains-keys, IsDict, insert-IsDict, entry, entry-insert, entry-cons, entry-eq-nil,
}
unfoldable pub use Dicts.{lookup, insert, has_key, keys, values, pop, append_at}
pub use Prim.Native.Nat.{ℕ, zero, suc, ◌+◌, ◌-◌, ◌*◌, ◌/◌, ◌%◌, ◌^◌, ◌≤◌, ◌<◌}
pub use Prim.Native.String.{String}
pub use mathlib.Core.Path.{◌≡◌, refl, sym, ap, ◌∙◌, subst}
pub use mathlib.Core.Logic.{◌≢◌, ◌↔◌, ◌⊎◌, inl, inr}
pub use mathlib.Core.Bool.{Bool, true, false, ◌&&◌, ◌||◌, not}
pub use mathlib.Core.Option.{Option, none, some}
pub use mathlib.Core.List.{List, [], ◌∷◌, ◌++◌, map}
pub use native.Mathlib.Omega.{arith}
