-- ===== src/Prelude.antt =====
-- The names that the modules of the development share: those of the libraries, passed on, and
-- those of the child modules.
mod Tests
mod Lists
mod Members
mod Maps
mod Sets
mod Sort
mod Entries
pub use Tests.*
pub use Lists.*
pub use Members.*
unfoldable pub use Maps.{lookup, insert, remove}
unfoldable pub use Sort.{insert_in, sort}
pub use Sort.{of_either, in_either, Memᴰ-of_sort, Memᴰ-sort, Climbs, Sorted, sort-Sorted}
unfoldable pub use Sets.{strip_prefix, member, add, delete}
pub use Sets.{member-add, member-delete, member-snoc, add_present, add_absent}
pub use Entries.{
  All-insert, All-remove, All-lookup, NoKey, Keyed, Keyed-insert, Keyed-remove, Found, Keyed-Found,
}
pub use Maps.{Map, lookup-insert, lookup-remove, map_laws}
pub use Prim.Native.Nat.{
  ℕ, zero, suc, ◌+◌, ◌-◌, ◌*◌, ◌/◌, ◌%◌, ◌^◌, ◌≤◌, ◌<◌, compare, Ordering, min, max,
}
pub use mathlib.Core.Path.{◌≡◌, refl, sym, ap, ◌∙◌, subst, fun_ext}
pub use mathlib.Core.Logic.{◌≢◌, ◌↔◌, ◌⊎◌, inl, inr}
pub use mathlib.Core.Bool.{Bool, true, false, not, ◌&&◌, ◌||◌}
pub use mathlib.Core.Option.{Option, none, some}
pub use mathlib.Core.List.{List, [], ◌∷◌, ◌++◌, map, Memᴰ}
pub use native.Mathlib.Omega.{arith}
