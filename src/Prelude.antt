-- ===== src/Prelude.antt =====
-- The names that the other modules share: the libraries', passed on, and those of the children.
mod Tests
mod Lists
mod Texts
mod Maps
mod Evict
mod Stores
mod Sweep
mod Words
pub use Tests.*
pub use Lists.*
pub use Texts.*
pub use Texts.Fields.*
pub use Texts.Split.*
pub use Texts.Replace.*
pub use Texts.Literals.*
pub use Maps.*
pub use Evict.*
pub use Stores.*
pub use Sweep.*
pub use Words.*
unfoldable pub use Texts.{
  text_eq, show_nat, parse_uint, strip_prefix, starts_with, split_on, trim, split_whitespace, join,
  has_infix,
}
unfoldable pub use Texts.Literals.{all_values}
unfoldable pub use Texts.Split.{trim_end, split_once, splitn, read_lines}
unfoldable pub use Maps.{get, remove, insert, retain}
unfoldable pub use Evict.{evict}
unfoldable pub use Stores.{store}
unfoldable pub use Sweep.{keys_where, remove_all, sweep}
pub use Prim.Native.Nat.{ℕ, zero, suc, ◌+◌, ◌-◌, ◌*◌, ◌/◌, ◌%◌, ◌^◌, ◌≤◌, ◌<◌, min, max}
pub use mathlib.Core.Path.{◌≡◌, refl, sym, ap, ◌∙◌, subst}
pub use mathlib.Core.Logic.{◌≢◌, ◌↔◌, ◌⊎◌, inl, inr}
pub use mathlib.Core.Bool.{Bool, true, false, not, ◌&&◌, ◌||◌}
pub use mathlib.Core.Option.{Option, none, some}
pub use mathlib.Core.List.{List, [], ◌∷◌, ◌++◌, map, reverse, append-nil, append_assoc}
pub use native.Mathlib.Omega.{arith}
