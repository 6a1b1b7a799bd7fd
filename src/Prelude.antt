-- ===== src/Prelude.antt =====
-- What the modules share: the names of the libraries, passed on, and those of the children, which
-- hold Boolean tests, lists over the native numbers, and the byte encodings of machine words.
mod Tests
mod Lists
mod Words
pub use Tests.*
pub use Lists.*
pub use Prim.Native.Nat.{ℕ, zero, suc, ◌+◌, ◌-◌, ◌*◌, ◌/◌, ◌%◌, ◌^◌, ◌≤◌, ◌<◌}
pub use mathlib.Core.Path.{◌≡◌, refl, sym, ap, ◌∙◌}
pub use mathlib.Core.Logic.{◌≢◌, ◌↔◌, ◌⊎◌, inl, inr}
pub use mathlib.Core.Bool.{Bool, true, false, not, ◌&&◌, ◌||◌}
pub use mathlib.Core.Option.{Option, none, some}
pub use mathlib.Core.List.{List, [], ◌∷◌, ◌++◌, map}
pub use native.Mathlib.Omega.{arith}
unfoldable pub use Words.{
  Bytes, to_le_16, to_le_32, to_le_64, to_be_64, from_le_16, from_le_32, from_le_64, from_be_64,
  sub_slice, slice_from, byte_at, bytes_eq,
}
pub use Words.{
  sub_slice-append, byte_at-append, slice_from-append, sub_slice-middle, from_le_16-to_le,
  from_le_32-to_le, from_le_64-to_le, from_be_64-to_be, bytes_eq_refl, eq_of-bytes_eq,
}
