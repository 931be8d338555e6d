-- ===== src/Base.antt =====
-- The names that the other modules share: the libraries', passed on, and those of the children.
mod Tests
mod Lists
mod Text
mod Numbers
mod Sets
mod Results
mod Occurrences
pub use Occurrences.*
pub use Tests.{
  ltb, leb, ◌==◌, if◌then◌else◌, ltb→lt, lt→ltb, leb→le, le→ltb_false, ==_iff, Bool-cases,
  Option-cases,
}
pub use Lists.*
pub use Results.{
  ◌>>=◌, bind-eq-some, OnSome, OnSome-bind, OnSome-if, OnSome-map, OnSome-always, OnSome-eq, Gives,
  Gives-bind, Gives-map, Gives-at,
}
pub use Sets.{
  member, update, Distinct, member-append, member-insert, member-apart, Distinct-append,
  Distinct-insert, member-insert_all, Distinct-insert_all, member-erase, Distinct-erase,
  member-erase_same, at_place, elsewhere,
}
unfoldable pub use Sets.{insert, erase, insert_all}
pub use Text.{Bytes, codes, eq_bytes_iff, eq_bytes_refl}
unfoldable pub use Numbers.{read_unsigned}
pub use Numbers.{is_digit}
unfoldable pub use Text.{eq_bytes, lt_bytes}
pub use Prim.Native.Nat.{ℕ, zero, suc, ◌+◌, ◌-◌, ◌*◌, ◌/◌, ◌%◌, ◌^◌, ◌≤◌, ◌<◌, min}
pub use mathlib.Core.Path.{◌≡◌, refl, sym, ap, ◌∙◌}
pub use mathlib.Core.Logic.{◌≢◌, ◌↔◌, ◌⊎◌, inl, inr}
pub use mathlib.Core.Bool.{Bool, true, false, not, ◌&&◌, ◌||◌}
pub use mathlib.Core.Option.{Option, none, some}
pub use mathlib.Core.List.{List, [], ◌∷◌, ◌++◌, map, append-nil, append_assoc}
pub use native.Mathlib.Omega.{arith}
unfoldable pub use native.Mathlib.Decide.{dec_lt, dec_le, ℕ_discrete}
