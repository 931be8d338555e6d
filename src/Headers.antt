-- ===== src/Headers.antt =====
-- `std::map<std::string, std::string>`, as server/core/Request.hpp uses it for headers: sorted by
-- key, with an `operator[]` that adds a missing key.
pub mod Order
use zhttpd.Base.{
  Bytes, eq_bytes, lt_bytes, eq_bytes_iff, Option, none, some, List, [], ◌∷◌, map, ◌≡◌, refl, arith,
  if◌then◌else◌,
}

abbrev pub HeaderMap : Type 0
HeaderMap = List (Bytes × Bytes)

-- `m[key] = val`.
unfoldable pub insert : Bytes → Bytes → HeaderMap → HeaderMap
insert key val [] = (key, val) ∷ []
insert key val ((k, v) ∷ m) =
    if eq_bytes key k
    then (key, val) ∷ m
    else if lt_bytes key k
    then (key, val) ∷ (k, v) ∷ m
    else (k, v) ∷ insert key val m

-- `m.find(key)`.
unfoldable pub lookup : Bytes → HeaderMap → Option Bytes
lookup key [] = none
lookup key ((k, v) ∷ m) = if eq_bytes key k then some v else lookup key m

-- `getRequestHeader` and `getResponseHeader`: the value, and the map that a missing key joins.
unfoldable pub get_header : Bytes → HeaderMap → Bytes × HeaderMap
get_header key m = elim (lookup key m) [ none ↦ ([], insert key [] m) | some v ↦ (v, m) ]

-- `getRequestHeaderKeys` and `getResponseHeaderKeys`: in the order of the map.
unfoldable pub keys : HeaderMap → List Bytes
keys = map (λ e. e.0)

-- A lookup after a write.
pub lookup-insert :
    (key j val : Bytes) (m : HeaderMap)
    → lookup j (insert key val m) ≡ (if eq_bytes j key then some val else lookup j m)
unfolding lookup insert
lookup-insert key j val [] = refl
lookup-insert key j val ((k, v) ∷ m) =
    ground
      (arith, eq_bytes_iff j key, eq_bytes_iff key k, eq_bytes_iff j k, lookup-insert key j val m)

-- What a header's value is, a missing one being empty.
abbrev pub header_value : Option Bytes → Bytes
header_value none = []
header_value (some v) = v
