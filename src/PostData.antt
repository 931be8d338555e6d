-- ===== src/PostData.antt =====
-- server/modules/common/PostData.hpp: the fields of a form that a request sends.
pub mod Decoding
pub mod Forms
use zhttpd.Base.{
  ℕ, zero, suc, ◌+◌, ◌-◌, ◌*◌, ◌/◌, ◌%◌, ◌<◌, Bool, true, false, not, ◌&&◌, ◌||◌, Bytes, codes,
  eq_bytes, List, [], ◌∷◌, ◌++◌, Option, none, some, ltb, leb, ◌==◌, is_empty, if◌then◌else◌, All,
  ◌≡◌, refl, sym, ap, ◌∙◌, arith, append_assoc, append-nil, Bool-cases, inl, inr, drop,
}
use zhttpd.Api.{Buffer}

-- `IS_HEX` and `HEX_TO_DEC`.
abbrev pub is_hex : ℕ → Bool
is_hex c = (leb b'0' c && leb c b'9') || (leb b'a' c && leb c b'f') || (leb b'A' c && leb c b'F')

abbrev pub hex_to_dec : ℕ → ℕ
hex_to_dec c =
    if leb b'0' c && leb c b'9'
    then c - 48
    else if leb b'a' c && leb c b'f'
    then c - 87
    else if leb b'A' c && leb c b'F'
    then c - 55
    else b'%'

-- What `_readChar` adds for a byte that starts no escape.
abbrev pub plain_char : ℕ → Bytes
plain_char c = if c == 0 then codes "\\0" else if c == b'+' then b' ' ∷ [] else c ∷ []

-- A loop of `prepare`: `_readChar`, up to a byte that stops it or to the end of the buffer. An
-- escape that the end of the buffer cuts is read as it stands.
unfoldable pub read_text : (ℕ → Bool) → Bytes → Bytes → Bytes × Bytes
read_text stops s [] = (s, [])
read_text stops s (c ∷ []) = if stops c then (s, c ∷ []) else read_text stops (s ++ plain_char c) []
read_text stops s (c ∷ a ∷ []) =
    let next = read_text stops (s ++ plain_char c) (a ∷ []) in
    if stops c then (s, c ∷ a ∷ []) else next
read_text stops s (c ∷ a ∷ b ∷ cs) =
    let next = read_text stops (s ++ plain_char c) (a ∷ b ∷ cs) in
    let escaped = read_text stops (s ++ (hex_to_dec a * 16 + hex_to_dec b) ∷ []) cs in
    if stops c
    then (s, c ∷ a ∷ b ∷ cs)
    else if c == b'%' && is_hex a && is_hex b
    then escaped
    else next

abbrev pub Fields : Type 0
Fields = List (Bytes × List Bytes)

-- `fields[key].push_back(value)`, in the order of the first writes.
unfoldable pub push_field : Bytes → Bytes → Fields → Fields
push_field key value [] = (key, value ∷ []) ∷ []
push_field key value ((k, vs) ∷ m) =
    if eq_bytes key k then (k, vs ++ value ∷ []) ∷ m else (k, vs) ∷ push_field key value m

-- The variables of `prepare`.
pub record Reading : Type 0 where
  pub key : Bytes
  pub value : Bytes
  pub read_key : Bool
  pub fields : Fields

abbrev pub ends_key : ℕ → Bool
ends_key c = c == b'=' || c == b'&'

abbrev pub ends_value : ℕ → Bool
ends_value c = c == b'&'

abbrev pub starts_with : ℕ → Bytes → Bool
starts_with c [] = false
starts_with c (d ∷ ds) = d == c

-- The first part of the loop over a buffer: the key.
unfoldable pub take_key : Reading → Bytes → Reading × Bytes
unfolding read_text
take_key st rest =
    let (key, left) = read_text ends_key st.key rest in
    if st.read_key
    then (record st { key = key; read_key = not (starts_with b'&' left) }, left)
    else (st, rest)

-- The second part: the value.
unfoldable pub take_value : Reading → Bytes → Reading × Bytes
unfolding read_text
take_value st rest =
    let (value, left) = read_text ends_value st.value (drop 1 rest) in
    if starts_with b'=' rest
    then (record st { value = value; read_key = st.read_key || not (is_empty left) }, drop 1 left)
    else (st, rest)

unfoldable pub store : Reading → Reading
unfolding push_field
store st = record st { key = []; value = []; fields = push_field st.key st.value st.fields }

-- One turn of the loop.
unfoldable pub read_field : Reading → Bytes → Reading × Bytes
unfolding take_key take_value store
read_field st rest =
    let (st1, rest1) = take_key st rest in
    let (st2, rest2) = take_value st1 rest1 in
    if st2.read_key && not (is_empty rest2) then (store st2, rest2) else (st2, rest2)

-- The loop over a buffer, with a bound on its turns; `none` where it takes more.
unfoldable pub read_fields : ℕ → Reading → Bytes → Option Reading
unfolding read_field
read_fields turns st [] = some st
read_fields zero st (c ∷ cs) = none
read_fields (suc turns) st (c ∷ cs) =
    let (next, rest) = read_field st (c ∷ cs) in read_fields turns next rest

-- `prepare` on the contents of the buffers, with the bound for each.
unfoldable pub prepare : ℕ → Reading → List Bytes → Option Fields
unfolding read_fields store
prepare turns st [] = some st.fields
prepare turns st (bytes ∷ more) = elim (read_fields turns st bytes) [
  | none ↦ none
  | some next ↦
      prepare turns (if next.read_key && not (is_empty next.key) then store next else next) more
]

abbrev pub at_start : Reading
at_start = record { key = []; value = []; read_key = true; fields = [] }
