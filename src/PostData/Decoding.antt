-- ===== src/PostData/Decoding.antt =====
-- server/modules/common/PostData.hpp: what the loops make of a text, and where they do not end.
use zhttpd.Base.{
  ℕ, zero, suc, ◌+◌, ◌*◌, ◌/◌, ◌%◌, ◌<◌, Bool, true, false, not, ◌&&◌, Bytes, [], ◌∷◌, ◌++◌, none,
  ltb, ◌==◌, is_empty, if◌then◌else◌, All, ◌≡◌, refl, sym, ap, ◌∙◌, arith, append_assoc, append-nil,
  Bool-cases, inl, inr, ◌⊎◌,
}
use zhttpd.PostData.{
  is_hex, hex_to_dec, read_text, ends_key, starts_with, Reading, take_key, take_value, store,
  read_field, read_fields,
}

-- The digits in which a client escapes a byte.
abbrev pub hex_digit : ℕ → ℕ
hex_digit d = if ltb d 10 then 48 + d else 55 + d

-- The escaped form of a text, in which a client may leave some bytes as they are.
abbrev pub escape : (ℕ → Bool) → Bytes → Bytes
escape keeps [] = []
escape keeps (c ∷ cs) =
    if keeps c
    then c ∷ escape keeps cs
    else b'%' ∷ hex_digit (c / 16) ∷ hex_digit (c % 16) ∷ escape keeps cs

-- Bytes that stand for themselves.
abbrev pub IsPlain : (ℕ → Bool) → ℕ → Type 0
IsPlain stops c =
    (stops c ≡ false) × ((c == 0) ≡ false) × ((c == b'+') ≡ false) × ((c == b'%') ≡ false)

-- A text at which a loop stops.
abbrev pub Stops : (ℕ → Bool) → Bytes → Type 0
Stops stops [] = Unit
Stops stops (c ∷ cs) = stops c ≡ true

is_hex-hex_digit : (d : ℕ) → d < 16 → is_hex (hex_digit d) ≡ true
is_hex-hex_digit d h = ground arith

hex_to_dec-hex_digit : (d : ℕ) → d < 16 → hex_to_dec (hex_digit d) ≡ d
hex_to_dec-hex_digit d h = ground arith

module _ (stops : ℕ → Bool) where
  read_text-Stops : (s rest : Bytes) → Stops stops rest → read_text stops s rest ≡ (s, rest)
  unfolding read_text
  read_text-Stops s [] h = refl
  read_text-Stops s (c ∷ []) h = ground arith
  read_text-Stops s (c ∷ a ∷ []) h = ground arith
  read_text-Stops s (c ∷ a ∷ b ∷ cs) h = ground arith

  read_text-plain :
      (s : Bytes) (c : ℕ) (t : Bytes)
      → IsPlain stops c
      → read_text stops s (c ∷ t) ≡ read_text stops (s ++ c ∷ []) t
  unfolding read_text
  read_text-plain s c [] (h, z, p, q) = ground arith
  read_text-plain s c (a ∷ []) (h, z, p, q) = ground arith
  read_text-plain s c (a ∷ b ∷ t) (h, z, p, q) = ground arith

  read_text-hex :
      (s : Bytes) (a b : ℕ) (t : Bytes)
      → stops b'%' ≡ false
      → is_hex a ≡ true
      → is_hex b ≡ true
      → read_text stops s (b'%' ∷ a ∷ b ∷ t)
        ≡ read_text stops (s ++ (hex_to_dec a * 16 + hex_to_dec b) ∷ []) t
  unfolding read_text
  read_text-hex s a b t h x y = rw (h, x, y)

  read_text-escaped :
      (s : Bytes) (c : ℕ) (t : Bytes)
      → stops b'%' ≡ false
      → c < 256
      → read_text stops s (b'%' ∷ hex_digit (c / 16) ∷ hex_digit (c % 16) ∷ t)
        ≡ read_text stops (s ++ c ∷ []) t
  read_text-escaped s c t h small =
      let high : c / 16 < 16 = omega arith in
      let low : c % 16 < 16 = omega arith in
      let value : hex_to_dec (hex_digit (c / 16)) * 16 + hex_to_dec (hex_digit (c % 16)) ≡ c =
        omega (arith, hex_to_dec-hex_digit (c / 16) high, hex_to_dec-hex_digit (c % 16) low) in
      read_text-hex s (hex_digit (c / 16)) (hex_digit (c % 16)) t h (is_hex-hex_digit (c / 16) high)
        (is_hex-hex_digit (c % 16) low)
      ∙ ap (λ v. read_text stops (s ++ v ∷ []) t) value

-- What may stand in a text that is escaped: bytes, of which those that are kept are plain.
abbrev pub IsEscapable : (ℕ → Bool) → (ℕ → Bool) → ℕ → Type 0
IsEscapable stops keeps c = (c < 256) × ((keeps c ≡ false) ⊎ IsPlain stops c)

-- Reading an escaped text, in front of one at which the reading stops, adds the text itself. The
-- bytes may be any, and any that are not read in another way may be kept.
pub read_text-escape :
    (stops keeps : ℕ → Bool) (s xs rest : Bytes)
    → stops b'%' ≡ false
    → All (IsEscapable stops keeps) xs
    → Stops stops rest
    → read_text stops s (escape keeps xs ++ rest) ≡ (s ++ xs, rest)
read_text-escape stops keeps s [] rest h all end =
    read_text-Stops stops s rest end ∙ ap (λ t. (t, rest)) (sym (append-nil s))
read_text-escape stops keeps s (x ∷ xs) rest h ((small, plain), all) end =
    let more =
      read_text-escape stops keeps (s ++ x ∷ []) xs rest h all end
      ∙ ap (λ t. (t, rest)) (append_assoc s (x ∷ []) xs) in
    elim (Bool-cases (keeps x)) [
      | inr e ↦ rw e (read_text-escaped stops s x (escape keeps xs ++ rest) h small ∙ more)
      | inl e ↦ elim plain [
        | inl e' ↦ cc
        | inr p ↦ rw e (read_text-plain stops s x (escape keeps xs ++ rest) p ∙ more)
      ]
    ]

-- The end of a turn.
abbrev pub finish : Reading × Bytes → Reading × Bytes
finish (st, rest) = if st.read_key && not (is_empty rest) then (store st, rest) else (st, rest)

take_key-skip : (st : Reading) (rest : Bytes) → st.read_key ≡ false → take_key st rest ≡ (st, rest)
unfolding take_key
take_key-skip st rest h = rw h

finish-skip : (st : Reading) (rest : Bytes) → st.read_key ≡ false → finish (st, rest) ≡ (st, rest)
finish-skip st rest h = rw h

take_key-ended :
    (st : Reading) (text key rest : Bytes)
    → st.read_key ≡ true
    → read_text ends_key st.key text ≡ (key, b'&' ∷ rest)
    → take_key st text ≡ (record st { key = key; read_key = false }, b'&' ∷ rest)
unfolding take_key
take_key-ended st text key rest h e =
    rw h (ap (λ g. (record st { key = g.0; read_key = not (starts_with b'&' g.1) }, g.1)) e)

read_field-ended :
    (st next : Reading) (text rest : Bytes)
    → take_key st text ≡ (next, b'&' ∷ rest)
    → next.read_key ≡ false
    → read_field st text ≡ (next, b'&' ∷ rest)
unfolding read_field take_value
read_field-ended st next text rest e h =
    ap (λ x. finish (take_value x.0 x.1)) e ∙ finish-skip next (b'&' ∷ rest) h

read_fields-behind_key :
    (turns : ℕ) (st : Reading) (rest : Bytes)
    → st.read_key ≡ false
    → read_fields turns st (b'&' ∷ rest) ≡ none
unfolding read_fields
read_fields-behind_key zero st rest h = refl
read_fields-behind_key (suc turns) st rest h =
    ap (λ x. read_fields turns x.0 x.1)
      (read_field-ended st st (b'&' ∷ rest) rest (take_key-skip st (b'&' ∷ rest) h) h)
    ∙ read_fields-behind_key turns st rest h

-- If a key is ended by '&', with no value, the loop over the buffer does not end: no number of turns
-- is enough.
pub read_fields-no_value :
    (turns : ℕ) (st : Reading) (c : ℕ) (text key rest : Bytes)
    → st.read_key ≡ true
    → read_text ends_key st.key (c ∷ text) ≡ (key, b'&' ∷ rest)
    → read_fields turns st (c ∷ text) ≡ none
unfolding read_fields
read_fields-no_value zero st c text key rest h e = refl
read_fields-no_value (suc turns) st c text key rest h e =
    let next : Reading = record st { key = key; read_key = false } in
    ap (λ x. read_fields turns x.0 x.1)
      (read_field-ended st next (c ∷ text) rest (take_key-ended st (c ∷ text) key rest h e) refl)
    ∙ read_fields-behind_key turns next rest refl
