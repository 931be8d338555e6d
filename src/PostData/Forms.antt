-- ===== src/PostData/Forms.antt =====
-- server/modules/common/PostData.hpp: what `prepare` makes of whole forms.
use Prim.{absurd, tt}
use mathlib.Core.Option
use mathlib.Core.List.{flatten}
use zhttpd.Base.{
  ℕ, zero, suc, ◌≤◌, Bool, true, false, not, ◌&&◌, ◌||◌, Bytes, eq_bytes, List, [], ◌∷◌, ◌++◌, map,
  Option, none, some, eq_bytes_iff, is_empty, if◌then◌else◌, All, length, ◌≡◌, refl, sym, ap, ◌∙◌,
  arith, append_assoc, append-nil, Bool-cases, inl, inr, drop,
}
use zhttpd.PostData.{
  ends_key, ends_value, Fields, push_field, Reading, take_key, take_value, store, read_field,
  read_fields, prepare, starts_with,
}
use zhttpd.PostData.Decoding.{escape, IsEscapable, Stops, read_text-escape, finish}

-- The fields that a client sends, and their text.
abbrev pub Sent : Type 0
Sent = List (Bytes × Bytes)

abbrev pub form : (ℕ → Bool) → Sent → Bytes
form keeps [] = []
form keeps ((k, v) ∷ []) = escape keeps k ++ (b'=' ∷ (escape keeps v ++ []))
form keeps ((k, v) ∷ f ∷ fs) =
    escape keeps k ++ (b'=' ∷ (escape keeps v ++ (b'&' ∷ form keeps (f ∷ fs))))

-- A field with a key, in bytes that the client escapes, or that stand for themselves.
abbrev pub IsField : (ℕ → Bool) → Bytes × Bytes → Type 0
IsField keeps f =
    (is_empty f.0 ≡ false)
    × All (IsEscapable ends_key keeps) f.0
    × All (IsEscapable ends_value keeps) f.1

-- The state in which a field is read.
abbrev reading : Bytes → Bytes → Fields → Reading
reading k v m = record { key = k; value = v; read_key = true; fields = m }

module _ (keeps : ℕ → Bool) where
  take_key-form :
      (k rest : Bytes) (m : Fields)
      → All (IsEscapable ends_key keeps) k
      → take_key (reading [] [] m) (escape keeps k ++ (b'=' ∷ rest)) ≡ (reading k [] m, b'=' ∷ rest)
  unfolding take_key
  take_key-form k rest m all =
      ap
        (λ (g : Bytes × Bytes).
          (record (reading [] [] m) { key = g.0; read_key = not (starts_with b'&' g.1) }, g.1))
        (read_text-escape ends_key keeps [] k (b'=' ∷ rest) refl all refl)

  take_value-form :
      (k v rest : Bytes) (m : Fields)
      → All (IsEscapable ends_value keeps) v
      → Stops ends_value rest
      → take_value (reading k [] m) (b'=' ∷ (escape keeps v ++ rest)) ≡ (reading k v m, drop 1 rest)
  unfolding take_value
  take_value-form k v rest m all end =
      ap
        (λ (g : Bytes × Bytes). (
          record (reading k [] m) { value = g.0; read_key = true || not (is_empty g.1) },
          drop 1 g.1,
        ))
        (read_text-escape ends_value keeps [] v rest refl all end)

  read_field-form :
      (k v rest : Bytes) (m : Fields)
      → IsField keeps (k, v)
      → Stops ends_value rest
      → read_field (reading [] [] m) (escape keeps k ++ (b'=' ∷ (escape keeps v ++ rest)))
        ≡ finish (reading k v m, drop 1 rest)
  unfolding read_field
  read_field-form k v rest m (e, ks, vs) end =
      ap (λ (x : Reading × Bytes). finish (take_value x.0 x.1))
        (take_key-form k (escape keeps v ++ rest) m ks)
      ∙ ap (λ (x : Reading × Bytes). finish x) (take_value-form k v rest m vs end)

read_fields-turn :
    (turns : ℕ) (st : Reading) (k rest : Bytes) (c : ℕ)
    → read_fields (suc turns) st (k ++ (c ∷ rest))
      ≡ read_fields turns (read_field st (k ++ (c ∷ rest))).0 (read_field st (k ++ (c ∷ rest))).1
unfolding read_fields
read_fields-turn turns st [] rest c = refl
read_fields-turn turns st (x ∷ k) rest c = refl

-- The fields one after the other.
abbrev pub fields_of : Fields → Sent → Fields
fields_of m [] = m
fields_of m ((k, v) ∷ fs) = fields_of (push_field k v m) fs

fields_of-append :
    (m : Fields) (fs gs : Sent) → fields_of m (fs ++ gs) ≡ fields_of (fields_of m fs) gs
fields_of-append m [] gs = refl
fields_of-append m ((k, v) ∷ fs) gs = fields_of-append (push_field k v m) fs gs

read_fields-nil : (turns : ℕ) (st : Reading) → read_fields turns st [] ≡ some st
unfolding read_fields
read_fields-nil zero st = refl
read_fields-nil (suc turns) st = refl

store-reading :
    (k v : Bytes) (m : Fields) → store (reading k v m) ≡ reading [] [] (push_field k v m)
unfolding store
store-reading k v m = refl

finish-next :
    (turns : ℕ) (k v rest : Bytes) (m : Fields)
    → is_empty rest ≡ false
    → read_fields turns (finish (reading k v m, rest)).0 (finish (reading k v m, rest)).1
      ≡ read_fields turns (reading [] [] (push_field k v m)) rest
finish-next turns k v rest m e =
    ap
      (λ (b : Bool).
        let x : Reading × Bytes =
          if true && not b then (store (reading k v m), rest) else (reading k v m, rest) in
        read_fields turns x.0 x.1)
      e
    ∙ ap (λ (st : Reading). read_fields turns st rest) (store-reading k v m)

is_empty-behind : (k : Bytes) (c : ℕ) (rest : Bytes) → is_empty (k ++ (c ∷ rest)) ≡ false
is_empty-behind [] c rest = refl
is_empty-behind (x ∷ k) c rest = refl

-- What is kept behind a buffer.
abbrev behind : Reading → Reading
behind st = if st.read_key && not (is_empty st.key) then store st else st

behind-reading :
    (k v : Bytes) (m : Fields)
    → is_empty k ≡ false
    → behind (reading k v m) ≡ reading [] [] (push_field k v m)
behind-reading k v m e =
    ap (λ (b : Bool). if true && not b then store (reading k v m) else reading k v m) e
    ∙ store-reading k v m

module _ (keeps : ℕ → Bool) where
  is_empty-form : (f : Bytes × Bytes) (fs : Sent) → is_empty (form keeps (f ∷ fs)) ≡ false
  is_empty-form (k, v) [] = is_empty-behind (escape keeps k) b'=' (escape keeps v ++ [])
  is_empty-form (k, v) (g ∷ fs) =
      is_empty-behind (escape keeps k) b'=' (escape keeps v ++ (b'&' ∷ form keeps (g ∷ fs)))

  -- The last turn leaves a field to the end of the buffer.
  read_fields-last :
      (turns : ℕ) (k v : Bytes) (m : Fields)
      → IsField keeps (k, v)
      → read_fields (suc turns) (reading [] [] m) (form keeps ((k, v) ∷ [])) ≡ some (reading k v m)
  read_fields-last turns k v m f =
      read_fields-turn turns (reading [] [] m) (escape keeps k) (escape keeps v ++ []) b'='
      ∙ ap (λ (x : Reading × Bytes). read_fields turns x.0 x.1)
          (read_field-form keeps k v [] m f tt)
      ∙ read_fields-nil turns (reading k v m)

  read_fields-next :
      (turns : ℕ) (k v : Bytes) (f : Bytes × Bytes) (fs : Sent) (m : Fields)
      → IsField keeps (k, v)
      → read_fields (suc turns) (reading [] [] m) (form keeps ((k, v) ∷ f ∷ fs))
        ≡ read_fields turns (reading [] [] (push_field k v m)) (form keeps (f ∷ fs))
  read_fields-next turns k v f fs m h =
      read_fields-turn turns (reading [] [] m) (escape keeps k)
        (escape keeps v ++ (b'&' ∷ form keeps (f ∷ fs))) b'='
      ∙ ap (λ (x : Reading × Bytes). read_fields turns x.0 x.1)
          (read_field-form keeps k v (b'&' ∷ form keeps (f ∷ fs)) m h refl)
      ∙ finish-next turns k v (form keeps (f ∷ fs)) m (is_empty-form f fs)

  read_fields-form :
      (turns : ℕ) (fs : Sent) (m : Fields)
      → All (IsField keeps) fs
      → length fs ≤ turns
      → Option.map behind (read_fields turns (reading [] [] m) (form keeps fs))
        ≡ some (reading [] [] (fields_of m fs))
  read_fields-form turns [] m all h =
      ap (Option.map behind) (read_fields-nil turns (reading [] [] m))
  read_fields-form zero (f ∷ fs) m all h = absurd (omega (arith, h))
  read_fields-form (suc turns) ((k, v) ∷ []) m (f, all) h =
      ap (Option.map behind) (read_fields-last turns k v m f) ∙ ap some (behind-reading k v m f.0)
  read_fields-form (suc turns) ((k, v) ∷ f ∷ fs) m (g, all) h =
      ap (Option.map behind) (read_fields-next turns k v f fs m g)
      ∙ read_fields-form turns (f ∷ fs) (push_field k v m) all (omega (arith, h))

abbrev goes_on : ℕ → List Bytes → Option Reading → Option Fields
goes_on turns more none = none
goes_on turns more (some st) = prepare turns st more

prepare-behind :
    (turns : ℕ) (more : List Bytes) (o : Option Reading)
    → (elim o [ none ↦ none | some next ↦ prepare turns (behind next) more ])
      ≡ goes_on turns more (Option.map behind o)
prepare-behind turns more none = refl
prepare-behind turns more (some st) = refl

prepare-next :
    (turns : ℕ) (st next : Reading) (bytes : Bytes) (more : List Bytes)
    → Option.map behind (read_fields turns st bytes) ≡ some next
    → prepare turns st (bytes ∷ more) ≡ prepare turns next more
unfolding prepare
prepare-next turns st next bytes more e =
    prepare-behind turns more (read_fields turns st bytes) ∙ ap (goes_on turns more) e

-- Buffers that each hold whole forms: `prepare` ends, with their fields, one after the other.
pub prepare-form :
    (keeps : ℕ → Bool) (turns : ℕ) (sent : List Sent) (m : Fields)
    → All (λ (fs : Sent). All (IsField keeps) fs × (length fs ≤ turns)) sent
    → prepare turns (reading [] [] m) (map (form keeps) sent) ≡ some (fields_of m (flatten sent))
unfolding prepare flatten
prepare-form keeps turns [] m all = refl
prepare-form keeps turns (fs ∷ sent) m ((h, fits), all) =
    prepare-next turns (reading [] [] m) (reading [] [] (fields_of m fs)) (form keeps fs)
      (map (form keeps) sent) (read_fields-form keeps turns fs m h fits)
    ∙ prepare-form keeps turns sent (fields_of m fs) all
    ∙ ap some (sym (fields_of-append m fs (flatten sent)))

-- The values of a key.
abbrev pub values : Bytes → Fields → List Bytes
values key [] = []
values key ((k, vs) ∷ m) = if eq_bytes key k then vs else values key m

abbrev pub sent_values : Bytes → Sent → List Bytes
sent_values key [] = []
sent_values key ((k, v) ∷ fs) = (if eq_bytes key k then v ∷ [] else []) ++ sent_values key fs

by_key :
    (vs : List Bytes) (v : Bytes) (m : Fields) (key : Bytes) (b : Bool)
    → (if b then vs ++ v ∷ [] else values key m)
      ≡ (if b then vs else values key m) ++ (if b then v ∷ [] else [])
by_key vs v m key true = refl
by_key vs v m key false = sym (append-nil (values key m))

values-push_field :
    (key k v : Bytes) (m : Fields)
    → values key (push_field k v m) ≡ values key m ++ (if eq_bytes key k then v ∷ [] else [])
unfolding push_field
values-push_field key k v [] = refl
values-push_field key k v ((j, vs) ∷ m) = elim (Bool-cases (eq_bytes k j)) [
  | inl e ↦ rw (e, ap (eq_bytes key) ((eq_bytes_iff k j).0 e)) (by_key vs v m key (eq_bytes key j))
  | inr e ↦ ground (
    arith,
    e,
    values-push_field key k v m,
    eq_bytes_iff key k,
    eq_bytes_iff key j,
    eq_bytes_iff k j,
    append-nil vs,
  )
]

pub values-fields_of :
    (key : Bytes) (fs : Sent) (m : Fields)
    → values key (fields_of m fs) ≡ values key m ++ sent_values key fs
values-fields_of key [] m = sym (append-nil (values key m))
values-fields_of key ((k, v) ∷ fs) m =
    values-fields_of key fs (push_field k v m)
    ∙ ap (λ (l : List Bytes). l ++ sent_values key fs) (values-push_field key k v m)
    ∙ append_assoc (values key m) (if eq_bytes key k then v ∷ [] else []) (sent_values key fs)
