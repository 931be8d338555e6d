-- ===== src/FileReader/Transfer.antt =====
-- server/modules/FileReader/FileReader.cpp: what the reader sends, turn by turn.
use Prim.{tt, absurd}
use mathlib.Core.Path.{subst}
use zhttpd.Base.{
  ℕ, zero, suc, ◌+◌, ◌-◌, ◌*◌, ◌≤◌, ◌<◌, false, Bytes, List, [], ◌∷◌, ◌++◌, Option, none, some, ltb,
  length, take, drop, length-take, length-drop, take-take-drop, drop-drop, All, ◌≡◌, refl, sym, ap,
  ◌∙◌, arith, Bool-cases, inl, inr, ◌>>=◌,
}
use zhttpd.FileReader.{
  FileReader, Action, ends, fails, sends, next_action, read, read_size, chunk_size,
}

-- One turn of the reader, and then the others, by what it does.
unfoldable pub take_turn :
    (FileReader → Option (List Bytes)) → Bytes → FileReader → Action → Option (List Bytes)
unfolding read
take_turn others file f ends = some []
take_turn others file f fails = none
take_turn others file f (sends n) =
    let (got, g) = read n file f in others g >>= λ rest. some (got ∷ rest)

-- The texts that the reader sends until it raises the end, in at most so many turns.
unfoldable pub transfer : ℕ → Bytes → FileReader → Option (List Bytes)
unfolding next_action take_turn
transfer zero file f = none
transfer (suc turns) file f = take_turn (transfer turns file) file f (next_action f)

abbrev pub concat : List Bytes → Bytes
concat [] = []
concat (xs ∷ xss) = xs ++ concat xss

-- The stream stands within the range, which is within the file.
abbrev pub InRange : Bytes → FileReader → Type 0
InRange file f = (f.fail ≡ false) × (f.position < f.range_end) × (f.range_end < length file)

abbrev moved : ℕ → FileReader → FileReader
moved n f = record f { position = f.position + n; fail = false; eof = false }

read-within :
    (n : ℕ) (file : Bytes) (f : FileReader)
    → f.position + n ≤ length file
    → read n file f ≡ (take n (drop f.position file), moved n f)
unfolding read
read-within n file f h =
    let full : length (take n (drop f.position file)) ≡ n =
      length-take n (drop f.position file) ∙ omega (arith, length-drop f.position file) in
    let enough : ltb (length (take n (drop f.position file))) n ≡ false = ground (arith, full) in
    rw (enough, full)

next_action-InRange :
    (file : Bytes) (f : FileReader) → InRange file f → next_action f ≡ sends (read_size f)
unfolding next_action
next_action-InRange file f (a, b, c) = ground arith

next_action-behind :
    (f : FileReader) → f.fail ≡ false → f.range_end ≤ f.position → next_action f ≡ ends
unfolding next_action
next_action-behind f h g = ground arith

-- What is left of the range.
abbrev pub left : Bytes → FileReader → Bytes
left file f = take (f.range_end + 1 - f.position) (drop f.position file)

abbrev pub Transferred : Bytes → FileReader → ℕ → Type 0
Transferred file f turns =
    (cs : List Bytes) × (transfer turns file f ≡ some cs)
    × (concat cs ≡ left file f)
    × All (λ c. (0 < length c) × (length c ≤ chunk_size + 1)) cs

pub transfer-ends :
    (turns : ℕ) (file : Bytes) (f : FileReader)
    → f.fail ≡ false
    → f.range_end ≤ f.position
    → transfer (suc turns) file f ≡ some []
unfolding transfer take_turn
transfer-ends turns file f h g =
    ap (take_turn (transfer turns file) file f) (next_action-behind f h g)

transfer-sends :
    (turns : ℕ) (file : Bytes) (f : FileReader) (rest : List Bytes)
    → InRange file f
    → transfer turns file (moved (read_size f) f) ≡ some rest
    → transfer (suc turns) file f ≡ some (take (read_size f) (drop f.position file) ∷ rest)
unfolding transfer take_turn
transfer-sends turns file f rest h e =
    ap (take_turn (transfer turns file) file f) (next_action-InRange file f h)
    ∙ ap
        (λ (x : Bytes × FileReader).
          transfer turns file x.1 >>= λ (others : List Bytes). some (x.0 ∷ others))
        (read-within (read_size f) file f (ground (arith, h.1, h.2)))
    ∙ ap
        (λ (o : Option (List Bytes)).
          o >>= λ (others : List Bytes). some (take (read_size f) (drop f.position file) ∷ others))
        e

-- A text of the range, and the rest of the range.
left-moved :
    (n : ℕ) (file : Bytes) (f : FileReader)
    → f.position + n ≤ f.range_end + 1
    → take n (drop f.position file) ++ left file (moved n f) ≡ left file f
left-moved n file f h =
    ap (λ xs. take n (drop f.position file) ++ take (f.range_end + 1 - (f.position + n)) xs)
      (sym (drop-drop f.position n file))
    ∙ take-take-drop n (f.range_end + 1 - (f.position + n)) (drop f.position file)
    ∙ ap (λ k. take k (drop f.position file)) (omega arith)

left-behind : (file : Bytes) (f : FileReader) → f.range_end < f.position → left file f ≡ []
left-behind file f h =
    ap (λ k. take k (drop f.position file))
      (let e : f.range_end + 1 - f.position ≡ 0 = omega arith in e)

Transferred-sends :
    (turns : ℕ) (file : Bytes) (f : FileReader)
    → InRange file f
    → Transferred file (moved (read_size f) f) turns
    → Transferred file f (suc turns)
Transferred-sends turns file f h (cs, e, text, small) =
    let n = read_size f in
    let full : length (take n (drop f.position file)) ≡ n =
      length-take n (drop f.position file)
      ∙ ground (arith, length-drop f.position file, h.1, h.2) in
    (
      take n (drop f.position file) ∷ cs,
      transfer-sends turns file f cs h e,
      ap (λ xs. take n (drop f.position file) ++ xs) text
          ∙ left-moved n file f (ground (arith, h.1)),
      ((ground (arith, full), ground (arith, full)), small),
    )

Transferred-behind :
    (turns : ℕ) (file : Bytes) (f : FileReader)
    → f.fail ≡ false
    → f.range_end < f.position
    → Transferred file f (suc turns)
Transferred-behind turns file f h g =
    ([], transfer-ends turns file f h (omega arith), sym (left-behind file f g), tt)

-- The turns that a range takes: one for each 4096 bytes, and one for the end.
pub transfer-InRange :
    (turns : ℕ) (file : Bytes) (f : FileReader)
    → InRange file f
    → f.range_end + chunk_size < f.position + turns * chunk_size
    → Transferred file f turns
transfer-InRange zero file f (a, b, c) h = absurd (omega arith)
transfer-InRange (suc zero) file f (a, b, c) h = absurd (omega arith)
transfer-InRange (suc (suc turns)) file f (a, b, c) h =
    Transferred-sends (suc turns) file f (a, b, c)
      (elim (Bool-cases (ltb chunk_size (f.range_end - f.position))) [
        | inl far ↦
            let size : chunk_size ≡ read_size f = rw far refl in
            subst (λ n. Transferred file (moved n f) (suc turns)) size
              (transfer-InRange (suc turns) file (moved chunk_size f) (refl, ground arith, c)
                (omega arith))
        | inr near ↦ Transferred-behind turns file (moved (read_size f) f) refl (ground arith)
      ])
