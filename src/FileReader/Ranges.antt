-- ===== src/FileReader/Ranges.antt =====
-- server/modules/FileReader/FileReader.cpp: the range that a request asks for, and what is sent of it.
use zhttpd.Base.{
  ℕ, ◌+◌, ◌-◌, ◌^◌, ◌%◌, ◌<◌, true, false, Bytes, List, [], ◌∷◌, some, leb, if◌then◌else◌, length,
  take, drop, length-take, length-drop, ◌≡◌, refl, ap, ◌∙◌, arith, ◌⊎◌, inr, read_unsigned,
}
use zhttpd.Request.{Request}
use zhttpd.FileReader.{
  FileReader, set_ranges, set_bounds, split_range, end_of_range, write_ranges, range_length,
}
use zhttpd.FileReader.Transfer.{transfer, transfer-InRange, transfer-ends, concat}

-- The size that is noted, an `unsigned int`.
abbrev pub noted_size : Bytes → ℕ
noted_size file = length file % 2 ^ 32

-- The reader of a file that was opened.
abbrev pub opened : Bytes → FileReader
opened file = record {
  is_open = true;
  position = 0;
  fail = false;
  eof = false;
  file_size = noted_size file;
  range_begin = 0;
  range_end = 0;
}

-- The reader behind `_setRanges` and `_writeRanges`.
abbrev pub ranged : Bytes → Bytes → Request → FileReader
ranged text file r = (write_ranges (set_ranges text (opened file)) r).0

end_of_range-lt : (size : ℕ) (first last : Bytes) → 0 < size → end_of_range size first last < size
unfolding end_of_range
end_of_range-lt size first [] h = omega arith
end_of_range-lt size first (c ∷ cs) h = ground arith

-- What `_setRanges` leaves: no range, or one within the file.
abbrev Bounded : Bytes → FileReader → Type 0
Bounded file f =
    (f.range_end < noted_size file)
    × ((f.range_begin < f.range_end) ⊎ ((f.range_begin ≡ 0) × (f.range_end ≡ 0)))
    × (f.position ≡ 0)
    × (f.fail ≡ false)
    × (f.file_size ≡ noted_size file)

begin_of_range :
    (n e : ℕ) → ((if leb e n then 0 else n) < e) ⊎ (((if leb e n then 0 else n) ≡ 0) × (e ≡ 0))
begin_of_range n e = ground arith

set_bounds-Bounded :
    (first last file : Bytes)
    → 0 < noted_size file
    → Bounded file (set_bounds first last (opened file))
unfolding set_bounds
set_bounds-Bounded [] last file h = (h, inr (refl, refl), refl, refl, refl)
set_bounds-Bounded (c ∷ first) last file h = (
  end_of_range-lt (noted_size file) (c ∷ first) last h,
  begin_of_range (read_unsigned (2 ^ 32) (c ∷ first))
      (end_of_range (noted_size file) (c ∷ first) last),
  refl,
  refl,
  refl,
)

set_ranges-Bounded :
    (text file : Bytes) → 0 < noted_size file → Bounded file (set_ranges text (opened file))
unfolding set_ranges
set_ranges-Bounded text file h =
    let s = split_range false false [] [] text in set_bounds-Bounded s.0 s.1 file h

-- Whatever range a request asks for of a file whose size, which the reader notes modulo 2 ^ 32, is not
-- zero then, the reader takes one that ends below the noted size and stands at its first byte; it has
-- two bytes or more, unless the noted size is one.
pub write_ranges-bounds :
    (text file : Bytes) (r : Request)
    → 0 < noted_size file
    → ((ranged text file r).range_end < noted_size file)
      × (((ranged text file r).range_begin < (ranged text file r).range_end)
          ⊎ ((noted_size file ≡ 1)
              × ((ranged text file r).range_begin ≡ 0)
              × ((ranged text file r).range_end ≡ 0)))
      × ((ranged text file r).position ≡ (ranged text file r).range_begin)
      × ((ranged text file r).fail ≡ false)
unfolding write_ranges
write_ranges-bounds text file r h =
    let (end, order, place, good, size) = set_ranges-Bounded text file h in
    (ground arith, ground arith, ground arith, ground arith)

-- Whatever range a request asks for of a file of two to 2 ^ 32 - 1 bytes, the turns of the reader
-- end, at the latest with as many as the file has bytes, and what they send is the bytes of the
-- range and as many as the response announces.
pub transfer-ranged :
    (text file : Bytes) (r : Request)
    → 1 < length file
    → length file < 2 ^ 32
    → (cs : List Bytes) × (transfer (length file) file (ranged text file r) ≡ some cs)
      × (concat cs
          ≡ take (range_length (ranged text file r)) (drop (ranged text file r).range_begin file))
      × (length (concat cs) ≡ range_length (ranged text file r))
transfer-ranged text file r big small =
    let f = ranged text file r in
    let (end, order, place, good) = write_ranges-bounds text file r (omega arith) in
    let inside : f.range_end < length file = omega (arith, end) in
    let below : f.range_begin < f.range_end = ground (arith, order) in
    let (cs, e, text, sizes) =
      transfer-InRange (length file) file f (good, ground (arith, place), inside)
        (omega (arith, end)) in
    let count : f.range_end + 1 - f.position ≡ range_length f = omega (arith, place, end, below) in
    let sent : concat cs ≡ take (range_length f) (drop f.range_begin file) =
      text
      ∙ ap (λ n. take n (drop f.position file)) count
      ∙ ap (λ p. take (range_length f) (drop p file)) place in
    (
      cs,
      e,
      sent,
      ap length sent
          ∙ length-take (range_length f) (drop f.range_begin file)
          ∙ omega (arith, length-drop f.range_begin file, end, below),
    )

-- Of a file of one byte, whatever range a request asks for, the response announces one byte and
-- nothing is sent.
pub transfer-one_byte :
    (c : ℕ) (text : Bytes) (r : Request)
    → (transfer 1 (c ∷ []) (ranged text (c ∷ []) r) ≡ some [])
      × (range_length (ranged text (c ∷ []) r) ≡ 1)
transfer-one_byte c text r =
    let f = ranged text (c ∷ []) r in
    let (end, order, place, good) = write_ranges-bounds text (c ∷ []) r (omega arith) in
    (transfer-ends 0 (c ∷ []) f good (omega arith), omega (arith, end, order))
