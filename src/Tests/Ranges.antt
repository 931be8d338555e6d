-- ===== src/Tests/Ranges.antt =====
-- The file reader, server/modules/FileReader.
use zhttpd.Base.{
  false, codes, Bytes, List, [], ◌∷◌, some, ◌≡◌, ◌<◌, refl, arith, ◌⊎◌, length, take, drop,
  read_unsigned,
}
use zhttpd.FileReader.{
  range_length, next_action, read, write_ranges, set_ranges, set_bounds, split_range, end_of_range,
  after_number, skip_digits,
}
use zhttpd.FileReader.Transfer.{transfer, take_turn, concat}
use zhttpd.FileReader.Ranges.{ranged, write_ranges-bounds, transfer-ranged, transfer-one_byte}
use zhttpd.Tests.Requests.{reading}

abbrev letters : Bytes
letters = codes "abcdef"

abbrev asked : Bytes
asked = codes "bytes=2-4"

middle : transfer 6 letters (ranged asked letters reading) ≡ some (codes "cde" ∷ [])
unfolding transfer take_turn next_action read write_ranges set_ranges set_bounds split_range
    end_of_range after_number skip_digits read_unsigned
middle = refl

write_ranges-bounds_example :
    ((ranged asked letters reading).range_end < 6)
    × (((ranged asked letters reading).range_begin < (ranged asked letters reading).range_end)
        ⊎ ((length letters ≡ 1)
            × ((ranged asked letters reading).range_begin ≡ 0)
            × ((ranged asked letters reading).range_end ≡ 0)))
    × ((ranged asked letters reading).position ≡ (ranged asked letters reading).range_begin)
    × ((ranged asked letters reading).fail ≡ false)
write_ranges-bounds_example = write_ranges-bounds asked letters reading (omega arith)

transfer-ranged_example :
    (cs : List Bytes) × (transfer 6 letters (ranged asked letters reading) ≡ some cs)
    × (concat cs
        ≡ take
            (range_length (ranged asked letters reading))
            (drop (ranged asked letters reading).range_begin letters))
    × (length (concat cs) ≡ range_length (ranged asked letters reading))
transfer-ranged_example = transfer-ranged asked letters reading (omega arith) (omega arith)

transfer-one_byte_test :
    (transfer 1 (codes "a") (ranged asked (codes "a") reading) ≡ some [])
    × (range_length (ranged asked (codes "a") reading) ≡ 1)
transfer-one_byte_test = transfer-one_byte b'a' asked reading
