-- ===== src/Base/Numbers.antt =====
-- Numbers as text: what `std::istream >> unsigned` reads, in a type of `modulus` values.
use Prim.Native.Nat.{ℕ, ◌+◌, ◌-◌, ◌*◌, ◌%◌}
use mathlib.Core.Bool.{Bool, ◌&&◌, ◌||◌}
use mathlib.Core.List.{[], ◌∷◌}
use zhttpd.Base.Tests.{ltb, leb, ◌==◌, if◌then◌else◌}
use zhttpd.Base.Text.{Bytes}

abbrev pub is_digit : ℕ → Bool
is_digit c = leb b'0' c && leb c b'9'

-- `isspace` in the C locale.
abbrev is_space : ℕ → Bool
is_space c = c == 32 || (leb 9 c && leb c 13)

skip_spaces : Bytes → Bytes
skip_spaces [] = []
skip_spaces (c ∷ cs) = if is_space c then skip_spaces cs else c ∷ cs

-- The value of the digits in front, on top of `acc`.
unfoldable pub digits_value : ℕ → Bytes → ℕ
digits_value acc [] = acc
digits_value acc (c ∷ cs) =
    let more = digits_value (acc * 10 + (c - b'0')) cs in if is_digit c then more else acc

-- A value too large is cut to the largest.
unfoldable pub clamp : ℕ → ℕ → ℕ
clamp modulus n = if ltb n modulus then n else modulus - 1

-- A minus sign negates in the unsigned type.
signed_value : ℕ → Bytes → ℕ
unfolding clamp digits_value
signed_value modulus [] = 0
signed_value modulus (c ∷ cs) =
    if c == b'-'
    then (let n = digits_value 0 cs in
        if ltb n modulus then (modulus - n) % modulus else modulus - 1)
    else if c == b'+'
    then clamp modulus (digits_value 0 cs)
    else clamp modulus (digits_value 0 (c ∷ cs))

unfoldable pub read_unsigned : ℕ → Bytes → ℕ
unfolding skip_spaces signed_value
read_unsigned modulus s = signed_value modulus (skip_spaces s)
