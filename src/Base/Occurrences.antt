-- ===== src/Base/Occurrences.antt =====
-- How often a number stands in a list.
use Prim.Native.Nat.{ℕ, suc, ◌-◌, ◌<◌}
use mathlib.Core.Path.{◌≡◌, refl}
use mathlib.Core.Bool.{true, false}
use mathlib.Core.List.{List, [], ◌∷◌}
use native.Mathlib.Omega.{arith}
use zhttpd.Base.Tests.{◌==◌, if◌then◌else◌, ==_iff}
use zhttpd.Base.Sets.{member, erase}

abbrev pub occurrences : ℕ → List ℕ → ℕ
occurrences i [] = 0
occurrences i (j ∷ js) = if i == j then suc (occurrences i js) else occurrences i js

pub occurrences-member : (i : ℕ) (js : List ℕ) → member i js ≡ true → 0 < occurrences i js
occurrences-member i [] h = cc
occurrences-member i (j ∷ js) h = ground (arith, occurrences-member i js)

pub occurrences-absent : (i : ℕ) (js : List ℕ) → member i js ≡ false → occurrences i js ≡ 0
occurrences-absent i [] h = refl
occurrences-absent i (j ∷ js) h = ground (arith, occurrences-absent i js)

-- `erase` takes one of them away.
pub occurrences-erase :
    (i j : ℕ) (js : List ℕ)
    → occurrences i (erase j js) ≡ occurrences i js - (if i == j then 1 else 0)
unfolding erase
occurrences-erase i j [] = ground arith
occurrences-erase i j (k ∷ js) =
    ground (arith, occurrences-erase i j js, ==_iff i j, ==_iff j k, ==_iff i k)
