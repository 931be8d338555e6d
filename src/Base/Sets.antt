-- ===== src/Base/Sets.antt =====
-- Sets of numbers as lists without repetitions, with the operations of `std::set`, and stores.
use Prim.{tt}
use Prim.Native.Nat.{ℕ}
use mathlib.Core.Path.{◌≡◌, refl, ◌∙◌}
use mathlib.Core.Logic.{inl, inr}
use mathlib.Core.Bool.{Bool, true, false}
use mathlib.Core.List.{List, [], ◌∷◌, ◌++◌}
use native.Mathlib.Omega.{arith}
use zhttpd.Base.Tests.{◌==◌, if◌then◌else◌, ==_iff, Bool-cases}

abbrev pub member : ℕ → List ℕ → Bool
member i [] = false
member i (j ∷ js) = if i == j then true else member i js

-- `std::set::insert` and `erase`.
unfoldable pub insert : ℕ → List ℕ → List ℕ
insert i js = if member i js then js else js ++ i ∷ []

unfoldable pub erase : ℕ → List ℕ → List ℕ
erase i [] = []
erase i (j ∷ js) = if i == j then js else j ∷ erase i js

unfoldable pub insert_all : List ℕ → List ℕ → List ℕ
unfolding insert
insert_all [] js = js
insert_all (i ∷ is) js = insert_all is (insert i js)

-- A store with one place written.
abbrev pub update {ℓ} : {A : Type ℓ} → (ℕ → A) → ℕ → A → ℕ → A
update f i a j = if i == j then a else f j

abbrev pub Distinct : List ℕ → Type 0
Distinct [] = Unit
Distinct (i ∷ is) = (member i is ≡ false) × Distinct is

pub member-append :
    (i : ℕ) (js ks : List ℕ) → member i (js ++ ks) ≡ (if member i js then true else member i ks)
member-append i [] ks = refl
member-append i (j ∷ js) ks = ground (arith, member-append i js ks)

pub member-insert :
    (i j : ℕ) (js : List ℕ) → member i (insert j js) ≡ (if i == j then true else member i js)
unfolding insert
member-insert i j js = ground (arith, member-append i js (j ∷ []))

pub member-apart :
    (i j : ℕ) (is : List ℕ) → member i is ≡ false → member j is ≡ true → (i == j) ≡ false
member-apart i j is h g = ground (arith, ==_iff i j)

pub Distinct-append :
    (i : ℕ) (js : List ℕ) → member i js ≡ false → Distinct js → Distinct (js ++ i ∷ [])
Distinct-append i [] h d = (refl, tt)
Distinct-append i (j ∷ js) h (hj, d) =
    (ground (arith, member-append j js (i ∷ [])), Distinct-append i js (ground arith) d)

pub Distinct-insert : (i : ℕ) (js : List ℕ) → Distinct js → Distinct (insert i js)
unfolding insert
Distinct-insert i js d = elim (Bool-cases (member i js)) [
  | inl e ↦ rw e d
  | inr e ↦ rw e (Distinct-append i js e d)
]

pub member-insert_all :
    (i : ℕ) (is js : List ℕ) → member i js ≡ true → member i (insert_all is js) ≡ true
unfolding insert_all
member-insert_all i [] js h = h
member-insert_all i (k ∷ is) js h =
    member-insert_all i is (insert k js) (member-insert i k js ∙ ground arith)

pub Distinct-insert_all : (is js : List ℕ) → Distinct js → Distinct (insert_all is js)
unfolding insert_all
Distinct-insert_all [] js d = d
Distinct-insert_all (i ∷ is) js d = Distinct-insert_all is (insert i js) (Distinct-insert i js d)

pub member-erase : (i j : ℕ) (js : List ℕ) → (i == j) ≡ false → member i (erase j js) ≡ member i js
unfolding erase
member-erase i j [] h = refl
member-erase i j (k ∷ js) h = ground (arith, member-erase i j js)

member-erase_le : (i j : ℕ) (js : List ℕ) → member i js ≡ false → member i (erase j js) ≡ false
unfolding erase
member-erase_le i j [] h = refl
member-erase_le i j (k ∷ js) h = ground (arith, member-erase_le i j js)

pub Distinct-erase : (i : ℕ) (js : List ℕ) → Distinct js → Distinct (erase i js)
unfolding erase
Distinct-erase i [] d = tt
Distinct-erase i (j ∷ js) (h, d) = elim (Bool-cases (i == j)) [
  | inl e ↦ rw e d
  | inr e ↦ rw e (member-erase_le j i js h, Distinct-erase i js d)
]

pub member-erase_same : (i : ℕ) (js : List ℕ) → Distinct js → member i (erase i js) ≡ false
unfolding erase
member-erase_same i [] d = refl
member-erase_same i (j ∷ js) (h, d) = ground (arith, h, member-erase_same i js d, ==_iff i j)

module _ {ℓ} {A : Type ℓ} (f : ℕ → A) (i : ℕ) (a : A) where
  pub at_place : update f i a i ≡ a
  at_place = ground arith

  pub elsewhere : (j : ℕ) → (i == j) ≡ false → update f i a j ≡ f j
  elsewhere j e = rw e
