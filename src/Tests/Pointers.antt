-- ===== src/Tests/Pointers.antt =====
-- Smart pointers, server/utils/SmartPtr.hpp.
use Prim.{tt}
use zhttpd.Base.{
  ℕ, ◌<◌, true, false, List, [], ◌∷◌, Option, none, some, update, ◌≡◌, ◌↔◌, refl, arith,
  occurrences, erase, Gives,
}
use zhttpd.SmartPtr.{Cells, create, make, assign, run}
use zhttpd.SmartPtr.Counted
use zhttpd.SmartPtr.Counted.{Reach, Reach-run, run-assign_inside}

-- Objects that hold no smart pointers.
abbrev plain : ℕ → Cells → Option Cells
plain c s = some s

abbrev one_cell : Cells
one_cell = record { counts = update (λ c. 0) 0 1; alive = update (λ c. false) 0 true; next = 1 }

abbrev two_cells : Cells
two_cells = record {
  counts = update one_cell.counts 1 1;
  alive = update one_cell.alive 1 true;
  next = 2;
}

two_pointers : Reach plain (1 ∷ 0 ∷ []) two_cells
unfolding run create
two_pointers = Counted.runs make (Counted.runs make (Counted.starts (λ c. 0) 0) tt refl) tt refl

-- The last pointer to an object is assigned another one.
Reach-run_example :
    Gives
      (λ (d : List ℕ × Cells).
        (c : ℕ)
        → ((d.1.alive c ≡ true) ↔ (0 < occurrences c d.0))
          × (d.1.alive c ≡ true → d.1.counts c ≡ occurrences c d.0))
      (run plain (assign 0 1 none) (1 ∷ 0 ∷ []) two_cells)
unfolding erase
Reach-run_example = Reach-run plain (assign 0 1 none) (λ c s. refl) two_pointers (refl, refl, tt)

-- The second of two elements of a list stands in the first one.
run-assign_inside_example : run plain (assign 0 1 (some 0)) (1 ∷ 0 ∷ []) two_cells ≡ none
run-assign_inside_example =
    run-assign_inside plain 0 1 (1 ∷ 0 ∷ []) two_cells (λ c s t e a. ground (arith, a, e)) refl
