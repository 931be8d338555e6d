-- ===== src/SmartPtr.antt =====
-- server/utils/SmartPtr.hpp: pointers that share a count and an object.
pub mod Counted
use zhttpd.Base.{
  ℕ, suc, ◌-◌, Bool, true, false, List, [], ◌∷◌, Option, none, some, if◌then◌else◌, ◌==◌, update,
  member, erase, ◌>>=◌, ◌≡◌,
}

-- The counts behind `_count`, each with the object behind `_ptr`, both deleted at once. A number stands
-- for both addresses.
pub record Cells : Type 0 where
  pub counts : ℕ → ℕ
  pub alive : ℕ → Bool
  pub next : ℕ

-- `SmartPtr(PtrType*)`.
unfoldable pub create : Cells → ℕ × Cells
create s = (
  s.next,
  record {
    counts = update s.counts s.next 1;
    alive = update s.alive s.next true;
    next = suc s.next;
  },
)

-- The increment of the copy constructors. `none` where a deleted count is read.
unfoldable pub attach : ℕ → Cells → Option Cells
attach c s =
    if s.alive c then some (record s { counts = update s.counts c (suc (s.counts c)) }) else none

-- Where the smart pointer stands that an assignment reads: in the object of a cell, or in none.
abbrev pub is_readable : Option ℕ → Cells → Bool
is_readable none s = true
is_readable (some o) s = s.alive o

-- What programs do with smart pointers: make one, copy one, end one, and assign to one a new object or
-- another one, which stands at some place. A pointer is given by its cell.
pub data Command : Type 0 where
  make : Command
  copy : ℕ → Command
  end_of : ℕ → Command
  assign_new : ℕ → Command
  assign : ℕ → ℕ → Option ℕ → Command

-- What the destructor of the object of a cell does to the cells, for `delete _ptr`.
module _ (destructor : ℕ → Cells → Option Cells) where
  -- `_destroyPtr`.
  unfoldable pub detach : ℕ → Cells → Option Cells
  detach c s =
      let left = s.counts c - 1 in
      let fewer : Cells = record s { counts = update s.counts c left } in
      let deleted : Cells = record fewer { alive = update s.alive c false } in
      if s.alive c then if left == 0 then destructor c deleted else some fewer else none

  -- `operator =`, which reads the other pointer behind `_destroyPtr`.
  unfoldable pub attach_from : ℕ → Option ℕ → Cells → Option Cells
  unfolding attach
  attach_from d place s = if is_readable place s then attach d s else none

  -- The cells of the pointers that there are, and the command's effect on them.
  unfoldable pub run : Command → List ℕ → Cells → Option (List ℕ × Cells)
  unfolding create attach detach attach_from erase
  run make held s = let a = create s in some (a.0 ∷ held, a.1)
  run (copy c) held s = attach c s >>= (λ (t : Cells). some (c ∷ held, t))
  run (end_of c) held s = detach c s >>= (λ (t : Cells). some (erase c held, t))
  run (assign_new c) held s =
      detach c s >>= (λ (t : Cells). some ((create t).0 ∷ erase c held, (create t).1))
  run (assign c d place) held s =
      detach c s
      >>= (λ (t : Cells). attach_from d place t >>= (λ (u : Cells). some (d ∷ erase c held, u)))

-- The place is in no object, or in one that another pointer has.
abbrev pub Outlives : ℕ → List ℕ → Option ℕ → Type 0
Outlives c held none = Unit
Outlives c held (some o) = member o (erase c held) ≡ true

-- The pointers of a command are there, and those of an assignment are two, of which the one that is
-- read stands behind the end of the other.
abbrev pub Fits : Command → List ℕ → Type 0
Fits make held = Unit
Fits (copy c) held = member c held ≡ true
Fits (end_of c) held = member c held ≡ true
Fits (assign_new c) held = member c held ≡ true
Fits (assign c d place) held =
    (member c held ≡ true) × (member d (erase c held) ≡ true) × Outlives c held place
