-- ===== src/MemoryPool.antt =====
-- server/utils/MemoryPool.hpp: the pool of objects that buffers and managers take theirs from.
pub mod Sweep
pub mod Reachable
use zhttpd.Base.{ℕ, suc, Bool, not, List, [], ◌∷◌, if◌then◌else◌, is_empty, member, erase}

-- `_free_blocks` and `_blocks`, with the back of each vector first. Objects are numbers, and `next` is
-- the next one that `new` makes.
pub record MemoryPool : Type 0 where
  pub free_blocks : List ℕ
  pub blocks : List ℕ
  pub next : ℕ

-- The constructor, which only reserves room.
abbrev pub empty : ℕ → MemoryPool
empty next = record { free_blocks = []; blocks = []; next = next }

-- `allocate`.
unfoldable pub allocate : MemoryPool → ℕ × MemoryPool
allocate p = elim p.free_blocks [
  | [] ↦ (p.next, record p { blocks = p.next ∷ p.blocks; next = suc p.next })
  | block ∷ rest ↦ (block, record p { free_blocks = rest })
]

-- `release`.
unfoldable pub release : ℕ → MemoryPool → MemoryPool
release block p = record p { free_blocks = block ∷ p.free_blocks }

-- The loop of `clean` from the back of `_blocks`: the blocks that stay, and what is left of the free
-- ones.
unfoldable pub sweep : (blocks free : List ℕ) → List ℕ × List ℕ
unfolding erase
sweep [] free = ([], free)
sweep (block ∷ blocks) free =
    let erased = sweep blocks (erase block free) in
    let rest = sweep blocks free in if member block free then erased else (block ∷ rest.0, rest.1)

-- `clean`, and whether it warns of a double free.
unfoldable pub clean : MemoryPool → MemoryPool
unfolding sweep
clean p = record p { blocks = (sweep p.blocks p.free_blocks).0; free_blocks = [] }

unfoldable pub warns : MemoryPool → Bool
unfolding sweep
warns p = not (is_empty (sweep p.blocks p.free_blocks).1)
