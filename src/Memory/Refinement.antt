-- ===== src/Memory/Refinement.antt =====
-- server/core/Buffer.hpp over server/utils/BufferAllocator.cpp: `setSize` as its callers see it, and
-- what a partial write and a second release lead to.
use zhttpd.Base.{le→ltb_false, Bytes, ℕ, ◌+◌, ◌-◌, ◌≤◌, ◌<◌, ◌∷◌, ◌≡◌, refl, arith, ◌>>=◌, Gives}
use zhttpd.Api.{Buffer}
use zhttpd.Network
use zhttpd.Memory.{BufferAllocator, block_size, allocate, take_block, release, resize}
use zhttpd.Memory.Buffers.{HeapBuffer, raw_data, set_size, set_start_size}

-- A buffer as the models of the modules have it.
abbrev pub seen_as : ℕ → HeapBuffer → BufferAllocator → Buffer
seen_as id b a = record { id = id; bytes = raw_data b a }

-- The buffer has the bytes that the models of the modules give it, with some bytes behind its old end.
abbrev pub Refines :
    (id n : ℕ) → HeapBuffer → BufferAllocator → BufferAllocator × HeapBuffer → Type 0
Refines id n b a (c, d) =
    (behind : Bytes) × (seen_as id d c ≡ Network.set_size n behind (seen_as id b a))

-- The setSize after a partial write, of the bytes taken and those left, succeeds and leaves a buffer
-- that ends behind its array, if the bytes taken and the size before do not fit the array together
-- from its offset.
pub set_start_size-overruns :
    (sent : ℕ) (b : HeapBuffer) (a : BufferAllocator)
    → sent ≤ b.size
    → a.heap.capacity b.place < b.offset + sent + b.size
    → Gives
        (λ r. r.0.heap.capacity r.1.place < r.1.offset + r.1.size)
        (set_start_size sent (b.size - sent) b a)
unfolding set_start_size set_size resize
set_start_size-overruns sent b a h g = (
  (a, record { place = b.place; size = sent + (b.size - sent); offset = b.offset + sent }),
  (ground arith, omega arith),
)

-- After a part of a block is released twice, the next two allocations of no more than a block both give
-- that block.
pub allocate-release_twice :
    (p m n k : ℕ) (a : BufferAllocator)
    → m ≤ block_size
    → n ≤ block_size
    → k ≤ block_size
    → Gives
        (λ c. ((allocate n c).1 ≡ p) × ((allocate k (allocate n c).0).1 ≡ p))
        (release p m a >>= release p m)
unfolding allocate take_block release
allocate-release_twice p m n k a h g f =
    rw (le→ltb_false block_size m h, le→ltb_false block_size n g, le→ltb_false block_size k f)
      (
        record a { free_blocks = p ∷ p ∷ a.free_blocks },
        (rw (le→ltb_false block_size m h) refl, (refl, refl)),
      )
