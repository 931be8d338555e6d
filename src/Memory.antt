-- ===== src/Memory.antt =====
-- server/utils/BufferAllocator.cpp, and the data of server/core/Buffer.hpp: the arrays of the heap, the
-- allocator that keeps blocks of one size for later use, and the buffers that stand on them.

pub mod Reuse
pub mod Operations
pub mod Cleaning
pub mod Buffers
pub mod Reachable
pub mod Refinement
use zhttpd.Base.{
  ltb, leb, ◌==◌, if◌then◌else◌, member, update, erase, ℕ, zero, suc, ◌+◌, Bool, true, false, List,
  [], ◌∷◌, Option, none, some, ◌≡◌, refl, ◌>>=◌,
}

-- The heap: the place of the next array that `new` gives, the room of each, whether it stands, and the
-- byte at each offset. What nothing has written, and what is behind the end, is not determined.
pub record Heap : Type 0 where
  pub next : ℕ
  pub capacity : ℕ → ℕ
  pub alive : ℕ → Bool
  pub bytes : ℕ → ℕ → ℕ

-- `new char[size]`, which gives `next`.
unfoldable pub new_array : ℕ → Heap → Heap
new_array size h = record h {
  next = suc h.next;
  capacity = update h.capacity h.next size;
  alive = update h.alive h.next true;
}

-- `delete [] data`, which must stand.
unfoldable pub delete_array : ℕ → Heap → Option Heap
delete_array p h = if h.alive p then some (record h { alive = update h.alive p false }) else none

-- `memcpy`.
unfoldable pub copy : ℕ → ℕ → ℕ → Heap → Heap
copy to from n h = record h {
  bytes = update h.bytes to (λ j. if ltb j n then h.bytes from j else h.bytes to j);
}

-- The vectors of the allocator, the last element first, and the heap that it uses.
pub record BufferAllocator : Type 0 where
  pub heap : Heap
  pub free_blocks : List ℕ
  pub blocks : List ℕ

-- `BLOCK_SIZE`.
abbrev pub block_size : ℕ
block_size = 4096

-- The block that `allocate` takes, or makes.
unfoldable pub take_block : BufferAllocator → List ℕ → BufferAllocator × ℕ
unfolding new_array
take_block a [] =
    (record a { heap = new_array block_size a.heap; blocks = a.heap.next ∷ a.blocks }, a.heap.next)
take_block a (p ∷ ps) = (record a { free_blocks = ps }, p)

unfoldable pub allocate : ℕ → BufferAllocator → BufferAllocator × ℕ
unfolding new_array take_block
allocate size a =
    if ltb block_size size
    then (record a { heap = new_array size a.heap }, a.heap.next)
    else take_block a a.free_blocks

-- `delete [] data` by the allocator.
unfoldable pub discard : ℕ → BufferAllocator → Option BufferAllocator
unfolding delete_array
discard p a = delete_array p a.heap >>= (λ (h : Heap). some (record a { heap = h }))

unfoldable pub release : ℕ → ℕ → BufferAllocator → Option BufferAllocator
unfolding discard
release p size a =
    if ltb block_size size then discard p a else some (record a { free_blocks = p ∷ a.free_blocks })

-- The new array of `resize` with the old bytes.
unfoldable pub copy_to_new : ℕ → ℕ → ℕ → BufferAllocator → BufferAllocator
unfolding new_array copy
copy_to_new p old_size new_size a = record a {
  heap = copy a.heap.next p old_size (new_array new_size a.heap);
}

unfoldable pub resize : ℕ → ℕ → ℕ → BufferAllocator → Option (BufferAllocator × ℕ)
unfolding discard release copy_to_new
resize p old_size new_size a =
    let moved = copy_to_new p old_size new_size a in
    if leb new_size old_size
    then some (a, p)
    else if ltb block_size old_size
    then discard p moved >>= (λ (b : BufferAllocator). some (b, a.heap.next))
    else if ltb block_size new_size
    then release p old_size moved >>= (λ (b : BufferAllocator). some (b, a.heap.next))
    else some (a, p)

-- The loop of `clean` over the vector of the blocks.
unfoldable pub clean_blocks : List ℕ → BufferAllocator → Option BufferAllocator
unfolding discard erase
clean_blocks [] a = some a
clean_blocks (p ∷ ps) a =
    if member p a.free_blocks
    then discard p a >>= (λ (b : BufferAllocator).
      clean_blocks ps (record b { free_blocks = erase p b.free_blocks }))
    else clean_blocks ps a >>= (λ (b : BufferAllocator). some (record b { blocks = p ∷ b.blocks }))

-- What is left in the vector of the free blocks is dropped, with a warning of a double release.
unfoldable pub clean : BufferAllocator → Option BufferAllocator
unfolding clean_blocks
clean a =
    clean_blocks a.blocks (record a { blocks = [] })
    >>= (λ (b : BufferAllocator). some (record b { free_blocks = [] }))
