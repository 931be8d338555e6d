-- ===== src/Tests/Arrays.antt =====
-- The allocator and the buffers on it at concrete inputs.
use zhttpd.Base.{◌+◌, ◌<◌, false, [], ◌∷◌, ◌++◌, none, some, update, ◌≡◌, refl, arith, ◌>>=◌, Gives}
use zhttpd.Memory.{
  Heap, BufferAllocator, allocate, take_block, new_array, release, resize, discard, delete_array,
  copy_to_new, copy, clean, clean_blocks,
}
use zhttpd.Memory.Reuse.{Users, IsSound}
use zhttpd.Memory.Reachable.{Reach, starts, allocates, Reach-IsSound}
use zhttpd.Memory.Buffers.{
  HeapBuffer, construct, construct_with, overwrite, range, raw_data, set_size, set_start_size,
  destroy,
}
use zhttpd.Memory.Refinement.{set_start_size-overruns, allocate-release_twice}

-- An allocator over a heap without arrays, whose memory holds 7 everywhere.
abbrev empty_heap : Heap
empty_heap = record { next = 0; capacity = λ p. 0; alive = λ p. false; bytes = λ p j. 7 }

abbrev empty_allocator : BufferAllocator
empty_allocator = record { heap = empty_heap; free_blocks = []; blocks = [] }

abbrev no_users : Users
no_users p = none

-- After the allocation of 100 bytes.
abbrev one_block : BufferAllocator
one_block = (allocate 100 empty_allocator).0

abbrev one_user : Users
one_user = update no_users 0 (some 100)

one_block-Reach : Reach one_block one_user
unfolding allocate take_block new_array
one_block-Reach = allocates 100 (starts empty_heap (λ p e. ground (arith, e)))

abbrev hello_buffer : BufferAllocator × HeapBuffer
hello_buffer = construct_with (104 ∷ 105 ∷ []) empty_allocator

construct_with_test : raw_data hello_buffer.1 hello_buffer.0 ≡ 104 ∷ 105 ∷ []
unfolding construct_with construct overwrite raw_data range allocate take_block new_array
construct_with_test = refl

-- A buffer that grows out of its block: the bytes move, and the block is free.
grown_test :
    set_size 5000 hello_buffer.1 hello_buffer.0
      >>= (λ (r : BufferAllocator × HeapBuffer). some (r.1.place ∷ r.0.free_blocks ++ r.0.blocks))
    ≡ some (1 ∷ 0 ∷ 0 ∷ [])
unfolding construct_with construct overwrite allocate take_block new_array set_size resize release
    copy_to_new copy
grown_test = refl

clean_test :
    destroy hello_buffer.1 hello_buffer.0
      >>= clean
      >>= (λ (a : BufferAllocator). some (a.heap.alive 0))
    ≡ some false
unfolding construct_with construct overwrite allocate take_block new_array destroy release clean
    clean_blocks discard delete_array
clean_test = refl

Reach-IsSound_example : IsSound one_block one_user
Reach-IsSound_example = Reach-IsSound one_block-Reach

abbrev hundred_bytes : HeapBuffer
hundred_bytes = record { place = 0; size = 100; offset = 0 }

-- 3000 bytes in a block of 4096, of which the socket took 2000.
abbrev large_buffer : BufferAllocator × HeapBuffer
large_buffer = construct 3000 empty_allocator

set_start_size-overruns_test :
    Gives
      (λ r. r.0.heap.capacity r.1.place < r.1.offset + r.1.size)
      (set_start_size 2000 1000 large_buffer.1 large_buffer.0)
unfolding construct allocate take_block new_array
set_start_size-overruns_test =
    set_start_size-overruns 2000 large_buffer.1 large_buffer.0 (omega arith) (omega arith)

allocate-release_twice_test :
    Gives
      (λ c. ((allocate 10 c).1 ≡ 0) × ((allocate 20 (allocate 10 c).0).1 ≡ 0))
      (release 0 100 one_block >>= release 0 100)
allocate-release_twice_test =
    allocate-release_twice 0 100 10 20 one_block (omega arith) (omega arith) (omega arith)
