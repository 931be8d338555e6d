-- ===== src/Memory/Buffers.antt =====
-- server/core/Buffer.hpp over server/utils/BufferAllocator.cpp: a buffer as a part of an array.
use zhttpd.Base.{update, Bytes, length, ℕ, zero, suc, ◌+◌, [], ◌∷◌, Option, some, ◌>>=◌}
use zhttpd.Memory.{BufferAllocator, allocate, release, resize}

-- `_data`, `_size` and `_offset`.
pub record HeapBuffer : Type 0 where
  pub place : ℕ
  pub size : ℕ
  pub offset : ℕ

-- `Buffer(allocator, size)`.
unfoldable pub construct : ℕ → BufferAllocator → BufferAllocator × HeapBuffer
unfolding allocate
construct n a = let r = allocate n a in (r.0, record { place = r.1; size = n; offset = 0 })

-- The bytes at the places from `i`.
unfoldable pub range : (ℕ → ℕ) → ℕ → ℕ → Bytes
range f i zero = []
range f i (suc n) = f i ∷ range f (suc i) n

-- `memcpy` from the bytes of a caller.
unfoldable pub overwrite : Bytes → ℕ → (ℕ → ℕ) → ℕ → ℕ
overwrite [] i f = f
overwrite (b ∷ bs) i f = overwrite bs (suc i) (update f i b)

-- `Buffer(allocator, data, size)`.
unfoldable pub construct_with : Bytes → BufferAllocator → BufferAllocator × HeapBuffer
unfolding construct overwrite
construct_with given a =
    let r = construct (length given) a in
    let b = r.0 in
    let h = b.heap in
    (
      record b {
        heap = record h {
          bytes = update h.bytes r.1.place (overwrite given 0 (h.bytes r.1.place));
        };
      },
      r.1,
    )

-- `~Buffer`.
unfoldable pub destroy : HeapBuffer → BufferAllocator → Option BufferAllocator
unfolding release
destroy b a = release b.place b.size a

-- `getRawData()[0 .. getSize())`.
unfoldable pub raw_data : HeapBuffer → BufferAllocator → Bytes
unfolding range
raw_data b a = range (a.heap.bytes b.place) b.offset b.size

-- `setSize(size)`.
unfoldable pub set_size : ℕ → HeapBuffer → BufferAllocator → Option (BufferAllocator × HeapBuffer)
unfolding resize
set_size n b a =
    resize b.place (b.offset + b.size) (b.offset + n) a
    >>= (λ (r : BufferAllocator × ℕ). some (r.0, record b { place = r.1; size = n }))

-- `setSize(start, size)`.
unfoldable pub set_start_size :
    ℕ → ℕ → HeapBuffer → BufferAllocator → Option (BufferAllocator × HeapBuffer)
unfolding set_size
set_start_size start n b a = set_size (start + n) (record b { offset = b.offset + start }) a
