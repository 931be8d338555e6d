-- ===== src/Memory/Reuse.antt =====
-- server/utils/BufferAllocator.cpp: no array is deleted or kept for later use while a user has it.
use Prim.{absurd}
use zhttpd.Base.{
  Option-cases, ◌==◌, ==_iff, Bool-cases, member, update, Distinct, ℕ, ◌≤◌, ◌<◌, true, false, List,
  ◌∷◌, Option, none, some, ◌≡◌, inl, inr, arith, ap, ◌∙◌,
}
use mathlib.Core.Path.{subst}
use zhttpd.Memory.{Heap, new_array, BufferAllocator, block_size}

-- What the users of an allocator have: the bytes that the array at a place is to hold.
abbrev pub Users : Type 0
Users = ℕ → Option ℕ

-- The array at a place stands, is as large as a block, and holds so many bytes.
abbrev pub Holds : Heap → ℕ → ℕ → Type 0
Holds h p n = (h.alive p ≡ true) × (block_size ≤ h.capacity p) × (n ≤ h.capacity p)

-- The arrays of the users stand and have room, in blocks or larger arrays; those kept for later use
-- stand, are as large as a block and have no user; those that are counted are blocks and stand.
pub record IsSound (a : BufferAllocator) (users : Users) : Type 0 where
  pub used : (p n : ℕ) → users p ≡ some n → Holds a.heap p n
  pub free : (p : ℕ) → member p a.free_blocks ≡ true → (users p ≡ none) × Holds a.heap p block_size
  pub free_distinct : Distinct a.free_blocks
  pub counted :
      (p : ℕ)
      → member p a.blocks ≡ true
      → (a.heap.alive p ≡ true) × (a.heap.capacity p ≡ block_size)
  pub counted_distinct : Distinct a.blocks
  pub older : (p : ℕ) → a.heap.alive p ≡ true → p < a.heap.next

module _ {a : BufferAllocator} {users : Users} (s : IsSound a users) where
  pub unused_next : users a.heap.next ≡ none
  unused_next = elim (Option-cases (users a.heap.next)) [
    | inl e ↦ e
    | inr (n, e) ↦ absurd (ground (arith, s.used a.heap.next n e, s.older a.heap.next))
  ]

  pub uncounted_next : member a.heap.next a.blocks ≡ false
  uncounted_next = ground (arith, s.counted a.heap.next, s.older a.heap.next)

  -- A new array with a user.
  pub IsSound-new_array :
      (size n : ℕ)
      → block_size ≤ size
      → n ≤ size
      → IsSound (record a { heap = new_array size a.heap }) (update users a.heap.next (some n))
  unfolding new_array
  IsSound-new_array size n h g = record {
    used = λ p m e. elim (Bool-cases (a.heap.next == p)) [
      | inl q ↦ ground arith
      | inr q ↦ ground (arith, s.used p m)
    ];
    free = λ p e.
        (ground (arith, s.free p e, s.older p, ==_iff a.heap.next p), ground (arith, s.free p e));
    free_distinct = s.free_distinct;
    counted = λ p e. (
      ground (arith, s.counted p e),
      ground (arith, s.counted p e, s.older p, ==_iff a.heap.next p),
    );
    counted_distinct = s.counted_distinct;
    older = λ p e. ground (arith, s.older p, ==_iff a.heap.next p);
  }

  lone : (p : ℕ) (ps : List ℕ) → a.free_blocks ≡ p ∷ ps → Distinct (p ∷ ps)
  lone p ps e = subst Distinct e s.free_distinct

  pub kept :
      (p : ℕ) (ps : List ℕ) → a.free_blocks ≡ p ∷ ps → (users p ≡ none) × Holds a.heap p block_size
  kept p ps e = s.free p (ap (member p) e ∙ ground (arith, ==_iff p p))

  -- A block that was kept for later use gets a user.
  pub IsSound-reuse :
      (p n : ℕ) (ps : List ℕ)
      → a.free_blocks ≡ p ∷ ps
      → n ≤ block_size
      → IsSound (record a { free_blocks = ps }) (update users p (some n))
  IsSound-reuse p n ps e h = record {
    used = λ q m f. ground (arith, s.used q m, kept p ps e, ==_iff p q);
    free = λ q f. ground (arith, s.free q, ==_iff p q, ap (member q) e, lone p ps e);
    free_distinct = (lone p ps e).1;
    counted = s.counted;
    counted_distinct = s.counted_distinct;
    older = s.older;
  }

  -- A user wants another part of its array.
  pub IsSound-resized :
      (p n m : ℕ) → users p ≡ some n → m ≤ a.heap.capacity p → IsSound a (update users p (some m))
  IsSound-resized p n m e h = record {
    used = λ q k f. elim (Bool-cases (p == q)) [
      | inl g ↦ ground (arith, s.used p n, ==_iff p q)
      | inr g ↦ ground (arith, s.used q k)
    ];
    free = λ q f. ground (arith, s.free q f, ==_iff p q);
    free_distinct = s.free_distinct;
    counted = s.counted;
    counted_distinct = s.counted_distinct;
    older = s.older;
  }

  -- A user gives its block back.
  pub IsSound-keep :
      (p n : ℕ)
      → users p ≡ some n
      → IsSound (record a { free_blocks = p ∷ a.free_blocks }) (update users p none)
  IsSound-keep p n e = record {
    used = λ q k f. ground (arith, s.used q k);
    free = λ q f. ground (arith, s.free q, s.used p n e, ==_iff p q);
    free_distinct = (ground (arith, s.free p), s.free_distinct);
    counted = s.counted;
    counted_distinct = s.counted_distinct;
    older = s.older;
  }

  -- The array of a user is deleted, if it is larger than a block.
  pub IsSound-discard :
      (p n : ℕ)
      → users p ≡ some n
      → block_size < n
      → IsSound
          (record a { heap = let h = a.heap in record h { alive = update h.alive p false } })
          (update users p none)
  IsSound-discard p n e h = record {
    used = λ q k f. ground (arith, s.used q k);
    free = λ q f. ground (arith, s.free q f, ==_iff p q);
    free_distinct = s.free_distinct;
    counted = λ q f. ground (arith, s.counted q f, s.used p n e, ==_iff p q);
    counted_distinct = s.counted_distinct;
    older = λ q f. ground (arith, s.older q);
  }

  -- A block that stands is counted.
  pub IsSound-count :
      (p : ℕ)
      → member p a.blocks ≡ false
      → a.heap.alive p ≡ true
      → a.heap.capacity p ≡ block_size
      → IsSound (record a { blocks = p ∷ a.blocks }) users
  IsSound-count p h g e = record {
    used = s.used;
    free = s.free;
    free_distinct = s.free_distinct;
    counted = λ q f. ground (arith, s.counted q, ==_iff q p);
    counted_distinct = (h, s.counted_distinct);
    older = s.older;
  }

  -- Bytes are written.
  pub IsSound-written :
      (f : ℕ → ℕ → ℕ) → IsSound (record a { heap = let h = a.heap in record h { bytes = f } }) users
  IsSound-written f = record {
    used = s.used;
    free = s.free;
    free_distinct = s.free_distinct;
    counted = s.counted;
    counted_distinct = s.counted_distinct;
    older = s.older;
  }

  pub IsSound-same : (others : Users) → ((p : ℕ) → users p ≡ others p) → IsSound a others
  IsSound-same others e = record {
    used = λ p n h. s.used p n (e p ∙ h);
    free = λ p h. ground (arith, s.free p h, e p);
    free_distinct = s.free_distinct;
    counted = s.counted;
    counted_distinct = s.counted_distinct;
    older = s.older;
  }
