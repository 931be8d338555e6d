-- ===== src/Memory/Operations.antt =====
-- server/utils/BufferAllocator.cpp: what allocate, release and resize do to the arrays of the users.
use zhttpd.Base.{
  ltb, leb, ◌==◌, lt→ltb, ==_iff, Bool-cases, update, elsewhere, ℕ, ◌≤◌, ◌<◌, false, List, [], ◌∷◌,
  Option, none, some, ◌≡◌, refl, inl, inr, arith, ap, ◌∙◌, ◌>>=◌, Gives, Gives-bind,
}
use zhttpd.Memory.{
  new_array, delete_array, copy, BufferAllocator, block_size, take_block, allocate, discard,
  release, copy_to_new, resize,
}
use zhttpd.Memory.Reuse.{
  Users, IsSound, unused_next, uncounted_next, IsSound-new_array, IsSound-reuse, IsSound-resized,
  IsSound-keep, IsSound-discard, IsSound-count, kept, IsSound-written, IsSound-same,
}

-- A new user at a place that had none; no byte is written.
abbrev pub IsAllocated : BufferAllocator → Users → ℕ → BufferAllocator × ℕ → Type 0
IsAllocated a users n (b, p) =
    IsSound b (update users p (some n)) × (users p ≡ none) × (b.heap.bytes ≡ a.heap.bytes)

module _ {a : BufferAllocator} {users : Users} (s : IsSound a users) where
  take_block-IsAllocated :
      (n : ℕ) (ps : List ℕ)
      → n ≤ block_size
      → a.free_blocks ≡ ps
      → IsAllocated a users n (take_block a ps)
  unfolding take_block new_array
  take_block-IsAllocated n [] h e = (
    IsSound-count (IsSound-new_array s block_size n (omega arith) h) a.heap.next (uncounted_next s)
        (ground (arith, ==_iff a.heap.next a.heap.next))
        (ground (arith, ==_iff a.heap.next a.heap.next)),
    unused_next s,
    refl,
  )
  take_block-IsAllocated n (p ∷ ps) h e = (IsSound-reuse s p n ps e h, (kept s p ps e).0, refl)

  pub allocate-IsAllocated : (n : ℕ) → IsAllocated a users n (allocate n a)
  unfolding allocate new_array
  allocate-IsAllocated n = elim (Bool-cases (ltb block_size n)) [
    | inl e ↦ rw e (IsSound-new_array s n n (ground arith) (omega arith), unused_next s, refl)
    | inr e ↦ rw e (take_block-IsAllocated n a.free_blocks (ground arith) refl)
  ]

  discard-IsSound :
      (p n : ℕ)
      → users p ≡ some n
      → block_size < n
      → Gives (λ b. IsSound b (update users p none) × (b.heap.bytes ≡ a.heap.bytes)) (discard p a)
  unfolding discard delete_array
  discard-IsSound p n e h = (
    record a { heap = let h = a.heap in record h { alive = update h.alive p false } },
    (ground (arith, s.used p n e), (IsSound-discard s p n e h, refl)),
  )

  pub release-IsSound :
      (p n m : ℕ)
      → users p ≡ some n
      → m ≤ n
      → Gives (λ b. IsSound b (update users p none) × (b.heap.bytes ≡ a.heap.bytes)) (release p m a)
  unfolding release
  release-IsSound p n m e h = elim (Bool-cases (ltb block_size m)) [
    | inl g ↦ rw g (discard-IsSound p n e (ground arith))
    | inr g ↦ rw g (_, (refl, (IsSound-keep s p n e, refl)))
  ]

-- The user of `n` bytes at one place has `m` bytes at a place that is its old one or that no other user
-- has, with its old bytes as far as both go; the other users keep their bytes.
abbrev pub IsResized : BufferAllocator → Users → ℕ → ℕ → ℕ → BufferAllocator × ℕ → Type 0
IsResized a users p n m (b, q) =
    IsSound b (update (update users p none) q (some m))
    × ((r k : ℕ)
        → users r ≡ some k
        → (p == r) ≡ false
        → ((q == r) ≡ false) × (b.heap.bytes r ≡ a.heap.bytes r))
    × ((j : ℕ) → j < n → j < m → b.heap.bytes q j ≡ a.heap.bytes p j)

module _ {a : BufferAllocator} {users : Users} (s : IsSound a users) where
  resized_in_place :
      (p n m : ℕ) → users p ≡ some n → m ≤ a.heap.capacity p → IsResized a users p n m (a, p)
  resized_in_place p n m e h = (
    IsSound-same (IsSound-resized s p n m e h) _ (λ q. ground arith),
    (λ r k f g. (g, refl)),
    (λ j f g. refl),
  )

  -- The state between the copy and the release of the old array.
  copied-IsSound :
      (p n m : ℕ)
      → block_size < m
      → IsSound (copy_to_new p n m a) (update users a.heap.next (some m))
  unfolding copy_to_new copy new_array
  copied-IsSound p n m h = IsSound-written (IsSound-new_array s m m (omega arith) (omega arith)) _

  apart : (r k : ℕ) → users r ≡ some k → (a.heap.next == r) ≡ false
  apart r k e = ground (arith, s.used r k e, s.older r, ==_iff a.heap.next r)

  moved :
      (p n m : ℕ) (b : BufferAllocator)
      → users p ≡ some n
      → IsSound b (update (update users a.heap.next (some m)) p none)
      → b.heap.bytes ≡ (copy_to_new p n m a).heap.bytes
      → IsResized a users p n m (b, a.heap.next)
  unfolding copy_to_new copy new_array
  moved p n m b e t f = (
    IsSound-same t _ (λ q. ground (arith, apart p n e, ==_iff p q, ==_iff a.heap.next q)),
    (λ r k g h. (apart r k g, ap (λ (o : ℕ → ℕ → ℕ). o r) f ∙ ground (arith, apart r k g))),
    (λ j g h.
        ap (λ (o : ℕ → ℕ → ℕ). o a.heap.next j) f
        ∙ ground (arith, ==_iff a.heap.next a.heap.next, lt→ltb j n g)),
  )

  still : (p n m : ℕ) → users p ≡ some n → update users a.heap.next (some m) p ≡ some n
  still p n m e = elsewhere users a.heap.next (some m) p (apart p n e) ∙ e

  -- The release of the old array by either way.
  resized_by :
      (p n m : ℕ) (o : Option BufferAllocator)
      → users p ≡ some n
      → Gives
          (λ b.
            IsSound b (update (update users a.heap.next (some m)) p none)
            × (b.heap.bytes ≡ (copy_to_new p n m a).heap.bytes))
          o
      → Gives (IsResized a users p n m) (o >>= (λ (b : BufferAllocator). some (b, a.heap.next)))
  resized_by p n m o e t =
      Gives-bind _ (IsResized a users p n m) o _ t (λ b (t, f). (_, (refl, moved p n m b e t f)))

  pub resize-IsResized :
      (p n m : ℕ) → users p ≡ some n → Gives (IsResized a users p n m) (resize p n m a)
  unfolding resize
  resize-IsResized p n m e = elim (Bool-cases (leb m n)) [
    | inl f ↦ rw f (_, (refl, resized_in_place p n m e (ground (arith, s.used p n e))))
    | inr f ↦ elim (Bool-cases (ltb block_size n)) [
      | inl g ↦
          rw (f, g)
            (resized_by p n m _ e (
              discard-IsSound (copied-IsSound p n m (ground arith)) p n (still p n m e)
                (ground arith)))
      | inr g ↦ elim (Bool-cases (ltb block_size m)) [
        | inl h ↦
            rw (f, g, h)
              (resized_by p n m _ e (
                _,
                (
                  refl,
                  (IsSound-keep (copied-IsSound p n m (ground arith)) p n (still p n m e), refl),
                ),
              ))
        | inr h ↦ rw (f, g, h) (_, (refl, resized_in_place p n m e (ground (arith, s.used p n e))))
      ]
    ]
  ]
