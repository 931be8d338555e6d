-- ===== src/Memory/Reachable.antt =====
-- server/utils/BufferAllocator.cpp: every state that the calls of its users, the writes to their arrays
-- and the rest of the program lead to.
use Prim.{absurd, tt}
use zhttpd.Base.{==_iff, update, ℕ, ◌≤◌, ◌<◌, true, [], none, some, ◌≡◌, arith, Gives-at}
use zhttpd.Memory.{Heap, new_array, BufferAllocator, allocate, release, resize, clean}
use zhttpd.Memory.Reuse.{Users, IsSound, IsSound-written}
use zhttpd.Memory.Operations.{allocate-IsAllocated, release-IsSound, resize-IsResized}
use zhttpd.Memory.Cleaning.{clean-IsSound}

-- A state of the allocator and what its users have.
pub data Reach : BufferAllocator → Users → Type 0 where
  starts :
      (h : Heap)
      → ((p : ℕ) → h.alive p ≡ true → p < h.next)
      → Reach (record { heap = h; free_blocks = []; blocks = [] }) (λ p. none)
  allocates :
      (n : ℕ) {a : BufferAllocator} {users : Users}
      → Reach a users
      → Reach (allocate n a).0 (update users (allocate n a).1 (some n))
  resizes :
      (p n m q : ℕ) {a b : BufferAllocator} {users : Users}
      → Reach a users
      → users p ≡ some n
      → resize p n m a ≡ some (b, q)
      → Reach b (update (update users p none) q (some m))
  releases :
      (p n m : ℕ) {a b : BufferAllocator} {users : Users}
      → Reach a users
      → users p ≡ some n
      → m ≤ n
      → release p m a ≡ some b
      → Reach b (update users p none)
  cleans :
      {a b : BufferAllocator} {users : Users} → Reach a users → clean a ≡ some b → Reach b users
  writes :
      (f : ℕ → ℕ → ℕ) {a : BufferAllocator} {users : Users}
      → Reach a users
      → Reach (record a { heap = let h = a.heap in record h { bytes = f } }) users
  elsewhere_new :
      (n : ℕ) {a : BufferAllocator} {users : Users}
      → Reach a users
      → Reach (record a { heap = new_array n a.heap }) users

IsSound-elsewhere :
    (n : ℕ) {a : BufferAllocator} {users : Users}
    → IsSound a users
    → IsSound (record a { heap = new_array n a.heap }) users
unfolding new_array
IsSound-elsewhere n {a = a} s = record {
  used = λ p m e. ground (arith, s.used p m e, s.older p, ==_iff a.heap.next p);
  free = λ p e. ground (arith, s.free p e, s.older p, ==_iff a.heap.next p);
  free_distinct = s.free_distinct;
  counted = λ p e. ground (arith, s.counted p e, s.older p, ==_iff a.heap.next p);
  counted_distinct = s.counted_distinct;
  older = λ p e. ground (arith, s.older p, ==_iff a.heap.next p);
}

-- In every state that the allocator comes to, by any writes, any other arrays of the program and calls of
-- its users in which only an array that its user holds is released or resized, a resize being told the
-- bytes held and a release no more than them: the array of each user stands and has room for its bytes,
-- the blocks that are kept for later use stand, are at least as large as a block, are kept once and have
-- no user, and those that are counted are blocks and stand.
pub Reach-IsSound : {a : BufferAllocator} {users : Users} → Reach a users → IsSound a users
Reach-IsSound (starts h o) = record {
  used = λ p n e. absurd (ground (arith, e));
  free = λ p e. absurd (ground arith);
  free_distinct = tt;
  counted = λ p e. absurd (ground arith);
  counted_distinct = tt;
  older = o;
}
Reach-IsSound (allocates n r) = (allocate-IsAllocated (Reach-IsSound r) n).0
Reach-IsSound (resizes p n m q r e f) =
    (Gives-at _ _ _ f (resize-IsResized (Reach-IsSound r) p n m e)).0
Reach-IsSound (releases p n m r e h f) =
    (Gives-at _ _ _ f (release-IsSound (Reach-IsSound r) p n m e h)).0
Reach-IsSound (cleans r f) = (Gives-at _ _ _ f (clean-IsSound (Reach-IsSound r))).0
Reach-IsSound (writes f r) = IsSound-written (Reach-IsSound r) f
Reach-IsSound (elsewhere_new n r) = IsSound-elsewhere n (Reach-IsSound r)
