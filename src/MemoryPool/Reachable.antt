-- ===== src/MemoryPool/Reachable.antt =====
-- server/utils/MemoryPool.hpp: every state that its users lead to.
use zhttpd.Base.{
  ℕ, ◌+◌, ◌≤◌, true, List, [], ◌∷◌, ==_iff, member, erase, ◌≡◌, refl, arith, ◌≢◌, occurrences,
  occurrences-member, occurrences-erase,
}
use zhttpd.MemoryPool.{MemoryPool, empty, allocate, release, clean, warns}
use zhttpd.MemoryPool.Sweep.{clean-occurrences}

-- The pool and the objects in use, after any calls of users that give back only what they have.
pub data Reach : List ℕ → MemoryPool → Type 0 where
  starts : (next : ℕ) → Reach [] (empty next)
  allocates :
      {live : List ℕ} {p : MemoryPool} → Reach live p → Reach ((allocate p).0 ∷ live) (allocate p).1
  releases :
      (block : ℕ) {live : List ℕ} {p : MemoryPool}
      → Reach live p
      → member block live ≡ true
      → Reach (erase block live) (release block p)
  cleans : {live : List ℕ} {p : MemoryPool} → Reach live p → Reach live (clean p)

-- Each block is in use or free, never both, and the pool has it once; `new` makes new ones.
pub record IsShared (live : List ℕ) (p : MemoryPool) : Type 0 where
  pub counted : (i : ℕ) → occurrences i live + occurrences i p.free_blocks ≡ occurrences i p.blocks
  pub once : (i : ℕ) → occurrences i p.blocks ≤ 1
  pub older : (i : ℕ) → p.next ≤ i → occurrences i p.blocks ≡ 0

pub allocate-IsShared :
    {live : List ℕ} (free blocks : List ℕ) (next : ℕ)
    → let p : MemoryPool = record { free_blocks = free; blocks = blocks; next = next } in
      IsShared live p → IsShared ((allocate p).0 ∷ live) (allocate p).1
unfolding allocate
allocate-IsShared [] blocks next s = record {
  counted = λ i. ground (arith, s.counted i);
  once = λ i. ground (arith, s.once i, s.older i, ==_iff i next);
  older = λ i h. ground (arith, s.older i, ==_iff i next);
}
allocate-IsShared (block ∷ free) blocks next s = record {
  counted = λ i. ground (arith, s.counted i);
  once = s.once;
  older = s.older;
}

pub starts-IsShared : (next : ℕ) → IsShared [] (empty next)
starts-IsShared next = record { counted = λ i. refl; once = λ i. omega arith; older = λ i h. refl }

pub release-IsShared :
    (block : ℕ) {live : List ℕ} {p : MemoryPool}
    → IsShared live p
    → member block live ≡ true
    → IsShared (erase block live) (release block p)
unfolding release
release-IsShared block {live} {p} s h = record {
  counted = λ i. ground (
    arith,
    s.counted i,
    occurrences-erase i block live,
    occurrences-member block live h,
    ==_iff i block,
  );
  once = s.once;
  older = s.older;
}

pub Reach-IsShared : {live : List ℕ} {p : MemoryPool} → Reach live p → IsShared live p
unfolding clean
Reach-IsShared (starts next) = starts-IsShared next
Reach-IsShared (allocates {p = p} r) =
    allocate-IsShared p.free_blocks p.blocks p.next (Reach-IsShared r)
Reach-IsShared (releases block r h) = release-IsShared block (Reach-IsShared r) h
Reach-IsShared (cleans {live} {p} r) =
    let s = Reach-IsShared r in
    let c = (clean-occurrences p).0 in
    record {
      counted = λ i. omega (arith, s.counted i, c i);
      once = λ i. omega (arith, s.once i, c i);
      older = λ i h. omega (arith, s.older i h, c i);
    }

-- What `allocate` gives is in use nowhere.
pub allocate-unused :
    {live : List ℕ} {p : MemoryPool} → IsShared live p → occurrences (allocate p).0 live ≡ 0
allocate-unused {live} {p} s =
    let next = allocate-IsShared p.free_blocks p.blocks p.next s in
    ground (
      arith,
      next.counted (allocate p).0,
      next.once (allocate p).0,
      ==_iff (allocate p).0 (allocate p).0,
    )

-- In every state that the pool comes to, if its users give back only objects that they have in use,
-- each object in use was given to one user and has its block,
-- the object that `allocate` gives next is in use nowhere, and a `clean` would delete the blocks
-- of exactly the objects that are not in use, and warn of nothing.
pub Reach-IsApart :
    {live : List ℕ} {p : MemoryPool}
    → Reach live p
    → ((i : ℕ) → occurrences i live ≤ 1)
      × (occurrences (allocate p).0 live ≡ 0)
      × ((i : ℕ) → occurrences i (clean p).blocks ≡ occurrences i live)
      × (warns p ≢ true)
Reach-IsApart {live} {p} r =
    let s = Reach-IsShared r in
    let c = clean-occurrences p in
    (
      (λ i. omega (arith, s.counted i, s.once i)),
      allocate-unused s,
      (λ i. omega (arith, c.0 i, s.counted i)),
      (λ e. let (i, h) = c.2.0 e in omega (arith, h, s.counted i)),
    )
