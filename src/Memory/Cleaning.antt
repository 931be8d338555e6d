-- ===== src/Memory/Cleaning.antt =====
-- server/utils/BufferAllocator.cpp: clean deletes no array that a user has, and none twice.
use Prim.{absurd, tt}
use zhttpd.Base.{
  ◌==◌, ==_iff, Bool-cases, member, update, erase, member-erase, Distinct-erase, member-erase_same,
  ℕ, true, false, List, [], ◌∷◌, some, ◌≡◌, refl, inl, inr, arith, ap, sym, ◌∙◌, Gives, Gives-bind,
  Gives-map,
}
use mathlib.Core.Path.{subst}
use zhttpd.Memory.{BufferAllocator, delete_array, discard, clean_blocks, clean}
use zhttpd.Memory.Reuse.{Users, IsSound, IsSound-count}

-- The allocator with other vectors.
abbrev with_blocks : List ℕ → BufferAllocator → BufferAllocator
with_blocks ps a = record a { blocks = ps }

-- A free block of the vector is deleted and forgotten.
abbrev without : ℕ → BufferAllocator → BufferAllocator
without p a = record a {
  heap = let h = a.heap in record h { alive = update h.alive p false };
  free_blocks = erase p a.free_blocks;
}

IsSound-without :
    (a : BufferAllocator) {users : Users} (p : ℕ) (ps : List ℕ)
    → IsSound (with_blocks (p ∷ ps) a) users
    → member p a.free_blocks ≡ true
    → IsSound (with_blocks ps (without p a)) users
IsSound-without a p ps s e = record {
  used = λ q n f. ground (arith, s.used q n f, s.free p e, ==_iff p q);
  free = λ q f. elim (Bool-cases (p == q)) [
    | inl g ↦ absurd (ground (arith, member-erase_same p a.free_blocks s.free_distinct, ==_iff p q))
    | inr g ↦ ground (arith, s.free q, member-erase q p a.free_blocks, ==_iff p q, ==_iff q p)
  ];
  free_distinct = Distinct-erase p a.free_blocks s.free_distinct;
  counted = λ q f. ground (arith, s.counted q, s.counted_distinct, ==_iff p q, ==_iff q p);
  counted_distinct = s.counted_distinct.1;
  older = λ q f. ground (arith, s.older q);
}

-- What the loop leaves: the arrays of the users, and no other blocks than it was given.
record IsCleaned (a : BufferAllocator) (users : Users) (ps : List ℕ) (b : BufferAllocator)
    : Type 0 where
  sound : IsSound b users
  fewer : (q : ℕ) → member q b.blocks ≡ true → member q ps ≡ true
  others : (q : ℕ) → member q ps ≡ false → b.heap.alive q ≡ a.heap.alive q
  same : b.heap.capacity ≡ a.heap.capacity

IsSound-rest :
    (a : BufferAllocator) {users : Users} (p : ℕ) (ps : List ℕ)
    → IsSound (with_blocks (p ∷ ps) a) users
    → IsSound (with_blocks ps a) users
IsSound-rest a p ps s = record {
  used = s.used;
  free = s.free;
  free_distinct = s.free_distinct;
  counted = λ q f. ground (arith, s.counted q);
  counted_distinct = s.counted_distinct.1;
  older = s.older;
}

-- The block at the end of the vector is deleted, or stays.
IsCleaned-without :
    {a : BufferAllocator} {users : Users} (p : ℕ) (ps : List ℕ) (b : BufferAllocator)
    → IsCleaned (without p a) users ps b
    → IsCleaned a users (p ∷ ps) b
IsCleaned-without p ps b c = record {
  sound = c.sound;
  fewer = λ q e. ground (arith, c.fewer q e);
  others = λ q e. c.others q (ground (arith, e)) ∙ ground (arith, e, ==_iff p q, ==_iff q p);
  same = c.same;
}

IsCleaned-keep :
    {a : BufferAllocator} {users : Users} (p : ℕ) (ps : List ℕ) (b : BufferAllocator)
    → IsSound (with_blocks (p ∷ ps) a) users
    → IsCleaned a users ps b
    → IsCleaned a users (p ∷ ps) (record b { blocks = p ∷ b.blocks })
IsCleaned-keep {a = a} p ps b s c = record {
  sound =
      IsSound-count c.sound p (ground (arith, c.fewer p, s.counted_distinct))
        (c.others p s.counted_distinct.0 ∙ (s.counted p (ground (arith, ==_iff p p))).0)
        (ap (λ (f : ℕ → ℕ). f p) c.same ∙ (s.counted p (ground (arith, ==_iff p p))).1);
  fewer = λ q e. ground (arith, c.fewer q);
  others = λ q e. c.others q (ground (arith, e));
  same = c.same;
}

discard_alive :
    (p : ℕ) (a : BufferAllocator)
    → a.heap.alive p ≡ true
    → discard p a
      ≡ some (record a { heap = let h = a.heap in record h { alive = update h.alive p false } })
unfolding discard delete_array
discard_alive p a e = rw e refl

clean_blocks-IsCleaned :
    (a : BufferAllocator) {users : Users} (ps : List ℕ)
    → IsSound (with_blocks ps a) users
    → Gives (IsCleaned a users ps) (clean_blocks ps (with_blocks [] a))
unfolding clean_blocks
clean_blocks-IsCleaned a {users = users} [] s =
    (_, (refl, record { sound = s; fewer = λ q e. e; others = λ q e. refl; same = refl }))
clean_blocks-IsCleaned a {users = users} (p ∷ ps) s = elim (Bool-cases (member p a.free_blocks)) [
  | inl e ↦ rw e (
      Gives-bind
        (λ b. b ≡ record (with_blocks [] a) {
          heap = let h = a.heap in record h { alive = update h.alive p false };
        })
        _ _ _ (_, (discard_alive p (with_blocks [] a) (s.free p e).1.0, refl))
        (λ b q.
          subst
            (λ b.
              Gives (IsCleaned a users (p ∷ ps))
                (clean_blocks ps (record b { free_blocks = erase p b.free_blocks })))
            (sym q)
            (Gives-map _ _ _ (clean_blocks-IsCleaned (without p a) ps (IsSound-without a p ps s e))
              (λ b c. IsCleaned-without p ps b c))))
  | inr e ↦ rw e (
      Gives-bind _ _ _ _ (clean_blocks-IsCleaned a ps (IsSound-rest a p ps s))
        (λ b c. (_, (refl, IsCleaned-keep p ps b s c))))
]

IsSound-forget :
    (a : BufferAllocator) {users : Users}
    → IsSound a users
    → IsSound (record a { free_blocks = [] }) users
IsSound-forget a s = record {
  used = s.used;
  free = λ p e. absurd (ground arith);
  free_distinct = tt;
  counted = s.counted;
  counted_distinct = s.counted_distinct;
  older = s.older;
}

pub clean-IsSound :
    {a : BufferAllocator} {users : Users}
    → IsSound a users
    → Gives (λ b. IsSound b users × (b.free_blocks ≡ [])) (clean a)
unfolding clean
clean-IsSound {a = a} {users = users} s =
    Gives-bind _ _ _ _ (clean_blocks-IsCleaned a a.blocks s)
      (λ b c. (_, (refl, (IsSound-forget b c.sound, refl))))
