-- ===== src/MemoryPool/Sweep.antt =====
-- server/utils/MemoryPool.hpp: what `clean` deletes, and when it warns.
use zhttpd.Base.{
  ℕ, ◌-◌, ◌<◌, true, List, [], ◌∷◌, ==_iff, member, erase, Bool-cases, ◌≡◌, ◌↔◌, refl, arith, inl,
  inr, is_empty, not, occurrences, occurrences-member, occurrences-absent, occurrences-erase,
}
use zhttpd.MemoryPool.{MemoryPool, sweep, clean, warns}

sweep-occurrences :
    (i : ℕ) (blocks free : List ℕ)
    → let s = sweep blocks free in
      (occurrences i s.0 ≡ occurrences i blocks - occurrences i free)
      × (occurrences i s.1 ≡ occurrences i free - occurrences i blocks)
unfolding sweep
sweep-occurrences i [] free = (omega arith, omega arith)
sweep-occurrences i (block ∷ blocks) free = elim (Bool-cases (member block free)) [
  | inl e ↦
      let h = sweep-occurrences i blocks (erase block free) in
      simp e (
        ground (
          arith,
          h.0,
          h.1,
          occurrences-erase i block free,
          occurrences-member block free e,
          ==_iff i block,
        ))
  | inr e ↦
      let h = sweep-occurrences i blocks free in
      simp e (ground (arith, h.0, h.1, occurrences-absent block free e, ==_iff i block))
]

-- `clean`, whatever was released: of each object it deletes as many blocks as are free, and keeps none
-- of the free ones. It warns of a double free exactly if some object was free more often than there is
-- a block of it.
pub clean-occurrences :
    (p : MemoryPool)
    → ((i : ℕ)
        → occurrences i (clean p).blocks ≡ occurrences i p.blocks - occurrences i p.free_blocks)
      × ((clean p).free_blocks ≡ [])
      × (warns p ≡ true ↔ (i : ℕ) × (occurrences i p.blocks < occurrences i p.free_blocks))
unfolding clean warns
clean-occurrences p = (
  (λ i. (sweep-occurrences i p.blocks p.free_blocks).0),
  refl,
  (
    (λ e.
        let (i, h) = not_empty (sweep p.blocks p.free_blocks).1 e in
        (i, omega (arith, h, (sweep-occurrences i p.blocks p.free_blocks).1))),
    (λ (i, h).
        of_occurrences i (sweep p.blocks p.free_blocks).1
          (omega (arith, h, (sweep-occurrences i p.blocks p.free_blocks).1))),
  ),
)
  where
    not_empty : (js : List ℕ) → not (is_empty js) ≡ true → (i : ℕ) × (0 < occurrences i js)
    not_empty [] e = cc
    not_empty (j ∷ js) e = (j, ground (arith, ==_iff j j))

    of_occurrences : (i : ℕ) (js : List ℕ) → 0 < occurrences i js → not (is_empty js) ≡ true
    of_occurrences i [] h = absurd (omega arith)
    of_occurrences i (j ∷ js) h = refl
