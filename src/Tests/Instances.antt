-- ===== src/Tests/Instances.antt =====
-- The pool of objects and the instances of modules.
use zhttpd.Base.{ℕ, ◌-◌, ◌≤◌, ◌<◌, true, [], ◌∷◌, ◌≡◌, ◌≢◌, ◌↔◌, refl, occurrences, erase}
use zhttpd.MemoryPool.{MemoryPool, allocate, release, clean, warns}
use zhttpd.MemoryPool.Sweep.{clean-occurrences}
use zhttpd.MemoryPool.Reachable.{Reach-IsApart, starts, allocates, releases}
use zhttpd.ModuleManager.{StatefullManager}
use zhttpd.ModuleManager.Instances

-- Two blocks, one of them released twice.
abbrev released_twice : MemoryPool
released_twice = record { free_blocks = 7 ∷ 7 ∷ []; blocks = 8 ∷ 7 ∷ []; next = 9 }

clean-occurrences_example :
    ((i : ℕ)
      → occurrences i (clean released_twice).blocks
        ≡ occurrences i (8 ∷ 7 ∷ []) - occurrences i (7 ∷ 7 ∷ []))
    × ((clean released_twice).free_blocks ≡ [])
    × (warns released_twice ≡ true
        ↔ (i : ℕ) × (occurrences i (8 ∷ 7 ∷ []) < occurrences i (7 ∷ 7 ∷ [])))
clean-occurrences_example = clean-occurrences released_twice

clean_test :
    (clean released_twice ≡ record { free_blocks = []; blocks = 8 ∷ []; next = 9 })
    × (warns released_twice ≡ true)
unfolding clean warns
clean_test = (refl, refl)

-- Two blocks, of which the older is free again.
abbrev one_free : MemoryPool
one_free = record { free_blocks = 0 ∷ []; blocks = 1 ∷ 0 ∷ []; next = 2 }

Reach-IsApart_example :
    ((i : ℕ) → occurrences i (1 ∷ []) ≤ 1)
    × (occurrences (allocate one_free).0 (1 ∷ []) ≡ 0)
    × ((i : ℕ) → occurrences i (clean one_free).blocks ≡ occurrences i (1 ∷ []))
    × (warns one_free ≢ true)
unfolding allocate release erase
Reach-IsApart_example =
    Reach-IsApart {live = 1 ∷ []} {p = one_free}
      (releases 0 (allocates (allocates (starts 0))) refl)

abbrev one_in_use : StatefullManager
one_in_use = record { memory_pool = one_free; allocated_modules = 1 ∷ [] }
