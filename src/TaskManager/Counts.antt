-- ===== src/TaskManager/Counts.antt =====
-- server/core/TaskManager.cpp: counts of the tasks of a request.
use zhttpd.Base.{ℕ, suc, ◌+◌, Bool, List, [], ◌∷◌, ◌++◌, ◌==◌, if◌then◌else◌, ◌≡◌, arith}
use zhttpd.Tasks.{ModuleTask}

-- How many tasks of a request there are.
abbrev pub count : ℕ → List (ℕ × ModuleTask) → ℕ
count i [] = 0
count i ((j, task) ∷ ws) = if i == j then suc (count i ws) else count i ws

abbrev pub weight : Bool → ℕ
weight b = if b then 1 else 0

pub count-append :
    (i : ℕ) (xs ys : List (ℕ × ModuleTask)) → count i (xs ++ ys) ≡ count i xs + count i ys
count-append i [] ys = omega arith
count-append i ((j, task) ∷ xs) ys = ground (arith, count-append i xs ys)
