-- ===== src/ModuleManager/Instances.antt =====
-- server/modules/common/AbstractManager.hpp: no module is in use twice, and each is deleted once.
use zhttpd.Base.{ℕ, some, ◌≡◌}
use zhttpd.MemoryPool.{MemoryPool}
use zhttpd.MemoryPool.Reachable.{IsShared}
use zhttpd.ModuleManager.{StatefullManager, begin, get_instance, release_instance}

-- What any calls lead to that the program survives.
pub data Reach : StatefullManager → Type 0 where
  starts : (next : ℕ) → Reach (begin next)
  gets : {m : StatefullManager} → Reach m → Reach (get_instance m).1
  releases : (i : ℕ) {m n : StatefullManager} → Reach m → release_instance i m ≡ some n → Reach n

abbrev Shares : StatefullManager → Type 0
Shares m = IsShared m.allocated_modules m.memory_pool
