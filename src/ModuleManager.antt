-- ===== src/ModuleManager.antt =====
-- server/modules/common/AbstractManager.hpp: how the managers of modules make and keep their
-- instances, in a build with `ZHTTPD_DEBUG`. In others `_allocated_modules` is not there, and a manager
-- only passes its calls on to the pool.
pub mod Instances
use zhttpd.Base.{
  ℕ, Bool, List, [], ◌∷◌, Option, none, some, if◌then◌else◌, member, insert, erase, not, is_empty,
}
use zhttpd.MemoryPool.{MemoryPool, empty, allocate, release, clean, warns}

-- `_memory_pool` and `_allocated_modules` of a `StatefullManagementPolicy`.
pub record StatefullManager : Type 0 where
  pub memory_pool : MemoryPool
  pub allocated_modules : List ℕ

abbrev pub begin : ℕ → StatefullManager
begin next = record { memory_pool = empty next; allocated_modules = [] }

-- `getInstance`.
unfoldable pub get_instance : StatefullManager → ℕ × StatefullManager
unfolding allocate insert
get_instance m =
    let a = allocate m.memory_pool in
    (a.0, record { memory_pool = a.1; allocated_modules = insert a.0 m.allocated_modules })

-- `releaseInstance`, whose assertion stops the program for a module that is not allocated.
unfoldable pub release_instance : ℕ → StatefullManager → Option StatefullManager
unfolding release erase
release_instance i m =
    if member i m.allocated_modules
    then some (record {
      memory_pool = release i m.memory_pool;
      allocated_modules = erase i m.allocated_modules;
    })
    else none

-- The loop of the destructor, which gives back the modules that are left.
unfoldable pub release_all : List ℕ → MemoryPool → MemoryPool
unfolding release
release_all [] p = p
release_all (i ∷ is) p = release_all is (release i p)

-- The destructor and that of the pool behind it: the pool, and whether it warns of a double free.
unfoldable pub finish : StatefullManager → MemoryPool × Bool
unfolding release_all clean warns
finish m = let p = release_all m.allocated_modules m.memory_pool in (clean p, warns p)
