-- ===== src/Configuration.antt =====
-- server/configuration/Configuration.cpp, `getModuleManager` of ModuleConfiguration.cpp and
-- `getModuleManager` of ModuleManagerFactory.cpp: the modules by their names and the ports they serve.
pub mod Ports
use zhttpd.Base.{
  ℕ, suc, Bool, true, false, not, ◌&&◌, Bytes, codes, eq_bytes, Option, none, some, if◌then◌else◌,
  update, is_empty, ◌>>=◌, [],
}
use zhttpd.Headers.{HeaderMap}

-- A manager, and the options that it was given.
pub record Manager : Type 0 where
  pub id : ℕ
  pub entries : HeaderMap

-- A `ModuleConfiguration`: `_name`, `_options`, `_enabled` and `_loaded` with `_manager`.
pub record Module : Type 0 where
  pub name : Bytes
  pub options : HeaderMap
  pub enabled : Bool
  pub loaded : Bool
  pub manager : Option Manager

-- Its constructor.
abbrev pub new_module : Bytes → Bool → Module
new_module name enabled = record {
  name = name;
  options = [];
  enabled = enabled;
  loaded = false;
  manager = none;
}

-- `_modules_configuration` and `_ports`, maps by their keys, and the next object that a factory makes.
pub record Configuration : Type 0 where
  pub modules : Bytes → Option Module
  pub ports : ℕ → Option Bytes
  pub next : ℕ

abbrev pub store : Bytes → Module → Configuration → Configuration
store name m c = record c { modules = λ n. if eq_bytes n name then some m else c.modules n }

-- `addModuleConfiguration`.
unfoldable pub add_module_configuration : Module → Configuration → Configuration
unfolding eq_bytes
add_module_configuration m c = store m.name m c

-- `getModuleConfiguration`, which makes a missing one.
abbrev pub module_or_new : Bytes → Option Module → Module
module_or_new name none = new_module name (eq_bytes name (codes "mod_error"))
module_or_new name (some m) = m

unfoldable pub get_module_configuration : Bytes → Configuration → Module × Configuration
unfolding eq_bytes
get_module_configuration name c = let m = module_or_new name (c.modules name) in (m, store name m c)

abbrev pub is_there : {A : Type 0} → Option A → Bool
is_there none = false
is_there (some a) = true

abbrev pub network : Bytes
network = codes "mod_network"

-- The configuration of the module for the network, where it is missing.
abbrev pub with_network : Option Module → Configuration → Configuration
with_network none c = store network (new_module network true) c
with_network (some m) c = c

-- `addListenPort`; `none` where it throws.
unfoldable pub add_listen_port : ℕ → Bytes → Configuration → Option Configuration
unfolding eq_bytes
add_listen_port port name c =
    if is_there (c.ports port)
    then none
    else if is_empty name
    then some
        (with_network (c.modules network) (record c { ports = update c.ports port (some network) }))
    else some (record c { ports = update c.ports port (some name) })

-- `getModuleManager` of a factory that knows some names, and of a module's configuration, which gives
-- its options to a new manager, `_setConfiguration`.
unfoldable pub get_module_manager : (Bytes → Bool) → ℕ → Module → Option Manager × Module × ℕ
get_module_manager knows next m =
    let made : Manager = record { id = next; entries = m.options } in
    if not m.loaded && m.enabled
    then if knows m.name
      then (some made, record m { manager = some made; loaded = true }, suc next)
      else (none, record m { manager = none; enabled = false }, next)
    else (m.manager, m, next)

-- The rest of `getInputOutputModuleManager`, behind the two lookups. It throws for a module without a
-- manager.
abbrev pub stored :
    Bytes → Option Manager × Module × ℕ → Configuration → Option (Manager × Configuration)
stored name (none, m, next) c = none
stored name (some manager, m, next) c = some (manager, store name m (record c { next = next }))

-- `getInputOutputModuleManager`.
unfoldable pub get_input_output_module_manager :
    (Bytes → Bool) → ℕ → Configuration → Option (Manager × Configuration)
unfolding get_module_manager eq_bytes
get_input_output_module_manager knows port c = c.ports port >>= (λ (name : Bytes).
    c.modules name >>= (λ (m : Module). stored name (get_module_manager knows c.next m) c))
