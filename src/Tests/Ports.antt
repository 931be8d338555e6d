-- ===== src/Tests/Ports.antt =====
-- The ports and their modules, server/configuration/Configuration.cpp.
use zhttpd.Base.{Bool, true, Bytes, eq_bytes, [], none, some, update, ◌≡◌, refl, Gives}
use zhttpd.Configuration.{
  Manager, Module, Configuration, network, new_module, store, add_listen_port,
  get_input_output_module_manager,
}
use zhttpd.Configuration.Ports.{get_input_output_module_manager-again, add_listen_port-network}

abbrev built_in : Bytes → Bool
built_in name = eq_bytes name network

abbrev fresh : Configuration
fresh = record { modules = λ name. none; ports = λ port. none; next = 0 }

abbrev listening : Configuration
listening =
    store network (new_module network true)
      (record fresh { ports = update fresh.ports 80 (some network) })

abbrev manager : Manager
manager = record { id = 0; entries = [] }

abbrev loaded : Module
loaded = record (new_module network true) { manager = some manager; loaded = true }

abbrev serving : Configuration
serving = store network loaded (record listening { next = 1 })

add_listen_port-network_example :
    Gives
      (λ (d : Configuration).
        Gives
          (λ (r : Manager × Configuration). r.0 ≡ record { id = 0; entries = [] })
          (get_input_output_module_manager built_in 80 d))
      (add_listen_port 80 [] fresh)
unfolding eq_bytes
add_listen_port-network_example = add_listen_port-network built_in 80 fresh refl refl refl

get_input_output_module_manager-again_example :
    Gives
      (λ (r : Manager × Configuration).
        (r.0 ≡ manager)
        × (r.1.next ≡ 1)
        × (r.1.ports ≡ serving.ports)
        × ((name : Bytes) → r.1.modules name ≡ serving.modules name))
      (get_input_output_module_manager built_in 80 serving)
unfolding get_input_output_module_manager eq_bytes
get_input_output_module_manager-again_example =
    get_input_output_module_manager-again built_in 80 listening serving manager refl

-- A port cannot be given twice.
twice_test : add_listen_port 80 [] listening ≡ none
unfolding add_listen_port
twice_test = refl
