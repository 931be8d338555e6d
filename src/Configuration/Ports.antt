-- ===== src/Configuration/Ports.antt =====
-- server/configuration/Configuration.cpp: the module of a port.
use mathlib.Core.Path.{subst}
use zhttpd.Base.{
  ℕ, suc, Bool, true, false, not, ◌&&◌, Bytes, eq_bytes, eq_bytes_refl, Option, none, some,
  if◌then◌else◌, update, [], ◌>>=◌, ==_iff, ◌≡◌, refl, ap, sym, ◌∙◌, arith, Gives, bind-eq-some,
  Bool-cases, inl, inr,
}
use zhttpd.Configuration.{
  Manager, Module, new_module, Configuration, store, is_there, network, with_network,
  add_listen_port, get_module_manager, stored, get_input_output_module_manager,
}

-- A manager that was found is found again.
get_module_manager-again :
    (knows : Bytes → Bool) (n k : ℕ) (m p : Module) (mg : Manager)
    → get_module_manager knows n m ≡ (some mg, p, k)
    → get_module_manager knows k p ≡ (some mg, p, k)
unfolding get_module_manager
get_module_manager-again knows n k m p mg e = elim (Bool-cases (not m.loaded && m.enabled)) [
  | inr h ↦ ground (arith, e, h)
  | inl h ↦ elim (Bool-cases (knows m.name)) [
    | inr g ↦ ground (arith, e, h, g)
    | inl g ↦ ground (arith, e, h, g)
  ]
]

-- The configuration behind a manager that was found.
after : Bytes → Module → ℕ → Configuration → Configuration
after name m next c = store name m (record c { next = next })

found_or : Manager × Configuration → Option (Manager × Configuration) → Manager × Configuration
found_or r none = r
found_or r (some s) = s

stored-some :
    (name : Bytes) (q : Option Manager × Module × ℕ) (c d : Configuration) (mg : Manager)
    → stored name q c ≡ some (mg, d)
    → (q ≡ (some mg, q.1, q.2)) × (d ≡ after name q.1 q.2 c)
unfolding after found_or
stored-some name (none, m, next) c d mg e = cc
stored-some name (some mg₂, m, next) c d mg e =
    let same = ap (found_or (mg₂, c)) e in
    (
      ap (λ (r : Manager × Configuration). (some r.0, m, next)) same,
      sym (ap (λ (r : Manager × Configuration). r.1) same),
    )

get-again :
    (knows : Bytes → Bool) (port k : ℕ) (name : Bytes) (p : Module) (mg : Manager)
    (c : Configuration)
    → c.ports port ≡ some name
    → get_module_manager knows k p ≡ (some mg, p, k)
    → get_input_output_module_manager knows port (after name p k c)
      ≡ some (mg, after name p k (after name p k c))
unfolding get_input_output_module_manager after
get-again knows port k name p mg c e f =
    let d = store name p (record c { next = k }) in
    ap
      (λ (o : Option Bytes). o >>= (λ (n : Bytes).
        d.modules n >>= (λ (m : Module). stored n (get_module_manager knows k m) d)))
      e
    ∙ ap
        (λ (b : Bool).
          (if b then some p else c.modules name)
          >>= (λ (m : Module). stored name (get_module_manager knows k m) d))
        (eq_bytes_refl name)
    ∙ ap (λ (q : Option Manager × Module × ℕ). stored name q d) f

stored_twice :
    (name : Bytes) (p : Module) (k : ℕ) (c : Configuration) (n : Bytes)
    → (after name p k (after name p k c)).modules n ≡ (after name p k c).modules n
unfolding after
stored_twice name p k c n = elim (Bool-cases (eq_bytes n name)) [
  | inl e ↦ simp e refl
  | inr e ↦ simp e refl
]

abbrev Again : (Bytes → Bool) → ℕ → Manager → Configuration → Type 0
Again knows port mg d =
    Gives
      (λ (r : Manager × Configuration).
        (r.0 ≡ mg)
        × (r.1.next ≡ d.next)
        × (r.1.ports ≡ d.ports)
        × ((name : Bytes) → r.1.modules name ≡ d.modules name))
      (get_input_output_module_manager knows port d)

Again-after :
    (knows : Bytes → Bool) (port k : ℕ) (name : Bytes) (p : Module) (mg : Manager)
    (c : Configuration)
    → c.ports port ≡ some name
    → get_module_manager knows k p ≡ (some mg, p, k)
    → Again knows port mg (after name p k c)
unfolding after
Again-after knows port k name p mg c e f = (
  (mg, after name p k (after name p k c)),
  (get-again knows port k name p mg c e f, (refl, refl, refl, stored_twice name p k c)),
)

-- A port gives the same manager whenever it is asked: once it was found, asking again makes no other
-- one, and changes nothing of the configuration.
pub get_input_output_module_manager-again :
    (knows : Bytes → Bool) (port : ℕ) (c d : Configuration) (mg : Manager)
    → get_input_output_module_manager knows port c ≡ some (mg, d)
    → Gives
        (λ (r : Manager × Configuration).
          (r.0 ≡ mg)
          × (r.1.next ≡ d.next)
          × (r.1.ports ≡ d.ports)
          × ((name : Bytes) → r.1.modules name ≡ d.modules name))
        (get_input_output_module_manager knows port d)
unfolding get_input_output_module_manager
get_input_output_module_manager-again knows port c d mg e =
    let (name, f, g) = bind-eq-some (c.ports port) _ e in
    let (m, h, i) = bind-eq-some (c.modules name) _ g in
    let q = get_module_manager knows c.next m in
    let (j, k) = stored-some name q c d mg i in
    subst (Again knows port mg) (sym k) (
      Again-after knows port q.2 name q.1 mg c f
        (get_module_manager-again knows c.next q.2 m q.1 mg j))

-- A port that is added without a module is one that the network serves: if the factory knows
-- `mod_network` and no other configuration of it was added, the port has a manager then.
pub add_listen_port-network :
    (knows : Bytes → Bool) (port : ℕ) (c : Configuration)
    → c.ports port ≡ none
    → c.modules network ≡ none
    → knows network ≡ true
    → Gives
        (λ (d : Configuration).
          Gives
            (λ (r : Manager × Configuration). r.0 ≡ record { id = c.next; entries = [] })
            (get_input_output_module_manager knows port d))
        (add_listen_port port [] c)
unfolding add_listen_port get_input_output_module_manager get_module_manager
add_listen_port-network knows port c e f g =
    let added = record c { ports = update c.ports port (some network) } in
    let d = store network (new_module network true) added in
    let made : Manager = record { id = c.next; entries = [] } in
    let m : Module = record (new_module network true) { manager = some made; loaded = true } in
    (
      d,
      (
        ap
              (λ (o : Option Bytes).
                if is_there o then none else some (with_network (c.modules network) added))
              e
            ∙ ap (λ (o : Option Module). some (with_network o added)) f,
        (
          (made, store network m (record d { next = suc c.next })),
          (
            ap
                  (λ (b : Bool). (if b then some network else c.ports port) >>= (λ (n : Bytes).
                    d.modules n
                    >>= (λ (v : Module). stored n (get_module_manager knows c.next v) d)))
                  ((==_iff port port).1 refl)
                ∙ ap
                    (λ (b : Bool).
                      (if b then some (new_module network true) else c.modules network)
                      >>= (λ (v : Module). stored network (get_module_manager knows c.next v) d))
                    (eq_bytes_refl network)
                ∙ ap
                    (λ (b : Bool).
                      stored network
                        (if b then (some made, m, suc c.next) else (
                          none,
                          record (new_module network true) { manager = none; enabled = false },
                          c.next,
                        ))
                        d)
                    g,
            refl,
          ),
        ),
      ),
    )
