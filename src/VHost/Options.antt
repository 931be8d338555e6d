-- ===== src/VHost/Options.antt =====
-- server/configuration/ModuleConfiguration.cpp, and `getModuleConfiguration` and `addModule` of VHost.cpp:
-- the options of a module, which a virtual host inherits from its parents.
use zhttpd.Base.{
  Bool, true, false, Bytes, eq_bytes, eq_bytes_iff, eq_bytes_refl, sym, List, [], ◌∷◌, Option, none,
  some, if◌then◌else◌, ◌≡◌, refl, ap, ◌∙◌, arith, inl, inr, Option-cases,
}
use zhttpd.Headers.{HeaderMap, lookup, insert, lookup-insert}

-- `_options`, in a map of the same kind as the headers, and `_enabled`.
pub record ModuleConfiguration : Type 0 where
  pub options : HeaderMap
  pub enabled : Bool

abbrev pub is_missing : Option Bytes → Bool
is_missing none = true
is_missing (some v) = false

-- `merge`: the options of the parent that are missing.
unfoldable pub merge : HeaderMap → HeaderMap → HeaderMap
unfolding lookup insert
merge own [] = own
merge own ((k, v) ∷ parents) =
    merge (if is_missing (lookup k own) then insert k v own else own) parents

-- `_modules` of a virtual host.
abbrev pub ModuleMap : Type 0
ModuleMap = Bytes → Option ModuleConfiguration

abbrev pub store : Bytes → ModuleConfiguration → ModuleMap → ModuleMap
store name c m n = if eq_bytes n name then some c else m n

-- A new configuration, enabled as its base and merged with it.
abbrev pub inherited : ModuleConfiguration → ModuleConfiguration
inherited b = record { options = merge [] b.options; enabled = b.enabled }

abbrev pub or_nearest : Option ModuleConfiguration → ModuleConfiguration → ModuleConfiguration
or_nearest none d = d
or_nearest (some c) d = c

-- What `Configuration::getModuleConfiguration` gives.
module _ (base : Bytes → ModuleConfiguration) (name : Bytes) where
  -- The end of `getModuleConfiguration`, after the look into the map of the virtual host itself.
  abbrev pub found_or_made :
      ModuleMap
      → List ModuleMap
      → Option ModuleConfiguration
      → List ModuleMap × ModuleConfiguration
      → List ModuleMap × ModuleConfiguration
  found_or_made m ms (some c) r = (m ∷ ms, c)
  found_or_made m ms none r = (store name (inherited r.1) m ∷ r.0, inherited r.1)

  -- `getModuleConfiguration` of a virtual host, whose map comes first, with those of its parents behind.
  unfoldable pub get_module_configuration : List ModuleMap → List ModuleMap × ModuleConfiguration
  unfolding merge
  get_module_configuration [] = ([], base name)
  get_module_configuration (m ∷ ms) = found_or_made m ms (m name) (get_module_configuration ms)

  -- `addModule`.
  unfoldable pub add_module : ModuleConfiguration → ModuleMap → List ModuleMap → List ModuleMap
  unfolding merge get_module_configuration
  add_module c m parents =
      let r = get_module_configuration parents in
      store name (record c { options = merge c.options r.1.options }) m ∷ r.0

  -- The configuration that is nearest.
  abbrev pub nearest : List ModuleMap → ModuleConfiguration
  nearest [] = base name
  nearest (m ∷ ms) = or_nearest (m name) (nearest ms)

-- The first of two values that is there.
abbrev pub or_else : Option Bytes → Option Bytes → Option Bytes
or_else none o = o
or_else (some v) o = some v

pub lookup-merge :
    (key : Bytes) (own parents : HeaderMap)
    → lookup key (merge own parents) ≡ or_else (lookup key own) (lookup key parents)
unfolding merge lookup
lookup-merge key own [] = ground arith
lookup-merge key own ((k, v) ∷ parents) = elim (Option-cases (lookup k own)) [
  | inl e ↦
      ap (λ o. lookup key (merge (if is_missing o then insert k v own else own) parents)) e
      ∙ lookup-merge key (insert k v own) parents
      ∙ ground (arith, lookup-insert k key v own, eq_bytes_iff key k)
  | inr (x, e) ↦
      ap (λ o. lookup key (merge (if is_missing o then insert k v own else own) parents)) e
      ∙ lookup-merge key own parents
      ∙ ground (arith, eq_bytes_iff key k)
]

module _ (base : Bytes → ModuleConfiguration) (name key : Bytes) where
  -- A result has the options and the mark of the nearest configuration, and is what the next call gives.
  abbrev pub IsNearest : List ModuleMap → List ModuleMap × ModuleConfiguration → Type 0
  IsNearest ms r =
      (lookup key r.1.options ≡ lookup key (nearest base name ms).options)
      × (r.1.enabled ≡ (nearest base name ms).enabled)
      × (get_module_configuration base name r.0 ≡ r)

  step-IsNearest :
      (m : ModuleMap) (ms : List ModuleMap) (o : Option ModuleConfiguration)
      → m name ≡ o
      → IsNearest ms (get_module_configuration base name ms)
      → IsNearest (m ∷ ms) (found_or_made base name m ms o (get_module_configuration base name ms))
  unfolding get_module_configuration
  step-IsNearest m ms (some c) e h = (
    ap (λ o. lookup key (or_nearest o (nearest base name ms)).options) (sym e),
    ap (λ o. (or_nearest o (nearest base name ms)).enabled) (sym e),
    ap (λ o. found_or_made base name m ms o (get_module_configuration base name ms)) e,
  )
  step-IsNearest m ms none e h =
      let r = get_module_configuration base name ms in
      let c = inherited r.1 in
      (
        lookup-merge key [] r.1.options
            ∙ h.0
            ∙ ap (λ o. lookup key (or_nearest o (nearest base name ms)).options) (sym e),
        h.1 ∙ ap (λ o. (or_nearest o (nearest base name ms)).enabled) (sym e),
        ap
            (λ b.
              found_or_made base name (store name c m) r.0 (if b then some c else m name)
                (get_module_configuration base name r.0))
            (eq_bytes_refl name),
      )

  -- The configuration of a module that a virtual host gives has each option and the mark of the nearest
  -- one, of the virtual host, of its parents or the one of the whole configuration, though those that are
  -- missing are made on the way; and the next call gives the same and makes nothing.
  pub get_module_configuration-IsNearest :
      (ms : List ModuleMap) → IsNearest ms (get_module_configuration base name ms)
  unfolding get_module_configuration
  get_module_configuration-IsNearest [] = (refl, refl, refl)
  get_module_configuration-IsNearest (m ∷ ms) =
      step-IsNearest m ms (m name) refl (get_module_configuration-IsNearest ms)
