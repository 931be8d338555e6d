-- ===== src/Tests/Hosts.antt =====
-- The choice of a virtual host at concrete inputs.
use zhttpd.Base.{
  Bytes, List, true, false, eq_bytes, lt_bytes, codes, [], ◌∷◌, some, if◌then◌else◌, none, ◌≡◌,
  refl,
}
use zhttpd.Headers.{HeaderMap, get_header, lookup, insert}
use zhttpd.VHost.{
  VHost, vhost, no_child, child, host_guideline, url_guideline, listen_guideline, match,
  match_child, all_hold, holds, host_name, url_path, find, document_root,
}
use zhttpd.VHost.Options.{
  ModuleConfiguration, ModuleMap, merge, get_module_configuration, IsNearest,
  get_module_configuration-IsNearest,
}
use zhttpd.VHost.Choice.{values, accepts, chosen, match-chosen}

abbrev images : VHost
images = vhost (codes "images") (codes "/img") (url_guideline (codes "/images") false ∷ []) no_child

abbrev static_files : VHost
static_files =
    vhost (codes "static") [] (host_guideline (codes "static") false ∷ []) (child images no_child)

abbrev site : VHost
site =
    vhost (codes "site") (codes "/www") (listen_guideline 81 true ∷ [])
      (child static_files no_child)

abbrev asked_host : HeaderMap
asked_host = (codes "Host", codes "static:80") ∷ []

served_test : (match eq_bytes (codes "/images?x") 80 site asked_host).0 ≡ some images
unfolding match match_child all_hold holds host_name url_path find get_header lookup insert eq_bytes
    lt_bytes
served_test = refl

denied_test : (match eq_bytes (codes "/images?x") 81 site asked_host).0 ≡ none
unfolding match match_child all_hold holds host_name url_path find get_header lookup insert eq_bytes
    lt_bytes
denied_test = refl

root_test : document_root static_files (site ∷ []) ≡ codes "/www"
unfolding document_root
root_test = refl

match-chosen_example :
    ((match eq_bytes (codes "/images?x") 80 site asked_host).0 ≡ (
      if accepts eq_bytes (codes "/images?x") 80 site (values asked_host)
      then some (chosen eq_bytes (codes "/images?x") 80 site (values asked_host))
      else none))
    × (values (match eq_bytes (codes "/images?x") 80 site asked_host).1 ≡ values asked_host)
match-chosen_example = match-chosen eq_bytes (codes "/images?x") 80 site asked_host

-- A virtual host without modules below one that has a module.
abbrev base_conf : Bytes → ModuleConfiguration
base_conf name = record { options = []; enabled = false }

abbrev gzip_conf : ModuleConfiguration
gzip_conf = record { options = (codes "level", codes "9") ∷ []; enabled = true }

abbrev module_maps : List ModuleMap
module_maps = (λ name. none) ∷ (λ name. some gzip_conf) ∷ []

inherited_test : (get_module_configuration base_conf (codes "mod_gzip") module_maps).1 ≡ gzip_conf
unfolding get_module_configuration merge lookup insert
inherited_test = refl

merge_test :
    merge
      ((codes "level", codes "1") ∷ [])
      ((codes "level", codes "9") ∷ (codes "type", codes "x") ∷ [])
    ≡ (codes "level", codes "1") ∷ (codes "type", codes "x") ∷ []
unfolding merge lookup insert eq_bytes lt_bytes
merge_test = refl

get_module_configuration-IsNearest_example :
    IsNearest base_conf
      (codes "mod_gzip")
      (codes "level")
      module_maps
      (get_module_configuration base_conf (codes "mod_gzip") module_maps)
get_module_configuration-IsNearest_example =
    get_module_configuration-IsNearest base_conf (codes "mod_gzip") (codes "level") module_maps
