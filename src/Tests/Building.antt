-- ===== src/Tests/Building.antt =====
-- The builder at concrete inputs.
use Prim.{tt}
use zhttpd.Base.{
  none, ap, sym, ◌∙◌, Option, true, Bytes, codes, List, [], ◌∷◌, ◌++◌, some, eq_bytes,
  if◌then◌else◌, ◌≡◌, refl,
}
use zhttpd.Api.{Category}
use zhttpd.Chain.{ModuleWrapper, ModuleList, set_processing_module}
use zhttpd.RequestManager.{new_request}
use zhttpd.RequestManager.Built.{Ascends, find_modules-new_request}
use zhttpd.Paths.{add, clean, ends_open, absolute_path, is_absolute}
use zhttpd.VHost.{url_path, find}
use zhttpd.Request.{Request}
use zhttpd.Builder.{
  FileSystem, Modules, module_for, first_wanted, find_modules, set_path, with_index,
}
use zhttpd.Builder.Order.{categories, picks, chain_order, find_modules-ordered}
use zhttpd.Builder.Files.{set_path-literal}
use zhttpd.Tests.Requests.{reading}

abbrev disk : FileSystem
disk = record {
  is_directory = λ path. eq_bytes path (codes "/www//");
  entries = λ path. codes "index.html" ∷ [];
  cwd = codes "/";
}

abbrev offered : Category → List Bytes
offered Category.pre_processing = codes "mod_rewrite" ∷ []
offered Category.processing = codes "mod_filereader" ∷ codes "mod_cgi" ∷ []
offered Category.compress = codes "mod_gzip" ∷ []
offered _ = []

abbrev kind : Bytes → Category
kind name =
    if eq_bytes name (codes "mod_gzip")
    then Category.compress
    else if eq_bytes name (codes "mod_rewrite")
    then Category.pre_processing
    else Category.processing

abbrev site_modules : Modules
site_modules = record {
  index_files = codes "index.html" ∷ [];
  available = offered;
  enabled = λ name. true;
  category_of = kind;
  required = λ name. true;
}

-- A request whose builder is the only module.
abbrev asked_page : Request
asked_page =
    let r = reading in
    record r {
      query = codes "/?a#b";
      modules = record {
        nodes = record { id = 5; category = Category.pre_build } ∷ [];
        tail = some (record { id = 5; category = Category.pre_build });
      };
    }

set_path_test :
    (set_path disk site_modules 0 (codes "/www") asked_page).file_path ≡ codes "/www//index.html"
unfolding set_path with_index add clean ends_open absolute_path is_absolute url_path find eq_bytes
set_path_test = refl

find_modules-ordered_test :
    (s : Request) × (ws : List ModuleWrapper) × (find_modules disk site_modules 0 asked_page
      ≡ some s)
    × (s.modules.nodes ≡ [] ++ record { id = 5; category = Category.pre_build } ∷ ws)
    × (categories ws ≡ picks disk site_modules 0 chain_order [])
unfolding module_for first_wanted eq_bytes
find_modules-ordered_test =
    find_modules-ordered disk site_modules 0 (codes "mod_cgi")
      (record { id = 5; category = Category.pre_build }) [] [] asked_page refl tt refl refl

picks_test :
    picks disk site_modules 0 chain_order []
    ≡ Category.pre_processing ∷ Category.processing ∷ Category.compress ∷ []
unfolding module_for first_wanted eq_bytes
picks_test = refl

-- A request for a file that is not below the root.
abbrev asked_outside : Request
asked_outside = let r = reading in record r { query = codes "/../secret?x" }

set_path-literal_test :
    (set_path disk site_modules 0 (codes "/www") asked_outside).file_path
    ≡ codes "/www" ++ b'/' ∷ url_path (codes "/../secret?x")
unfolding url_path find is_absolute ends_open eq_bytes
set_path-literal_test =
    set_path-literal disk site_modules 0 (codes "/www") asked_outside refl refl
      (refl, (refl, (refl, (refl, tt))))
      (refl, (refl, (refl, (refl, (refl, (refl, (refl, (refl, (refl, (refl, tt)))))))))) refl

-- A request that the request manager made, while its builder runs.
abbrev new_page : Request
new_page = let r = new_request Category.input_output 0 in record r { current = some 2 }

abbrev kind_of : Category → Option Bytes → Category
kind_of c none = c
kind_of c (some name) = kind name

found_kind : (c : Category) → kind_of c (module_for disk site_modules 0 c) ≡ c
unfolding module_for first_wanted eq_bytes
found_kind Category.undefined = refl
found_kind Category.input_output = refl
found_kind Category.post_input = refl
found_kind Category.pre_build = refl
found_kind Category.pre_request_filter = refl
found_kind Category.uncompress = refl
found_kind Category.post_request_filter = refl
found_kind Category.pre_processing = refl
found_kind Category.processing = refl
found_kind Category.post_processing = refl
found_kind Category.pre_response_filter = refl
found_kind Category.compress = refl
found_kind Category.post_response_filter = refl
found_kind Category.pre_output = refl

find_modules-new_request_example :
    (s : Request) × (k : ModuleList) × (find_modules disk site_modules 0 new_page ≡ some s)
    × (categories s.modules.nodes
        ≡ Category.input_output ∷ Category.post_input ∷ Category.undefined ∷ Category.pre_processing
          ∷ Category.processing ∷ Category.compress ∷ Category.pre_output ∷ Category.input_output
          ∷ [])
    × Ascends 3 (Category.pre_processing ∷ Category.processing ∷ Category.compress ∷ [])
    × (set_processing_module (record { id = 9; category = Category.processing }) s.modules ≡ some k)
unfolding module_for first_wanted eq_bytes
find_modules-new_request_example =
    find_modules-new_request disk site_modules 0 (codes "mod_cgi") Category.input_output new_page
      (record { id = 9; category = Category.processing }) refl refl refl refl
      (λ c n e. ap (kind_of c) (sym e) ∙ found_kind c)
