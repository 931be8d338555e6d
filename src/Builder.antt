-- ===== src/Builder.antt =====
-- server/modules/Builder/Builder.cpp: the module that finds the file of a request and builds its chain.
pub mod Order
pub mod Files
use zhttpd.Base.{
  ℕ, Bool, true, false, ◌&&◌, Bytes, codes, eq_bytes, List, [], ◌∷◌, Option, none, some,
  if◌then◌else◌, ◌>>=◌,
}
use zhttpd.Api.{Category, Event, on_request_data, Buffer}
use zhttpd.Api.HttpCode.{forbidden, not_found}
use zhttpd.Chain.{is_processing}
use zhttpd.Paths.{add, clean, absolute_path}
use zhttpd.VHost.{VHost, url_path, document_root}
use zhttpd.Request.{Request, insert_module, raise_error, release, give_data}

-- `find` of a set of file names.
abbrev pub contains : Bytes → List Bytes → Bool
contains name [] = false
contains name (n ∷ ns) = if eq_bytes name n then true else contains name ns

-- The loop over the names of index files.
abbrev pub index_file : List Bytes → List Bytes → Option Bytes
index_file [] files = none
index_file (i ∷ is) files = if contains i files then some i else index_file is files

abbrev pub file_reader : Bytes
file_reader = codes "mod_filereader"

-- What the file system says: the directories, their entries and the working directory.
pub record FileSystem : Type 0 where
  pub is_directory : Bytes → Bool
  pub entries : Bytes → List Bytes
  pub cwd : Bytes

-- The configuration: the index files, the modules of a category in their order, which of them a virtual
-- host enables, the category that the manager of each tells, and its answer to `isRequired`.
pub record Modules : Type 0 where
  pub index_files : List Bytes
  pub available : Category → List Bytes
  pub enabled : Bytes → Bool
  pub category_of : Bytes → Category
  pub required : Bytes → Bool

-- The calls of `_findModules`.
abbrev pub build_order : List Category
build_order =
    Category.pre_output ∷ Category.post_response_filter ∷ Category.compress
    ∷ Category.pre_response_filter ∷ Category.post_processing ∷ Category.processing
    ∷ Category.pre_processing ∷ Category.post_request_filter ∷ Category.uncompress
    ∷ Category.pre_request_filter ∷ []

module _ (fs : FileSystem) (conf : Modules) (now : ℕ) where
  -- The path with the index file of its directory.
  unfoldable pub with_index : Bytes → Bytes
  unfolding add
  with_index path =
      if fs.is_directory path
      then (elim (index_file conf.index_files (fs.entries path)) [
        | none ↦ path
        | some i ↦ add path i
      ])
      else path

  -- `_setPath`.
  unfoldable pub set_path : Bytes → Request → Request
  unfolding with_index add clean url_path absolute_path
  set_path root r = record r {
    file_path =
        absolute_path fs.is_directory fs.cwd (with_index (add (clean root) (url_path r.query)));
  }

  abbrev pub is_wanted : Bytes → Bool
  is_wanted name = conf.enabled name && conf.required name

  -- The loop of `_addModule`, which leaves the file reader out.
  unfoldable pub first_wanted : List Bytes → Option Bytes
  first_wanted [] = none
  first_wanted (n ∷ ns) =
      if eq_bytes n file_reader
      then first_wanted ns
      else if is_wanted n
      then some n
      else first_wanted ns

  abbrev pub fallback : Category → Option Bytes
  fallback category =
      if is_processing category && is_wanted file_reader then some file_reader else none

  -- The module that `_addModule` puts into the chain.
  unfoldable pub module_for : Category → Option Bytes
  unfolding first_wanted
  module_for category = elim (first_wanted (conf.available category)) [
    | some n ↦ some n
    | none ↦ fallback category
  ]

  unfoldable pub add_found : Category → Option Bytes → Request → Option Request
  unfolding insert_module raise_error
  add_found category (some n) r = insert_module (conf.category_of n) r
  add_found category none r =
      if is_processing category then raise_error now forbidden [] r else some r

  -- `_addModule`.
  unfoldable pub add_module : Category → Request → Option Request
  unfolding module_for add_found
  add_module category r = add_found category (module_for category) r

  unfoldable pub add_modules : List Category → Request → Option Request
  unfolding add_module
  add_modules [] r = some r
  add_modules (c ∷ cs) r = add_module c r >>= add_modules cs

  -- `_findModules`.
  unfoldable pub find_modules : Request → Option Request
  unfolding add_modules
  find_modules r = add_modules build_order r

  -- The first call of `processRequest`: the virtual host that matched with its parents, or none. Whether
  -- there was an error, and the request.
  unfoldable pub build : Option (VHost × List VHost) → Request → Option (Bool × Request)
  unfolding set_path find_modules raise_error document_root
  build (some (v, parents)) r =
      find_modules (set_path (document_root v parents) r) >>= (λ (s : Request). some (false, s))
  build none r = raise_error now not_found [] r >>= (λ (s : Request). some (true, s))

  -- The rest of `processRequest`: whether the event was handled.
  unfoldable pub pass_on : Event → Option Buffer → Bool → Request → Option (Bool × Request)
  unfolding release give_data
  pass_on on_request_data (some buf) error r =
      if error
      then some (true, release buf r)
      else give_data buf r >>= (λ (s : Request). some (true, s))
  pass_on on_request_data none error r = none
  pass_on _ buf error r = some (false, r)

  -- `processRequest` of a builder that has built the chain or not, which it has then.
  unfoldable pub process :
      (builded : Bool)
      → Option (VHost × List VHost)
      → Event
      → Option Buffer
      → Request
      → Option (Bool × Request)
  unfolding build pass_on
  process true host event buf r = pass_on event buf false r
  process false host event buf r =
      build host r >>= (λ (e : Bool × Request). pass_on event buf e.0 e.1)
