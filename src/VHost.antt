-- ===== src/VHost.antt =====
-- server/configuration/VHost.cpp and its guidelines: which virtual host serves a request.

pub mod Choice
pub mod Options
use zhttpd.Base.{
  ℕ, suc, ◌==◌, min, Bool, true, false, not, Bytes, codes, List, [], ◌∷◌, Option, none, some, take,
  is_empty, if◌then◌else◌,
}
use zhttpd.Headers.{HeaderMap, get_header}

-- The classes behind `IVHostGuideline`, with their fields.
pub data Guideline : Type 0 where
  header_guideline : (key match : Bytes) → (deny : Bool) → Guideline
  host_guideline : (match : Bytes) → (deny : Bool) → Guideline
  listen_guideline : (port : ℕ) → (deny : Bool) → Guideline
  url_guideline : (match : Bytes) → (deny : Bool) → Guideline

-- `find` and `find_first_of`; `npos` is taken to be the length, since both stand for the whole text.
unfoldable pub find : ℕ → Bytes → ℕ
find c [] = 0
find c (b ∷ bs) = if b == c then 0 else suc (find c bs)

-- `Host` without its port.
unfoldable pub host_name : Bytes → Bytes
unfolding find
host_name host = take (find b':' host) host

-- The query before `?` and `#`.
unfoldable pub url_path : Bytes → Bytes
unfolding find
url_path query = take (min (find b'?' query) (find b'#' query)) query

abbrev pub unless : Bool → Bool → Bool
unless deny result = if deny then not result else result

mutual
  -- `_name`, `_document_root`, `_guide_lines` and `_childs`.
  pub data VHost : Type 0 where
    vhost : (name document_root : Bytes) → List Guideline → VHosts → VHost

  pub data VHosts : Type 0 where
    no_child : VHosts
    child : VHost → VHosts → VHosts

-- The child that matched, or the virtual host itself.
abbrev pub or_self : VHost → Option VHost → Option VHost
or_self v none = some v
or_self v (some w) = some w

-- What the request and its session say, and the regular expressions of the system's library.
module _ (regex : Bytes → Bytes → Bool) (query : Bytes) (port : ℕ) where
  -- `HeaderGuideline::match`: a missing header joins the map of the request.
  abbrev pub header_holds : (key match : Bytes) → (deny : Bool) → HeaderMap → Bool × HeaderMap
  header_holds key match deny m = let r = get_header key m in (unless deny (regex match r.0), r.1)

  -- `HostGuideline::match`.
  abbrev pub host_holds : (match : Bytes) → (deny : Bool) → HeaderMap → Bool × HeaderMap
  host_holds match deny m =
      let r = get_header (codes "Host") m in (unless deny (regex match (host_name r.0)), r.1)

  -- `ListenGuideline::match`.
  abbrev pub listen_holds : ℕ → (deny : Bool) → Bool
  listen_holds p deny = if port == p then not deny else true

  -- `UrlGuideline::match`.
  abbrev pub url_holds : (match : Bytes) → (deny : Bool) → Bool
  url_holds match deny = unless deny (regex match (url_path query))

  -- `match` of a guideline, by its class.
  unfoldable pub holds : Guideline → HeaderMap → Bool × HeaderMap
  unfolding get_header host_name url_path
  holds (header_guideline key match deny) m = header_holds key match deny m
  holds (host_guideline match deny) m = host_holds match deny m
  holds (listen_guideline p deny) m = (listen_holds p deny, m)
  holds (url_guideline match deny) m = (url_holds match deny, m)

  -- The loop over the guidelines.
  unfoldable pub all_hold : List Guideline → HeaderMap → Bool × HeaderMap
  unfolding holds
  all_hold [] m = (true, m)
  all_hold (g ∷ gs) m = let r = holds g m in if r.0 then all_hold gs r.1 else (false, r.1)

  unfoldable mutual
    unfolding all_hold

    -- `match`.
    pub match : VHost → HeaderMap → Option VHost × HeaderMap
    match (vhost name root gs cs) m =
        let r = all_hold gs m in
        let s = match_child cs r.1 in
        if r.0 then (or_self (vhost name root gs cs) s.0, s.1) else (none, r.1)

    -- The loop over the children.
    pub match_child : VHosts → HeaderMap → Option VHost × HeaderMap
    match_child no_child m = (none, m)
    match_child (child c cs) m =
        let r = match c m in elim r.0 [ none ↦ match_child cs r.1 | some w ↦ (some w, r.1) ]

-- `getDocumentRoot` of a virtual host, given its parents, the nearest first.
abbrev pub own_root : VHost → Bytes
own_root (vhost name root gs cs) = root

unfoldable pub document_root : VHost → List VHost → Bytes
document_root v [] = own_root v
document_root v (p ∷ ps) = if is_empty (own_root v) then document_root p ps else own_root v
