-- ===== src/Builder/Files.antt =====
-- server/modules/Builder/Builder.cpp: the file that the builder finds for a request.
use zhttpd.Base.{ℕ, Bool, arith, true, false, Bytes, ◌∷◌, ◌++◌, ◌≡◌, ap, ◌∙◌}
use zhttpd.Paths.{
  add, clean, absolute_path, is_absolute, ends_open, IsFree, clean-IsFree, add-clean,
  is_absolute-append,
}
use zhttpd.VHost.{url_path}
use zhttpd.Request.{Request}
use zhttpd.Builder.{FileSystem, Modules, with_index, set_path}

with_index-file :
    (fs : FileSystem) (conf : Modules) (now : ℕ) (path : Bytes)
    → fs.is_directory path ≡ false
    → with_index fs conf now path ≡ path
unfolding with_index
with_index-file fs conf now path e = ground (arith, e)

absolute_path-rooted :
    (is_directory : Bytes → Bool) (cwd path : Bytes)
    → is_absolute path ≡ true
    → absolute_path is_directory cwd path ≡ path
unfolding absolute_path
absolute_path-rooted is_directory cwd path e = ground (arith, e)

-- For an absolute document root without a slash at its end, and a query whose part in front of `?` and
-- `#` names no directory there, the file is the root, a slash and that part as it is; neither has a
-- backslash.
pub set_path-literal :
    (fs : FileSystem) (conf : Modules) (now : ℕ) (root : Bytes) (r : Request)
    → is_absolute root ≡ true
    → ends_open root ≡ true
    → IsFree b'\\' root
    → IsFree b'\\' (url_path r.query)
    → fs.is_directory (root ++ b'/' ∷ url_path r.query) ≡ false
    → (set_path fs conf now root r).file_path ≡ root ++ b'/' ∷ url_path r.query
unfolding set_path with_index
set_path-literal fs conf now root r rooted open_end f g file =
    let text : add (clean root) (url_path r.query) ≡ root ++ b'/' ∷ url_path r.query =
      ap (λ x. add x (url_path r.query)) (clean-IsFree root f)
      ∙ add-clean root (url_path r.query) open_end f g in
    ap (λ x. absolute_path fs.is_directory fs.cwd (with_index fs conf now x)) text
    ∙ ap (absolute_path fs.is_directory fs.cwd) (with_index-file fs conf now _ file)
    ∙ absolute_path-rooted fs.is_directory fs.cwd _
        (is_absolute-append root (b'/' ∷ url_path r.query) rooted)
