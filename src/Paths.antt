-- ===== src/Paths.antt =====
-- server/utils/Path.cpp, Path.hpp and PathUnix.hpp: paths of files, which are texts with slashes.
use zhttpd.Base.{
  ℕ, Bool, true, false, not, Bytes, [], ◌∷◌, ◌++◌, Option, none, some, ◌==◌, if◌then◌else◌, map,
  ◌≡◌, refl, arith, All, ap, ◌∙◌,
}

-- `_clean`: a path as its constructors and assignments keep it.
unfoldable pub clean : Bytes → Bytes
clean = map (λ c. if c == b'\\' then b'/' else c)

-- `implementation::Path::isAbsolute`.
unfoldable pub is_absolute : Bytes → Bool
is_absolute [] = false
is_absolute (c ∷ cs) = c == b'/'

-- `path[path.size() - 1] != '/'`, on a path that is not empty.
unfoldable pub ends_open : Bytes → Bool
ends_open [] = false
ends_open (c ∷ []) = not (c == b'/')
ends_open (c ∷ d ∷ cs) = ends_open (d ∷ cs)

-- `operator +=`, and `operator +`, which adds to a copy.
unfoldable pub add : Bytes → Bytes → Bytes
unfolding clean ends_open
add [] right = clean right
add (c ∷ cs) right =
    if ends_open (c ∷ cs) then clean ((c ∷ cs) ++ b'/' ∷ right) else clean ((c ∷ cs) ++ right)

-- `find_last_of(sep)` with `substr`: what stands in front of the last separator, and behind it.
unfoldable pub split_last : ℕ → Bytes → Option (Bytes × Bytes)
split_last sep [] = none
split_last sep (c ∷ cs) = elim (split_last sep cs) [
  | some (front, back) ↦ some (c ∷ front, back)
  | none ↦ if c == sep then some ([], cs) else none
]

-- Without a separator the front is the whole text, and so is the back: `npos + 1` is 0.
abbrev pub front_of : Bytes → Option (Bytes × Bytes) → Bytes
front_of path none = path
front_of path (some (front, _)) = front

abbrev pub back_of : Bytes → Option (Bytes × Bytes) → Bytes
back_of path none = path
back_of path (some (_, back)) = back

abbrev pub extension_of : Option (Bytes × Bytes) → Bytes
extension_of none = []
extension_of (some (_, back)) = back

-- The directories of the system, and its working directory.
module _ (is_directory : Bytes → Bool) (cwd : Bytes) where
  -- `getAbsolutePath`.
  unfoldable pub absolute_path : Bytes → Bytes
  unfolding is_absolute
  absolute_path path = if is_absolute path then path else cwd ++ b'/' ∷ path

  -- `getBasePath`.
  unfoldable pub base_path : Bytes → Bytes
  unfolding absolute_path split_last
  base_path path =
      let whole = absolute_path path in
      if is_directory whole then whole else front_of whole (split_last b'/' whole)

  -- `getFileName`.
  unfoldable pub file_name : Bytes → Bytes
  unfolding split_last
  file_name path = if is_directory path then [] else back_of path (split_last b'/' path)

  -- `getFileExtension`.
  unfoldable pub file_extension : Bytes → Bytes
  unfolding file_name split_last
  file_extension path = extension_of (split_last b'.' (file_name path))

-- No byte of the text is `sep`.
abbrev pub IsFree : ℕ → Bytes → Type 0
IsFree sep = All (λ c. (c == sep) ≡ false)

split_last-IsFree : (sep : ℕ) (xs : Bytes) → IsFree sep xs → split_last sep xs ≡ none
unfolding split_last
split_last-IsFree sep [] h = refl
split_last-IsFree sep (x ∷ xs) (hx, h) = ground (arith, split_last-IsFree sep xs h)

pub split_last-append :
    (sep : ℕ) (xs ys : Bytes) → IsFree sep ys → split_last sep (xs ++ sep ∷ ys) ≡ some (xs, ys)
unfolding split_last
split_last-append sep [] ys h = ground (arith, split_last-IsFree sep ys h)
split_last-append sep (x ∷ xs) ys h = ground (arith, split_last-append sep xs ys h)

pub clean-IsFree : (xs : Bytes) → IsFree b'\\' xs → clean xs ≡ xs
unfolding clean
clean-IsFree [] h = refl
clean-IsFree (x ∷ xs) (hx, h) = rw (hx, clean-IsFree xs h)

clean-append : (xs ys : Bytes) → clean (xs ++ ys) ≡ clean xs ++ clean ys
unfolding clean
clean-append [] ys = refl
clean-append (x ∷ xs) ys = rw (clean-append xs ys)

pub add-clean :
    (dir name : Bytes)
    → ends_open dir ≡ true
    → IsFree b'\\' dir
    → IsFree b'\\' name
    → add dir name ≡ dir ++ b'/' ∷ name
unfolding add clean ends_open
add-clean [] name o d n = cc
add-clean (c ∷ cs) name o d n =
    ap (λ b. if b then clean ((c ∷ cs) ++ b'/' ∷ name) else clean ((c ∷ cs) ++ name)) o
    ∙ clean-append (c ∷ cs) (b'/' ∷ name)
    ∙ ap (λ x. x ++ clean (b'/' ∷ name)) (clean-IsFree (c ∷ cs) d)
    ∙ ap (λ x. (c ∷ cs) ++ b'/' ∷ x) (clean-IsFree name n)

pub is_absolute-append : (xs ys : Bytes) → is_absolute xs ≡ true → is_absolute (xs ++ ys) ≡ true
unfolding is_absolute
is_absolute-append [] ys h = cc
is_absolute-append (x ∷ xs) ys h = h

module _ (is_directory : Bytes → Bool) (cwd dir name : Bytes) where
  -- A name without slashes that is added to a clean path with no slash at its end: if the result is
  -- an absolute path and no directory, the base path of the result is the path, and the file's name
  -- the name.
  pub base_path-add :
      ends_open dir ≡ true
      → IsFree b'\\' dir
      → IsFree b'\\' name
      → IsFree b'/' name
      → is_absolute dir ≡ true
      → is_directory (add dir name) ≡ false
      → (base_path is_directory cwd (add dir name) ≡ dir)
        × (file_name is_directory cwd (add dir name) ≡ name)
  unfolding base_path file_name
  base_path-add o d n s root file =
      let text = add-clean dir name o d n in
      let rooted : is_absolute (add dir name) ≡ true =
        ap is_absolute text ∙ is_absolute-append dir (b'/' ∷ name) root in
      let split : split_last b'/' (add dir name) ≡ some (dir, name) =
        ap (split_last b'/') text ∙ split_last-append b'/' dir name s in
      (rw (rooted, file, split), rw (file, split))
