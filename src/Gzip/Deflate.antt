-- ===== src/Gzip/Deflate.antt =====
-- modules/gzip/Gzip.cpp: what `_deflate` writes for a buffer.
use mathlib.Core.List.{flatten}
use zhttpd.Base.{List, ◌*◌, ℕ, ◌≤◌, Bool, true, Bytes, [], ◌∷◌, ◌++◌, Option, some, length, ◌≡◌}
use zhttpd.Api.{Buffer}
use zhttpd.Request.{Request, release}
use zhttpd.Gzip.{Zlib, chunk}

-- What the buffer for the output holds at the end: what was written, or what it held if nothing was.
abbrev pub filled : Bytes → Bytes → Bytes
filled buf [] = buf
filled buf (b ∷ bs) = b ∷ bs

-- The buffer at the end, from what was written and what it held.
abbrev pub behind : Bytes → Bytes → List Bytes → Bytes
behind written buf [] = buf
behind written buf (out ∷ outs) = written ++ flatten (out ∷ outs)

abbrev compressed : {S : Type 0} → S → Buffer → Request → Option (Option S × Request)
compressed t buf u = some (some t, release buf u)

abbrev answered : {S : Type 0} → Option S × Request → Option (Bool × Option S × Request)
answered d = some (true, d.0, d.1)

module _ {S : Type 0} (zlib : Zlib S) where
  -- Calls of `deflate`, each on what the one before it left, up to one that writes nothing: what each
  -- of the others wrote, and the stream at the end.
  pub data Writes : S → Bytes → List Bytes → S → Type 0 where
    stops :
        {s t : S} {given rest : Bytes}
        → zlib.deflate s given chunk ≡ some (t, [], rest)
        → Writes s given [] t
    goes_on :
        {s t u : S} {given rest : Bytes} {outs : List Bytes} (b : ℕ) (bs : Bytes)
        → zlib.deflate s given chunk ≡ some (t, b ∷ bs, rest)
        → Writes t rest outs u
        → Writes s given ((b ∷ bs) ∷ outs) u

  -- Such calls, no more than a bound and each within the room.
  abbrev Calls : (S → Bytes → ℕ) → S → Bytes → Type 0
  Calls turns s given =
      (outs : List Bytes) × (t : S) × Writes s given outs t
      × (length outs ≤ turns s given)
      × (length (flatten outs) ≤ turns s given * chunk)
