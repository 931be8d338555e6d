-- ===== src/Gzip.antt =====
-- modules/gzip/Gzip.cpp: the module that compresses the data of a response.
pub mod Deflate
use zhttpd.Base.{
  ltb, ◌^◌, if◌then◌else◌, ◌≢◌, ℕ, zero, suc, ◌+◌, ◌≤◌, ◌<◌, Bool, true, false, Bytes, codes, [],
  ◌∷◌, ◌++◌, Option, none, some, length, take, ◌>>=◌, ◌≡◌, Gives,
}
use zhttpd.Api.{Event, on_end, on_response_data, Buffer}
use zhttpd.Api.HttpCode.{internal_server_error}
use zhttpd.Request.{
  Request, release, allocate, give_data, raise_end, raise_error, set_response_header,
}

-- What the module calls of zlib. `init` is `deflateInit2`. `deflate` is the call with `Z_SYNC_FLUSH`: of
-- a stream, the bytes that it may read and the room for what it writes, it gives the stream, what was
-- written and what was not read, or nothing for `Z_STREAM_ERROR`.
pub record Zlib (S : Type 0) : Type 0 where
  pub init : Option S
  pub deflate : S → Bytes → ℕ → Option (S × Bytes × Bytes)

-- `GZIP_CHUNK`.
abbrev pub chunk : ℕ
chunk = 16384

-- `setSize(total_bytes + bytes)` and `memcpy`. `total_bytes` is an `unsigned int`: where the sum wraps
-- the buffer gets too small and the copy writes behind its end, which is `none`.
abbrev pub put_behind : ℕ → Bytes → Bytes → Option Bytes
put_behind total written buf =
    if ltb (total + length written) (2 ^ 32) then some (take total buf ++ written) else none

-- The body of the loop of `_deflate` behind the call, with `total_bytes` and the bytes of the buffer for
-- the output. `false` is its return at an error of the stream, which that call does not change.
abbrev pub after_call :
    {S : Type 0} (total : ℕ) (buf : Bytes) (s : S)
    → (ℕ → Bytes → S → Bytes → Option (Bool × Bytes × S))
    → Option (S × Bytes × Bytes)
    → Option (Bool × Bytes × S)
after_call total buf s go_on none = some (false, buf, s)
after_call total buf s go_on (some (t, [], rest)) = some (true, buf, t)
after_call total buf s go_on (some (t, b ∷ bs, rest)) =
    put_behind total (b ∷ bs) buf
    >>= (λ (next : Bytes). go_on (total + length (b ∷ bs)) next t rest)

module _ {S : Type 0} (zlib : Zlib S) where
  -- The loop of `_deflate`, on fuel.
  unfoldable pub deflate_from : ℕ → ℕ → Bytes → S → Bytes → Option (Bool × Bytes × S)
  deflate_from zero total buf s given = none
  deflate_from (suc fuel) total buf s given =
      after_call total buf s (deflate_from fuel) (zlib.deflate s given chunk)

  -- `_initialized` with `_stream`: the stream, where there is one.
  -- `_load`.
  unfoldable pub load : Request → Option S × Request
  unfolding set_response_header
  load r = elim zlib.init [
    | none ↦ (none, r)
    | some s ↦ (
      some s,
      set_response_header (codes "Content-Encoding") (codes "gzip")
          (set_response_header (codes "Content-Length") [] r),
    )
  ]

  -- The rest of `processRequest` behind `_deflate`: the buffer is given on or, after an error, back.
  unfoldable pub deliver : ℕ → Bool → Buffer → Request → Option Request
  unfolding release give_data raise_error
  deliver now true out r = give_data out r
  deliver now false out r =
      raise_error now internal_server_error [] r >>= (λ (u : Request). some (release out u))

  -- The rest behind `_deflate` of a buffer.
  unfoldable pub give_back :
      ℕ → ℕ → Buffer → Request → Bool × Bytes × S → Option (Option S × Request)
  unfolding release deliver
  give_back now id buf r d =
      deliver now d.0 (record { id = id; bytes = d.1 }) r
      >>= (λ (u : Request). some (some d.2, release buf u))

  -- `processRequest` of the data of a response, with a stream. `byte` is what `allocate(1)` finds.
  unfoldable pub compress : (fuel now byte : ℕ) → Buffer → S → Request → Option (Option S × Request)
  unfolding allocate deflate_from give_back
  compress fuel now byte buf s r =
      let a = allocate (byte ∷ []) r in
      deflate_from fuel 0 (byte ∷ []) s buf.bytes >>= give_back now a.0.id buf a.1

  -- A stream for the data: the one that there is, or a new one.
  unfoldable pub with_stream : Option S → Request → Option S × Request
  unfolding load
  with_stream (some s) r = (some s, r)
  with_stream none r = load r

  unfoldable pub compress_or_fail :
      (fuel now byte : ℕ) → Buffer → Option S → Request → Option (Option S × Request)
  unfolding compress release raise_error
  compress_or_fail fuel now byte buf (some s) r = compress fuel now byte buf s r
  compress_or_fail fuel now byte buf none r =
      raise_error now internal_server_error [] r >>= (λ (u : Request). some (none, release buf u))

  -- `processRequest`: the answer, `_initialized` with `_stream` and the request. At the end the stream
  -- is ended, `_unload`.
  unfoldable pub process :
      (fuel now byte : ℕ)
      → Event
      → Option Buffer
      → Option S
      → Request
      → Option (Bool × Option S × Request)
  unfolding with_stream compress_or_fail raise_end
  process fuel now byte on_end buf s r = raise_end r >>= (λ (u : Request). some (true, none, u))
  process fuel now byte on_response_data (some buf) s r =
      let l = with_stream s r in
      compress_or_fail fuel now byte buf l.0 l.1
      >>= (λ (d : Option S × Request). some (true, d.0, d.1))
  process fuel now byte on_response_data none s r = none
  process fuel now byte _ buf s r = some (false, s, r)

-- What zlib says of `deflate` with `Z_SYNC_FLUSH` on a stream that is in order, `Fit`, with the room of
-- `_deflate`: it does not report an error of the stream, leaves it in order and writes no more than
-- there is room for; and the calls complete the flush, after which one writes nothing, so that there is a
-- bound, `turns`, on the calls that still write.
pub record IsFlushing {S : Type 0} (zlib : Zlib S) (Fit : S → Type 0) (turns : S → Bytes → ℕ)
    : Type 0 where
  pub gives :
      (s : S) (given : Bytes)
      → Fit s
      → Gives
          (λ (d : S × Bytes × Bytes).
            Fit d.0 × (length d.1 ≤ chunk) × (d.1 ≢ [] → turns d.0 d.2 < turns s given))
          (zlib.deflate s given chunk)
