-- ===== src/Tests/Streams.antt =====
-- Compression with a stream that only keeps its bytes, modules/gzip/Gzip.cpp.
use zhttpd.Base.{ℕ, Bytes, codes, [], ◌++◌, some, length, take, drop}
use zhttpd.Api.{Buffer}
use zhttpd.Request.{Request}
use zhttpd.Gzip.{Zlib}

-- The bytes that are not written yet.
abbrev keeping : Zlib Bytes
keeping = record {
  init = some [];
  deflate = λ s given room. some (drop room (s ++ given), take room (s ++ given), []);
}

-- What is left, which bounds the calls that write.
abbrev left : Bytes → Bytes → ℕ
left s given = length (s ++ given)

abbrev page : Buffer
page = record { id = 7; bytes = codes "hi" }
