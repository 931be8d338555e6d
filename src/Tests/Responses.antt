-- ===== src/Tests/Responses.antt =====
-- The responses that server/modules/PreOutputBuilder writes, and the maps of headers.
use Prim.{tt}
use zhttpd.Base.{
  ℕ, suc, codes, [], ◌∷◌, ◌++◌, some, ◌≡◌, refl, arith, List, length, eq_bytes, lt_bytes,
}
use zhttpd.Api.{Buffer, contents}
use zhttpd.Headers.{HeaderMap, insert, lookup, get_header}
use zhttpd.Chain.{next_in}
use zhttpd.Request.{
  Request, set_response_code, message_of, get_request_header, get_response_header,
  set_response_header,
}
use zhttpd.PreOutputBuilder.{init, settle_code, keep_alive}
use zhttpd.PreOutputBuilder.Digits.{put_number, Written, put_number-Written}
use zhttpd.PreOutputBuilder.Chunks.{respond, chunking, dechunk}
use zhttpd.PreOutputBuilder.Response.{head_text, respond-dechunk}
use zhttpd.Tests.Requests.{reading}

abbrev typed : HeaderMap
typed = (codes "Content-Type", codes "text/plain") ∷ []

abbrev answering : Request
answering = record reading { current = some 3; response_headers = typed }

abbrev hello : Buffer
hello = record { id = 0; bytes = codes "Hello" }

abbrev world : Buffer
world = record { id = 1; bytes = codes ", world, of chunks" }

respond-dechunk_example :
    (s : Request) × (body : List ℕ) × (respond (hello ∷ world ∷ []) init answering
      ≡ some (chunking, s))
    × (contents s.tasks.write_buffers
        ≡ contents answering.tasks.write_buffers ++ (head_text answering ++ body))
    × (dechunk (suc (length (hello ∷ world ∷ []))) (body ++ codes "HTTP/1.1")
        ≡ some (contents (hello ∷ world ∷ []), codes "HTTP/1.1"))
unfolding next_in keep_alive settle_code set_response_code get_request_header get_response_header
    set_response_header get_header insert lookup eq_bytes lt_bytes message_of
respond-dechunk_example =
    respond-dechunk hello (world ∷ []) answering (codes "HTTP/1.1") (3, _, refl, refl, refl)
      (tt, tt) refl (((λ e. cc), omega arith), (((λ e. cc), omega arith), tt))

put_number-Written_example :
    Written 10 48879 (codes "n=") (put_number (codes "n=") 48879 10 (codes "0123456789"))
    × Written 16 48879 (codes "n=") (put_number (codes "n=") 48879 16 (codes "0123456789abcdef"))
put_number-Written_example = put_number-Written 48879 (codes "n=") (omega arith)
