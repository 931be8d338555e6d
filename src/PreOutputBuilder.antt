-- ===== src/PreOutputBuilder.antt =====
-- server/modules/PreOutputBuilder/PreOutputBuilder.cpp and .hpp: the module in front of the output
-- module, which writes the status line, the headers and, where the length is not known, the chunks.
pub mod Digits
pub mod Chunks
pub mod Response
use zhttpd.Base.{
  ℕ, ◌+◌, Bool, true, false, not, ◌&&◌, Bytes, codes, eq_bytes, List, [], ◌∷◌, ◌++◌, Option, none,
  some, ◌==◌, if◌then◌else◌, is_empty, ◌≡◌, refl, ◌>>=◌,
}
use zhttpd.Api.{Event, on_response_data, on_end, Buffer, size}
use zhttpd.Api.HttpCode.{undefined, ok}
use zhttpd.Headers.{keys}
use zhttpd.Request.{
  Request, allocate, give_data, raise_end, set_response_code, get_request_header,
  get_response_header, set_response_header,
}
use zhttpd.PreOutputBuilder.Digits.{put_number}

-- The fields of the class that change.
pub record PreOutputBuilder : Type 0 where
  pub chunked : Bool
  pub headers : Bool

-- `PreOutputBuilder::PreOutputBuilder`.
unfoldable pub init : PreOutputBuilder
init = record { chunked = false; headers = false }

abbrev pub decimal : Bytes
decimal = codes "0123456789"

abbrev pub hexadecimal : Bytes
hexadecimal = codes "0123456789abcdef"

abbrev pub crlf : Bytes
crlf = b'\r' ∷ b'\n' ∷ []

-- `request->giveData(request->getBufferManager().allocate(bytes))`.
unfoldable pub give_bytes : Bytes → Request → Option Request
give_bytes bytes r = let (buf, s) = allocate bytes r in give_data buf s

-- A response without a code is fine.
unfoldable pub settle_code : Request → Request
settle_code r = if r.response_code == undefined then set_response_code ok [] r else r

unfoldable pub status_line : Request → Bytes
unfolding put_number
status_line r =
    put_number (codes "HTTP/1.1 ") r.response_code 10 decimal ++ codes " " ++ r.response_msg ++ crlf

-- The headers that keep the connection, unless the client closes it or the response says otherwise.
unfoldable pub keep_alive : Request → Request
keep_alive r =
    let (asked, s) = get_request_header (codes "Connection") r in
    let (said, t) = get_response_header (codes "Connection") s in
    if eq_bytes asked (codes "close")
    then s
    else if eq_bytes said []
    then set_response_header (codes "Keep-Alive") (codes "timeout=3, max=50")
        (set_response_header (codes "Connection") (codes "Keep-Alive") t)
    else t

-- The line of one header; a header without a value has none.
abbrev pub header_line : Bytes → Bytes → Bytes
header_line key [] = []
header_line key (c ∷ cs) = key ++ codes ": " ++ (c ∷ cs) ++ crlf

-- The loop over the keys.
unfoldable pub put_headers : List Bytes → Bytes → Request → Bytes × Request
put_headers [] out r = (out, r)
put_headers (key ∷ ks) out r =
    let (val, s) = get_response_header key r in put_headers ks (out ++ header_line key val) s

-- What ends the headers, and whether chunks follow.
unfoldable pub put_length :
    Bool → Bytes → PreOutputBuilder → Request → Bytes × PreOutputBuilder × Request
put_length false out p r = (out ++ crlf, p, r)
put_length true out p r =
    let (length, s) = get_response_header (codes "Content-Length") r in
    if eq_bytes length []
    then (out ++ codes "Transfer-Encoding: chunked\r\n", record p { chunked = true }, s)
    else (out ++ crlf, p, s)

-- `_sendHeaders`.
unfoldable pub send_headers :
    Bool → PreOutputBuilder → Request → Option (PreOutputBuilder × Request)
unfolding settle_code status_line keep_alive put_headers put_length give_bytes
send_headers has_data p r =
    let settled = settle_code r in
    let kept = keep_alive settled in
    let (lines, s) = put_headers (keys kept.response_headers) (status_line settled) kept in
    let (head, q, t) = put_length has_data lines p s in
    give_bytes head t >>= λ u. some (record q { headers = true }, u)

-- `_sendChunkInfo`.
unfoldable pub send_chunk_info : Buffer → Request → Option Request
unfolding put_number give_bytes
send_chunk_info buf r = give_bytes (put_number crlf (size buf) 16 hexadecimal ++ crlf) r

-- `processRequest` on ON_RESPONSE_DATA.
unfoldable pub process_data :
    Buffer → PreOutputBuilder → Request → Option (PreOutputBuilder × Request)
unfolding send_headers send_chunk_info
process_data buf p r = do
  (q, s) ← if p.headers then some (p, r) else send_headers true p r
  t ← if q.chunked then send_chunk_info buf s else some s
  u ← give_data buf t
  some (q, u)

-- `processRequest` on ON_END.
unfoldable pub process_end : PreOutputBuilder → Request → Option (PreOutputBuilder × Request)
unfolding send_headers give_bytes
process_end p r = do
  (q, s) ←
      if p.headers
      then (if p.chunked
          then (give_bytes (codes "\r\n0\r\n\r\n") r >>= λ s. some (p, s))
          else some (p, r))
      else send_headers false p r
  t ← raise_end s
  some (q, t)

-- `processRequest`; every other event is not handled.
unfoldable pub process :
    Event → Option Buffer → PreOutputBuilder → Request → Option (Bool × PreOutputBuilder × Request)
unfolding process_data process_end
process on_response_data (some buf) p r = process_data buf p r >>= λ d. some (true, d.0, d.1)
process on_response_data none p r = none
process on_end _ p r = process_end p r >>= λ d. some (true, d.0, d.1)
process _ _ p r = some (false, p, r)
