-- ===== src/Parser.antt =====
-- server/modules/Parser/Parser.cpp, Parser.hpp and ParserManager.hpp: the module that collects the
-- head of a request, parses it, and hands the body on.
pub mod Head
pub mod Lines
pub mod Ends
pub mod Buffers
pub mod Overflow
use zhttpd.Base.{
  ℕ, suc, ◌+◌, ◌%◌, ◌^◌, Bool, true, false, ◌&&◌, ◌||◌, Bytes, codes, eq_bytes, List, [], ◌∷◌, ◌++◌,
  Option, none, some, ◌==◌, ltb, leb, if◌then◌else◌, is_empty, read_unsigned, ◌>>=◌,
}
use zhttpd.Api.{Event, on_request_data, HttpMethod, Buffer, size}
use zhttpd.Tasks.Work.{need_read}
use zhttpd.Request.{
  Request, release, allocate, give_data, raise_end, set_request_header, set_response_header,
  get_request_header,
}
use zhttpd.Parser.Head.{parse_buffers, at_start}

-- The fields of the class.
pub record Parser : Type 0 where
  pub separator : ℕ
  pub completed : Bool
  pub content_length : ℕ
  pub received_length : ℕ
  pub header_length : ℕ
  pub buffers : List Buffer

-- `Parser::Parser`.
unfoldable pub init : Parser
init = record {
  separator = 0;
  completed = false;
  content_length = 0;
  received_length = 0;
  header_length = 0;
  buffers = [];
}

unfoldable pub release_all : List Buffer → Request → Request
release_all [] r = r
release_all (b ∷ bs) r = release_all bs (release b r)

-- `Parser::~Parser`, of a parser that has seen its request.
unfoldable pub destroy : Parser → Request → Request
unfolding release_all
destroy p r = if p.completed then r else release_all p.buffers r

-- `_separator` after one more byte.
unfoldable pub advance : ℕ → ℕ → ℕ
advance sep c =
    if ((sep == 0 || sep == 2) && c == b'\r') || ((sep == 1 || sep == 3) && c == b'\n')
    then suc sep
    else 0

-- The loop of `processRequest` over a buffer: it ends behind the head, or with the buffer.
pub data Scan : Type 0 where
  ended : Bytes → Bytes → Scan
  unfinished : ℕ → Scan

abbrev pub after_byte : ℕ → Scan → Scan
after_byte c (ended head rest) = ended (c ∷ head) rest
after_byte c (unfinished sep) = unfinished sep

unfoldable pub scan : ℕ → Bytes → Scan
unfolding advance
scan sep [] = unfinished sep
scan sep (c ∷ cs) =
    let more = after_byte c (scan (advance sep c) cs) in
    if advance sep c == 4 then ended (c ∷ []) cs else more

abbrev pub max_header_size : ℕ
max_header_size = 10000

-- `_parseRequest`: `full_name` is ZHTTPD_FULLNAME, which the build makes.
unfoldable pub parse_request : Bytes → List Buffer → Request → ℕ × Request
parse_request full_name bs r =
    let parsed = parse_buffers at_start bs r in
    let named = set_response_header (codes "Server") full_name parsed in
    let (v, s) = get_request_header (codes "Content-Length") named in (read_unsigned (2 ^ 64) v, s)

-- `_giveData`.
unfoldable pub give : Parser → Buffer → Request → Option (Parser × Request)
give p buf r = do
  s ← give_data buf r
  let q = record p { received_length = (p.received_length + size buf) % 2 ^ 64 }
  if leb q.content_length q.received_length then (raise_end s >>= λ t. some (q, t)) else some (q, s)

-- What stands behind the head in its last buffer, as a buffer of its own.
unfoldable pub take_rest : Bytes → Request → Option Buffer × Request
take_rest [] r = (none, r)
take_rest (c ∷ cs) r = let (b, s) = allocate (c ∷ cs) r in (some b, s)

unfoldable pub start_body : Parser → Option Buffer → Request → Option (Parser × Request)
start_body p none r = raise_end r >>= λ s. some (p, s)
start_body p (some next) r =
    if ltb 0 p.content_length then give p next r else (raise_end r >>= λ s. some (p, s))

-- The end of the head was found in `buf`, behind `head`.
unfoldable pub finish_head :
    Bytes → Parser → Buffer → Bytes → Bytes → Request → Option (Parser × Request)
finish_head full_name p buf head rest r =
    let (next, s) = take_rest rest r in
    let bs = p.buffers ++ (record buf { bytes = head }) ∷ [] in
    let (len, t) = parse_request full_name bs s in
    start_body (record p { separator = 4; buffers = bs; completed = true; content_length = len })
      next t

-- The buffer holds no end of the head.
unfoldable pub continue_head : Bytes → Parser → Buffer → ℕ → Request → Option (Parser × Request)
continue_head full_name p buf sep r =
    let s = record r { tasks = need_read r.tasks } in
    let q = record p {
      separator = sep;
      buffers = p.buffers ++ buf ∷ [];
      header_length = (p.header_length + size buf) % 2 ^ 64;
    } in
    if ltb max_header_size q.header_length
    then (raise_end (parse_request full_name q.buffers s).1 >>= λ t. some (q, t))
    else some (q, s)

-- `processRequest` on ON_REQUEST_DATA; every other event is not handled.
unfoldable pub process_data : Bytes → Parser → Buffer → Request → Option (Parser × Request)
process_data full_name p buf r =
    if p.completed then give p buf r else elim (scan p.separator buf.bytes) [
      | ended head rest ↦ finish_head full_name p buf head rest r
      | unfinished sep ↦ continue_head full_name p buf sep r
    ]

unfoldable pub process :
    Bytes → Parser → Event → Option Buffer → Request → Option (Bool × Parser × Request)
process full_name p on_request_data (some buf) r =
    process_data full_name p buf r >>= λ d. some (true, d.0, d.1)
process full_name p on_request_data none r = none
process full_name p _ _ r = some (false, p, r)
