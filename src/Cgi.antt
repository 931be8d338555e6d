-- ===== src/Cgi.antt =====
-- modules/cgi/CGI.cpp: the module that runs a program and sends what it writes.
pub mod Lines
pub mod Output
pub mod Sending
pub mod Environment
pub mod Variables
use zhttpd.Base.{
  ℕ, suc, ◌-◌, Bool, true, false, not, ◌&&◌, ◌||◌, Bytes, codes, List, [], ◌∷◌, ◌++◌, Option, none,
  some, ◌==◌, if◌then◌else◌, is_empty, length, take, ◌>>=◌,
}
use zhttpd.Api.{Event, on_request_data, on_idle, on_end, HttpMethod, Buffer}
use zhttpd.Api.HttpCode.{found, internal_server_error, method_not_allowed}
use zhttpd.Request.{
  Request, release, allocate, give_data, raise_end, raise_error, call_later, set_response_code,
  set_response_header, get_response_header,
}
use zhttpd.Parser.{Scan, ended, unfinished, scan}
use zhttpd.Parser.Head.{split_line}

-- `_started`, `_end` and `_headers`, which holds until the headers were found.
pub record Cgi : Type 0 where
  pub started : Bool
  pub end : Bool
  pub headers : Bool

-- `CGI::CGI`.
unfoldable pub init : Cgi
init = record { started = false; end = false; headers = true }

-- A string as `c_str` passes it on, up to a null byte.
abbrev pub c_str : Bytes → Bytes
c_str [] = []
c_str (c ∷ cs) = if c == 0 then [] else c ∷ c_str cs

-- `_parseHeadersLine`, whose loop is that of the parser's `_parseLine`.
unfoldable pub parse_headers_line : Bytes → Request → Request
unfolding split_line set_response_header
parse_headers_line [] r = r
parse_headers_line (c ∷ cs) r =
    let d = split_line false false [] [] (c ∷ cs) in set_response_header (c_str d.0) (c_str d.1) r

-- `carriage_return` and `line` of `_parseHeaders`.
pub record HeaderState : Type 0 where
  pub carriage_return : Bool
  pub line : Bytes

-- The body of its loop, and the loop.
unfoldable pub parse_header_byte : ℕ → HeaderState × Request → HeaderState × Request
unfolding parse_headers_line
parse_header_byte c (st, r) =
    if c == b'\r'
    then (record st { carriage_return = true }, r)
    else if (c == b'\n') && st.carriage_return
    then (record { carriage_return = false; line = [] }, parse_headers_line st.line r)
    else (record { carriage_return = false; line = st.line ++ c ∷ [] }, r)

unfoldable pub parse_header_bytes : Bytes → HeaderState × Request → HeaderState × Request
unfolding parse_header_byte
parse_header_bytes [] s = s
parse_header_bytes (c ∷ cs) s = parse_header_bytes cs (parse_header_byte c s)

-- `_parseHeaders`.
unfoldable pub parse_headers : Bytes → Request → Request
unfolding parse_header_bytes
parse_headers bytes r =
    (parse_header_bytes bytes (record { carriage_return = false; line = [] }, r)).1

-- The branch of `_extractHeaders` where the end of the headers is found: a buffer with all of them but
-- the last byte is parsed and given back, and what is behind them is data.
unfoldable pub take_data : Bytes → Request → Option Buffer × Request
unfolding allocate
take_data [] r = (none, r)
take_data (c ∷ cs) r = let a = allocate (c ∷ cs) r in (some a.0, a.1)

unfoldable pub found_headers : Bytes → Bytes → Cgi → Request → Option Buffer × Cgi × Request
unfolding allocate release parse_headers take_data
found_headers head rest c r =
    let a = allocate (take (length head - 1) head) r in
    let d = take_data rest (release a.0 (parse_headers a.0.bytes a.1)) in
    (d.0, record c { headers = false }, d.1)

-- `_extractHeaders`: the loop counts the separator as that of the parser does, from the start of each
-- buffer.
unfoldable pub extract_from : Scan → Cgi → Request → Option Buffer × Cgi × Request
unfolding found_headers
extract_from (ended head rest) c r = found_headers head rest c r
extract_from (unfinished sep) c r = (none, c, r)

unfoldable pub extract_headers : Buffer → Cgi → Request → Option Buffer × Cgi × Request
unfolding extract_from scan
extract_headers buf c r = extract_from (scan 0 buf.bytes) c r

-- What `_processOnIdle` sends of what it read.
unfoldable pub to_send : Bytes → Cgi → Request → Option Buffer × Cgi × Request
unfolding allocate release extract_headers
to_send [] c r = (none, c, r)
to_send (b ∷ bs) c r =
    let a = allocate (b ∷ bs) r in
    let d = extract_headers a.0 c a.1 in
    if c.headers then (d.0, d.1, release a.0 d.2) else (some a.0, c, a.1)

-- `giveData` of a buffer that may be null.
unfoldable pub give_some : Option Buffer → Request → Option Request
unfolding give_data
give_some none r = some r
give_some (some buf) r = give_data buf r

-- The end of the response, after the whole output.
unfoldable pub finish : Request → Option Request
unfolding get_response_header set_response_code raise_end
finish r =
    let h = get_response_header (codes "Location") r in
    raise_end (if is_empty h.0 then h.1 else set_response_code found [] h.1)

-- The rest of `_processOnIdle`, where `none_read` tells that there was nothing to read.
unfoldable pub go_on : ℕ → (finished none_read : Bool) → Cgi → Request → Option (Cgi × Request)
unfolding finish call_later
go_on now finished none_read c r =
    let over = c.end && none_read in
    if over
    then finish r >>= (λ (s : Request). some (record c { end = true }, s))
    else call_later now (if none_read then 1 else 0) r
      >>= (λ (s : Request). some (record c { end = finished }, s))

-- `_processOnIdle`: `got` is what `read` gives, at most `BUFFER_SIZE - 1` bytes, and `finished` whether
-- the program has ended.
unfoldable pub process_idle : ℕ → Bytes → Bool → Cgi → Request → Option (Cgi × Request)
unfolding to_send give_some go_on
process_idle now got finished c r =
    let d = to_send got c r in give_some d.0 d.2 >>= go_on now finished (is_empty got) d.1

-- `_processOnRequestData`: what the program does not take is lost.
unfoldable pub process_request_data : Buffer → Request → Request
unfolding release
process_request_data buf r = release buf r

-- `_processOnEnd`.
unfoldable pub process_end : ℕ → Request → Option Request
unfolding call_later
process_end now r = call_later now 0 r

-- What the system gives: whether the program could be started, what it has written, and whether it
-- has ended.
pub record Child : Type 0 where
  pub launched : Bool
  pub got : Bytes
  pub finished : Bool

-- The handler of an event, `_actions`; others are not handled.
unfoldable pub act :
    ℕ → Child → Event → Option Buffer → Cgi → Request → Option (Bool × Cgi × Request)
unfolding process_request_data process_idle process_end
act now child on_request_data (some buf) c r = some (true, c, process_request_data buf r)
act now child on_request_data none c r = none
act now child on_idle buf c r =
    process_idle now child.got child.finished c r >>= (λ (d : Cgi × Request). some (true, d.0, d.1))
act now child on_end buf c r = process_end now r >>= (λ (s : Request). some (true, c, s))
act now child _ buf c r = some (false, c, r)

-- `_fillEnvironment`, as far as it changes the request: it refuses other methods, and goes on.
abbrev pub is_allowed : HttpMethod → Bool
is_allowed HttpMethod.get = true
is_allowed HttpMethod.post = true
is_allowed _ = false

unfoldable pub initialize : ℕ → Request → Option Request
unfolding raise_error
initialize now r = if is_allowed r.method then some r else raise_error now method_not_allowed [] r

abbrev pub release_some : Option Buffer → Request → Request
release_some none r = r
release_some (some buf) r = release buf r

unfoldable pub start :
    ℕ → Child → Event → Option Buffer → Cgi → Request → Option (Bool × Cgi × Request)
unfolding act raise_error release
start now child event buf c r =
    if child.launched
    then act now child event buf (record c { started = true }) r
    else raise_error now internal_server_error [] (release_some buf r)
      >>= (λ (s : Request). some (true, c, s))

-- `processRequest`, for a file whose extension has a program, which `isRequired` asked.
unfoldable pub process :
    ℕ → Child → Event → Option Buffer → Cgi → Request → Option (Bool × Cgi × Request)
unfolding act initialize start
process now child event buf c r =
    if c.started
    then act now child event buf c r
    else initialize now r >>= (λ (s : Request). start now child event buf c s)
