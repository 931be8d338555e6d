-- ===== src/Parser/Head.antt =====
-- server/modules/Parser/Parser.cpp: the lines of a request's head.
use zhttpd.Base.{
  ℕ, Bool, true, false, ◌&&◌, Bytes, codes, eq_bytes, List, [], ◌∷◌, ◌++◌, ◌==◌, if◌then◌else◌,
}
use zhttpd.Api.{HttpMethod, Buffer}
use zhttpd.Request.{Request, release, set_request_header}

-- `ParserManager::_methods` and `getMethod`.
unfoldable pub get_method : Bytes → HttpMethod
get_method s =
    if eq_bytes s (codes "GET")
    then HttpMethod.get
    else if eq_bytes s (codes "POST")
    then HttpMethod.post
    else if eq_bytes s (codes "PUT")
    then HttpMethod.put
    else if eq_bytes s (codes "DELETE")
    then HttpMethod.delete
    else if eq_bytes s (codes "TRACE")
    then HttpMethod.trace
    else if eq_bytes s (codes "OPTIONS")
    then HttpMethod.options
    else if eq_bytes s (codes "CONNECT")
    then HttpMethod.connect
    else if eq_bytes s (codes "HEAD")
    then HttpMethod.head
    else HttpMethod.undefined

-- The loop of `_parseLine`: its two flags, and the two strings that it fills.
unfoldable pub split_line : Bool → Bool → Bytes → Bytes → Bytes → Bytes × Bytes
split_line directive_done separator_done directive params [] = (directive, params)
split_line got_directive true directive params (c ∷ cs) =
    split_line got_directive true directive (params ++ c ∷ []) cs
split_line true false directive params (c ∷ cs) = split_line true true directive params cs
split_line false false directive params (c ∷ cs) =
    split_line (c == b':') false (if c == b':' then directive else directive ++ c ∷ []) params cs

-- `_parseLine`.
unfoldable pub parse_line : Bytes → Request → Request
unfolding split_line
parse_line [] r = r
parse_line (c ∷ cs) r =
    let (directive, params) = split_line false false [] [] (c ∷ cs) in
    set_request_header directive params r

-- The loop of `_parseMethod`: the second word ends at a blank.
unfoldable pub split_method : Bool → Bytes → Bytes → Bytes → Bytes × Bytes
split_method got_method method path [] = (method, path)
split_method true method path (c ∷ cs) =
    let more = split_method true method (path ++ c ∷ []) cs in
    if c == b' ' then (method, path) else more
split_method false method path (c ∷ cs) =
    split_method (c == b' ') (if c == b' ' then method else method ++ c ∷ []) path cs

-- `_parseMethod`.
unfoldable pub parse_method : Bytes → Request → Request
unfolding split_method get_method
parse_method line r =
    let (method, path) = split_method false [] [] line in
    record r { method = get_method method; query = path }

-- The local variables of `_parseRequest`.
pub record LineState : Type 0 where
  pub method_parsed : Bool
  pub carriage_return : Bool
  pub line : Bytes

abbrev pub at_start : LineState
at_start = record { method_parsed = false; carriage_return = false; line = [] }

-- One byte of the loop of `_parseRequest`.
unfoldable pub parse_byte : ℕ → LineState × Request → LineState × Request
unfolding parse_line parse_method
parse_byte c (st, r) =
    if c == b'\r'
    then (record st { carriage_return = true }, r)
    else if c == b'\n' && st.carriage_return
    then (
      record { method_parsed = true; carriage_return = false; line = [] },
      if st.method_parsed then parse_line st.line r else parse_method st.line r,
    )
    else (record st { line = st.line ++ c ∷ []; carriage_return = false }, r)

unfoldable pub parse_bytes : Bytes → LineState × Request → LineState × Request
unfolding parse_byte
parse_bytes [] s = s
parse_bytes (c ∷ cs) s = parse_bytes cs (parse_byte c s)

-- The loops of `_parseRequest`: each buffer is given back behind its last byte.
unfoldable pub parse_buffers : LineState → List Buffer → Request → Request
unfolding parse_bytes
parse_buffers st [] r = r
parse_buffers st (b ∷ bs) r =
    let (next, s) = parse_bytes b.bytes (st, r) in parse_buffers next bs (release b s)
