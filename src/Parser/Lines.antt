-- ===== src/Parser/Lines.antt =====
-- server/modules/Parser/Parser.cpp: `_parseRequest` reads back a head that is written as HTTP
-- writes it, however it is cut into buffers.
use zhttpd.Base.{
  ℕ, Bool, true, false, Bytes, List, [], ◌∷◌, ◌++◌, ◌≡◌, ◌≢◌, refl, ◌∙◌, arith, if◌then◌else◌, All,
  append-nil, append_assoc,
}
use zhttpd.Request.{Request, set_request_header}
use zhttpd.Parser.Head.{
  get_method, split_line, parse_line, split_method, parse_method, LineState, at_start, parse_byte,
  parse_bytes,
}

-- The byte `b` does not occur.
abbrev pub Lacks : ℕ → Bytes → Type 0
Lacks b xs = All (λ c. c ≢ b) xs

split_line_params :
    (directive params xs : Bytes)
    → split_line true true directive params xs ≡ (directive, params ++ xs)
unfolding split_line
split_line_params directive params [] = rw append-nil
split_line_params directive params (c ∷ xs) =
    split_line_params directive (params ++ c ∷ []) xs ∙ rw append_assoc

pub split_line_directive :
    (acc key : Bytes) (c : ℕ) (val : Bytes)
    → Lacks b':' key
    → split_line false false acc [] (key ++ b':' ∷ c ∷ val) ≡ (acc ++ key, val)
unfolding split_line
split_line_directive acc [] c val h = rw append-nil (split_line_params acc [] val)
split_line_directive acc (k ∷ key) c val h =
    ground
      (arith, split_line_directive (acc ++ k ∷ []) key c val h.1, append_assoc acc (k ∷ []) key)

-- A header line gives its name and what stands behind the byte after the colon.
parse_line-header :
    (key : Bytes) (c : ℕ) (val : Bytes) (r : Request)
    → Lacks b':' key
    → parse_line (key ++ b':' ∷ c ∷ val) r ≡ set_request_header key val r
unfolding parse_line
parse_line-header [] c val r h = rw (split_line_directive [] [] c val h)
parse_line-header (k ∷ key) c val r h = rw (split_line_directive [] (k ∷ key) c val h)

split_method_path :
    (method path xs rest : Bytes)
    → Lacks b' ' xs
    → split_method true method path (xs ++ b' ' ∷ rest) ≡ (method, path ++ xs)
unfolding split_method
split_method_path method path [] rest h = rw append-nil
split_method_path method path (c ∷ xs) rest h =
    ground
      (arith, split_method_path method (path ++ c ∷ []) xs rest h.1, append_assoc path (c ∷ []) xs)

split_method_word :
    (acc xs path rest : Bytes)
    → Lacks b' ' xs
    → Lacks b' ' path
    → split_method false acc [] (xs ++ b' ' ∷ (path ++ b' ' ∷ rest)) ≡ (acc ++ xs, path)
unfolding split_method
split_method_word acc [] path rest h k = rw append-nil (split_method_path acc [] path rest k)
split_method_word acc (c ∷ xs) path rest h k =
    ground
      (arith, split_method_word (acc ++ c ∷ []) xs path rest h.1 k, append_assoc acc (c ∷ []) xs)

abbrev in_line : Bool → Bytes → LineState
in_line parsed line = record { method_parsed = parsed; carriage_return = false; line = line }

parse_bytes-Lacks :
    (parsed : Bool) (acc xs rest : Bytes) (r : Request)
    → Lacks b'\r' xs
    → parse_bytes (xs ++ rest) (in_line parsed acc, r)
      ≡ parse_bytes rest (in_line parsed (acc ++ xs), r)
unfolding parse_bytes parse_byte
parse_bytes-Lacks parsed acc [] rest r h = rw append-nil
parse_bytes-Lacks parsed acc (c ∷ xs) rest r h =
    ground
      (arith, parse_bytes-Lacks parsed (acc ++ c ∷ []) xs rest r h.1, append_assoc acc (c ∷ []) xs)

-- `\r\n` ends a line.
abbrev pub crlf : Bytes → Bytes
crlf rest = b'\r' ∷ b'\n' ∷ rest

parse_bytes-crlf :
    (parsed : Bool) (line rest : Bytes) (r : Request)
    → parse_bytes (crlf rest) (in_line parsed line, r)
      ≡ parse_bytes rest
          (in_line true [], if parsed then parse_line line r else parse_method line r)
unfolding parse_bytes parse_byte
parse_bytes-crlf parsed line rest r = refl

-- What a client sends: a request line, a line for each header, and an empty line.
pub record Head : Type 0 where
  pub method : Bytes
  pub path : Bytes
  pub version : Bytes
  pub headers : List (Bytes × Bytes)

abbrev pub request_line : Head → Bytes
request_line h = h.method ++ b' ' ∷ (h.path ++ b' ' ∷ h.version)

abbrev pub header_line : Bytes × Bytes → Bytes
header_line (key, val) = key ++ b':' ∷ b' ' ∷ val

abbrev pub render_headers : List (Bytes × Bytes) → Bytes → Bytes
render_headers [] rest = rest
render_headers (e ∷ es) rest = header_line e ++ crlf (render_headers es rest)

abbrev pub render : Head → Bytes
render h = request_line h ++ crlf (render_headers h.headers (crlf []))

abbrev pub IsHeader : Bytes × Bytes → Type 0
IsHeader e = Lacks b':' e.0 × Lacks b'\r' (header_line e)

pub record IsHead (h : Head) : Type 0 where
  pub method_word : Lacks b' ' h.method
  pub path_word : Lacks b' ' h.path
  pub first_line : Lacks b'\r' (request_line h)
  pub other_lines : All IsHeader h.headers

abbrev pub set_headers : List (Bytes × Bytes) → Request → Request
set_headers [] r = r
set_headers (e ∷ es) r = set_headers es (set_request_header e.0 e.1 r)

parse_bytes-line :
    (parsed : Bool) (line rest : Bytes) (r : Request)
    → Lacks b'\r' line
    → parse_bytes (line ++ crlf rest) (in_line parsed [], r)
      ≡ parse_bytes rest
          (in_line true [], if parsed then parse_line line r else parse_method line r)
parse_bytes-line parsed line rest r h =
    parse_bytes-Lacks parsed [] line (crlf rest) r h ∙ parse_bytes-crlf parsed line rest r

parse_bytes-headers :
    (es : List (Bytes × Bytes)) (r : Request)
    → All IsHeader es
    → parse_bytes (render_headers es (crlf [])) (in_line true [], r)
      ≡ (in_line true [], set_headers es r)
parse_bytes-headers [] r h = parse_bytes-crlf true [] [] r ∙ (unfold parse_bytes parse_line in refl)
parse_bytes-headers ((key, val) ∷ es) r h =
    parse_bytes-line true (header_line (key, val)) _ r h.0.1
    ∙ rw (parse_line-header key b' ' val r h.0.0) (parse_bytes-headers es _ h.1)

parse_method_lem :
    (h : Head) (r : Request)
    → IsHead h
    → parse_method (request_line h) r ≡ record r { method = get_method h.method; query = h.path }
unfolding parse_method
parse_method_lem h r v =
    rw (split_method_word [] h.method h.path h.version v.method_word v.path_word)

pub parse_bytes-render :
    (h : Head) (r : Request)
    → IsHead h
    → parse_bytes (render h) (at_start, r) ≡ (
      in_line true [],
      set_headers h.headers (record r { method = get_method h.method; query = h.path }),
    )
parse_bytes-render h r v =
    parse_bytes-line false (request_line h) _ r v.first_line
    ∙ rw (parse_method_lem h r v) (parse_bytes-headers h.headers _ v.other_lines)
