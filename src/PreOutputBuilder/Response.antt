-- ===== src/PreOutputBuilder/Response.antt =====
-- server/modules/PreOutputBuilder/PreOutputBuilder.cpp: a whole response.
use Prim.{tt}
use zhttpd.Base.{
  Bool, true, false, Bytes, codes, eq_bytes, eq_bytes_iff, lt_bytes, List, [], ◌∷◌, ◌++◌, Option,
  none, some, length, suc, if◌then◌else◌, ◌≡◌, refl, sym, ap, ◌∙◌, arith, All, append_assoc,
  append-nil, Bool-cases, inl, inr, ◌>>=◌,
}
use zhttpd.Api.{Buffer, contents}
use zhttpd.Headers.{HeaderMap, insert, lookup, get_header, keys}
use zhttpd.Headers.Order.{IsSorted, insert-IsSorted, lt_bytes_irrefl}
use zhttpd.Request.{
  Request, get_response_header, give_data, set_response_code, get_request_header,
  set_response_header,
}
use zhttpd.PreOutputBuilder.{
  PreOutputBuilder, init, header_line, put_headers, put_length, settle_code, status_line,
  keep_alive, send_headers, process_data, give_bytes, send_chunk_info,
}
use zhttpd.PreOutputBuilder.Chunks.{
  AtOutput, Sent, Sent-trans, AtOutput-Sent, respond, chunks, chunking, IsChunkData, respond-chunks,
  dechunk, dechunk-chunks, give_bytes-Sent,
}

-- The lines of the headers that have a value, in the order of the map.
abbrev pub header_lines : HeaderMap → Bytes
header_lines [] = []
header_lines ((k, v) ∷ m) = header_line k v ++ header_lines m

Found : HeaderMap → HeaderMap → Type 0
Found m es = All (λ e. lookup e.0 m ≡ some e.1) es

Found-more :
    (k v : Bytes) (m es : HeaderMap)
    → All (λ e. lt_bytes k e.0 ≡ true) es
    → Found m es
    → Found ((k, v) ∷ m) es
unfolding Found lookup
Found-more k v m [] below h = tt
Found-more k v m ((j, w) ∷ es) (b, below) (hj, h) = (
  elim (Bool-cases (eq_bytes j k)) [
    | inl e ↦ ground (arith, eq_bytes_iff j k, lt_bytes_irrefl k)
    | inr e ↦ rw e hj
  ],
  Found-more k v m es below h,
)

-- In a map that ascends, every entry is the one that its key finds.
IsSorted-Found : (m : HeaderMap) → IsSorted m → Found m m
unfolding Found lookup
IsSorted-Found [] h = tt
IsSorted-Found ((k, v) ∷ m) (below, h) =
    (ground (arith, eq_bytes_iff k k), Found-more k v m m below (IsSorted-Found m h))

get_response_header-found :
    (key val : Bytes) (r : Request)
    → lookup key r.response_headers ≡ some val
    → get_response_header key r ≡ (val, r)
unfolding get_response_header get_header
get_response_header-found key val r e = ground arith

put_headers-Found :
    (es : HeaderMap) (out : Bytes) (r : Request)
    → Found r.response_headers es
    → put_headers (keys es) out r ≡ (out ++ header_lines es, r)
unfolding Found put_headers keys
put_headers-Found [] out r h = ap (λ o. (o, r)) (sym (append-nil out))
put_headers-Found ((k, v) ∷ es) out r (hk, h) =
    ap (λ g. put_headers (keys es) (out ++ header_line k g.0) g.1)
      (get_response_header-found k v r hk)
    ∙ put_headers-Found es (out ++ header_line k v) r h
    ∙ ap (λ o. (o, r)) (append_assoc out (header_line k v) (header_lines es))

settle_code_frame :
    (r : Request)
    → ((settle_code r).tasks ≡ r.tasks)
      × ((settle_code r).current ≡ r.current)
      × ((settle_code r).modules ≡ r.modules)
      × ((settle_code r).response_headers ≡ r.response_headers)
unfolding settle_code set_response_code
settle_code_frame r = ground arith

keep_alive_frame :
    (r : Request)
    → ((keep_alive r).tasks ≡ r.tasks)
      × ((keep_alive r).current ≡ r.current)
      × ((keep_alive r).modules ≡ r.modules)
unfolding keep_alive get_request_header get_response_header set_response_header
keep_alive_frame r = ground arith

-- The value and the map behind a lookup.
abbrev behind : Bytes → HeaderMap → Option Bytes → Bytes × HeaderMap
behind key m none = ([], insert key [] m)
behind key m (some v) = (v, m)

get_header-IsSorted : (key : Bytes) (m : HeaderMap) → IsSorted m → IsSorted (get_header key m).1
unfolding get_header
get_header-IsSorted key m h = elim (lookup key m) as (λ o. IsSorted (behind key m o).1) [
  | none ↦ insert-IsSorted key [] m h
  | some v ↦ h
]

if-IsSorted :
    (c : Bool) (r s : Request)
    → IsSorted r.response_headers
    → IsSorted s.response_headers
    → IsSorted (if c then r else s).response_headers
if-IsSorted true r s h g = h
if-IsSorted false r s h g = g

keep_alive-IsSorted :
    (r : Request) → IsSorted r.response_headers → IsSorted (keep_alive r).response_headers
unfolding keep_alive get_request_header get_response_header set_response_header
keep_alive-IsSorted r h =
    let (asked, s) = get_request_header (codes "Connection") r in
    let (said, t) = get_response_header (codes "Connection") s in
    let kept = get_header-IsSorted (codes "Connection") r.response_headers h in
    let said_so = set_response_header (codes "Connection") (codes "Keep-Alive") t in
    if-IsSorted (eq_bytes asked (codes "close")) s _ h (
      if-IsSorted (eq_bytes said [])
        (set_response_header (codes "Keep-Alive") (codes "timeout=3, max=50") said_so) t
        (insert-IsSorted (codes "Keep-Alive") (codes "timeout=3, max=50") said_so.response_headers
          (insert-IsSorted (codes "Connection") (codes "Keep-Alive") t.response_headers kept))
        kept)

-- The text in front of the first chunk.
abbrev pub head_text : Request → Bytes
head_text r =
    (status_line (settle_code r) ++ header_lines (keep_alive (settle_code r)).response_headers)
    ++ codes "Transfer-Encoding: chunked\r\n"

kept_frame :
    (r : Request)
    → ((keep_alive (settle_code r)).tasks ≡ r.tasks)
      × ((keep_alive (settle_code r)).current ≡ r.current)
      × ((keep_alive (settle_code r)).modules ≡ r.modules)
kept_frame r =
    let (a, b, c, d) = settle_code_frame r in
    let (x, y, z) = keep_alive_frame (settle_code r) in (x ∙ a, y ∙ b, z ∙ c)

put_length-chunked :
    (out : Bytes) (p : PreOutputBuilder) (r : Request)
    → lookup (codes "Content-Length") r.response_headers ≡ none
    → (s : Request) × (put_length true out p r
        ≡ (out ++ codes "Transfer-Encoding: chunked\r\n", record p { chunked = true }, s))
      × (s.tasks ≡ r.tasks)
      × (s.current ≡ r.current)
      × (s.modules ≡ r.modules)
unfolding put_length get_response_header get_header eq_bytes
put_length-chunked out p r h = (
  record r { response_headers = insert (codes "Content-Length") [] r.response_headers },
  ground arith,
  refl,
  refl,
  refl,
)

-- `Sent` sees a request by its tasks and the place of its module.
Sent-same :
    (r s t : Request) (bytes : Bytes)
    → s.tasks ≡ r.tasks
    → s.current ≡ r.current
    → s.modules ≡ r.modules
    → Sent s bytes t
    → Sent r bytes t
Sent-same r s t bytes a b c (x, y, z) =
    (x ∙ ap (λ u. contents u.write_buffers ++ bytes) a, y ∙ b, z ∙ c)

AtOutput-same :
    (r s : Request)
    → s.current ≡ r.current
    → s.modules ≡ r.modules
    → AtOutput r.current r.modules
    → AtOutput s.current s.modules
AtOutput-same r s b c at = rw (b, c) at

abbrev sending : Bytes × PreOutputBuilder × Request → Option (PreOutputBuilder × Request)
sending (head, q, t) = give_bytes head t >>= λ u. some (record q { headers = true }, u)

send_headers-Sent :
    (r : Request)
    → AtOutput r.current r.modules
    → IsSorted r.response_headers
    → lookup (codes "Content-Length") (keep_alive (settle_code r)).response_headers ≡ none
    → (u : Request) × (send_headers true init r ≡ some (chunking, u)) × Sent r (head_text r) u
unfolding send_headers init
send_headers-Sent r at sorted h =
    let kept = keep_alive (settle_code r) in
    let (a, b, c) = kept_frame r in
    let ordered : IsSorted kept.response_headers =
      keep_alive-IsSorted (settle_code r) (rw (settle_code_frame r).3 sorted) in
    let lines =
      put_headers-Found kept.response_headers (status_line (settle_code r)) kept
        (IsSorted-Found kept.response_headers ordered) in
    let (t, length, d, e, f) =
      put_length-chunked (status_line (settle_code r) ++ header_lines kept.response_headers) init
        kept h in
    let (u, given, sent) = give_bytes-Sent (head_text r) t (AtOutput-same r t (e ∙ b) (f ∙ c) at) in
    (
      u,
      ap (λ x. sending (put_length true x.0 init x.1)) lines
          ∙ ap sending length
          ∙ ap (λ o. o >>= λ v. some (chunking, v)) given,
      Sent-same r t u (head_text r) (d ∙ a) (e ∙ b) (f ∙ c) sent,
    )

abbrev sending_data : Buffer → PreOutputBuilder × Request → Option (PreOutputBuilder × Request)
sending_data b (q, s) =
    (if q.chunked then send_chunk_info b s else some s) >>= λ t. give_data b t >>= λ u. some (q, u)

respond-first :
    (b : Buffer) (bs : List Buffer) (r s : Request)
    → send_headers true init r ≡ some (chunking, s)
    → respond (b ∷ bs) init r ≡ respond (b ∷ bs) chunking s
unfolding respond process_data init
respond-first b bs r s e = ap (λ o. (o >>= sending_data b) >>= λ d. respond bs d.0 d.1) e

-- A response of one or more buffers, none of them empty or of 2 ^ 32 bytes, by the module in front
-- of the last one, with no length among the headers: every step succeeds, and what is to be written
-- is the status line, one line for each header that has a value, in the order of their names, and
-- chunks that a client reads as the bytes of the buffers, up to whatever follows the response.
pub respond-dechunk :
    (b : Buffer) (bs : List Buffer) (r : Request) (following : Bytes)
    → AtOutput r.current r.modules
    → IsSorted r.response_headers
    → lookup (codes "Content-Length") (keep_alive (settle_code r)).response_headers ≡ none
    → All IsChunkData (b ∷ bs)
    → (s : Request) × (body : Bytes) × (respond (b ∷ bs) init r ≡ some (chunking, s))
      × (contents s.tasks.write_buffers ≡ contents r.tasks.write_buffers ++ (head_text r ++ body))
      × (dechunk (suc (length (b ∷ bs))) (body ++ following) ≡ some (contents (b ∷ bs), following))
respond-dechunk b bs r following at sorted h small =
    let (s, e, sent) = send_headers-Sent r at sorted h in
    let (t, f, more) = respond-chunks (b ∷ bs) s (AtOutput-Sent r s (head_text r) at sent) in
    let whole = Sent-trans r s t (head_text r) (chunks (b ∷ bs)) sent more in
    (
      t,
      chunks (b ∷ bs),
      respond-first b bs r s e ∙ f,
      whole.0,
      dechunk-chunks (b ∷ bs) following small,
    )
