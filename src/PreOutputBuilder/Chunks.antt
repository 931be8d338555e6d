-- ===== src/PreOutputBuilder/Chunks.antt =====
-- server/modules/PreOutputBuilder/PreOutputBuilder.cpp: what the client gets of the data that the
-- module is given, where the length was not known.
use Prim.{absurd}
use zhttpd.Base.{
  ℕ, zero, suc, ◌^◌, ◌<◌, true, false, ◌&&◌, ◌||◌, Bytes, codes, List, [], ◌∷◌, ◌++◌, Option, none,
  some, ◌==◌, ltb, if◌then◌else◌, is_empty, length, take, drop, length-append, take-append, ◌≡◌,
  ◌≢◌, refl, ap, ◌∙◌, arith, All, append_assoc, append-nil, ◌>>=◌,
}
use zhttpd.Api.{Buffer, size, contents}
use zhttpd.Tasks.{register, add_end_task}
use zhttpd.Tasks.Work.{need_write}
use zhttpd.Chain.{ModuleWrapper, ModuleList, next_in}
use zhttpd.Request.{Request, allocate, give_data, raise_end, next_module}
use zhttpd.PreOutputBuilder.{
  PreOutputBuilder, crlf, hexadecimal, give_bytes, send_chunk_info, process_data, process_end,
}
use zhttpd.PreOutputBuilder.Digits.{put_number, put_number-Written, IsHexDigit, read_digits}

-- The current module stands in front of the last one.
abbrev pub AtOutput : Option ℕ → ModuleList → Type 0
AtOutput current l =
    (id : ℕ) × (w : ModuleWrapper) × (current ≡ some id)
    × (next_in id l.nodes ≡ some (some w))
    × (next_in w.id l.nodes ≡ some none)

-- From `r` to `s`, `bytes` were sent and the current module stayed where it was.
abbrev pub Sent : Request → Bytes → Request → Type 0
Sent r bytes s =
    (contents s.tasks.write_buffers ≡ contents r.tasks.write_buffers ++ bytes)
    × (s.current ≡ r.current)
    × (s.modules ≡ r.modules)

contents-append : (bs cs : List Buffer) → contents (bs ++ cs) ≡ contents bs ++ contents cs
contents-append [] cs = refl
contents-append (b ∷ bs) cs =
    rw (contents-append bs cs, append_assoc b.bytes (contents bs) (contents cs))

pub Sent-trans : (r s t : Request) (a b : Bytes) → Sent r a s → Sent s b t → Sent r (a ++ b) t
Sent-trans r s t a b (x, c, m) (y, d, n) =
    (rw (y, x, append_assoc (contents r.tasks.write_buffers) a b), d ∙ c, n ∙ m)

pub AtOutput-Sent :
    (r s : Request) (bytes : Bytes)
    → AtOutput r.current r.modules
    → Sent r bytes s
    → AtOutput s.current s.modules
AtOutput-Sent r s bytes (id, w, c, n, e) (x, d, m) =
    (id, w, d ∙ c, ap (λ l. next_in id l.nodes) m ∙ n, ap (λ l. next_in w.id l.nodes) m ∙ e)

need_write_buffers :
    (b : Buffer) (r : Request)
    → (need_write b r.tasks).write_buffers ≡ r.tasks.write_buffers ++ b ∷ []
unfolding need_write register
need_write_buffers b r = ground arith

pub give_data-Sent :
    (b : Buffer) (r : Request)
    → AtOutput r.current r.modules
    → (s : Request) × (give_data b r ≡ some s) × Sent r b.bytes s
unfolding give_data next_module
give_data-Sent b r (id, w, c, n, e) = (
  record r { tasks = need_write b r.tasks },
  ground arith,
  (
    rw (need_write_buffers b r, contents-append r.tasks.write_buffers (b ∷ []), append-nil b.bytes),
    refl,
    refl,
  ),
)

-- The bytes of a chunk.
abbrev pub chunk : Buffer → Bytes
chunk b = (put_number crlf (size b) 16 hexadecimal ++ crlf) ++ b.bytes

expect_crlf : Bytes → Option Bytes
expect_crlf (c ∷ d ∷ cs) = if c == b'\r' && d == b'\n' then some cs else none
expect_crlf _ = none

-- A line, without its end, and what follows it.
take_line : Bytes → Option (Bytes × Bytes)
unfolding expect_crlf
take_line [] = none
take_line (c ∷ cs) =
    let more = take_line cs in
    if c == b'\r'
    then (expect_crlf (c ∷ cs) >>= λ rest. some ([], rest))
    else (more >>= λ m. some (c ∷ m.0, m.1))

-- A reader of one chunk, behind the line with its size, and of the chunks that follow.
read_chunk : (Bytes → Option (Bytes × Bytes)) → Bytes × Bytes → Option (Bytes × Bytes)
unfolding expect_crlf
read_chunk others (ds, s) =
    let n = read_digits 16 0 ds in
    let more = others (drop n s) in
    if is_empty ds || ltb (length s) n
    then none
    else if n == 0
    then (expect_crlf s >>= λ rest. some ([], rest))
    else (more >>= λ m. some (take n s ++ m.0, m.1))

-- A reader of chunks: each behind a line end, the last one empty.
pub dechunk : ℕ → Bytes → Option (Bytes × Bytes)
unfolding expect_crlf take_line read_chunk
dechunk zero s = none
dechunk (suc fuel) s = expect_crlf s >>= λ t. take_line t >>= read_chunk (dechunk fuel)

take_line-digits :
    (ds rest : Bytes) → All IsHexDigit ds → take_line (ds ++ (crlf ++ rest)) ≡ some (ds, rest)
unfolding take_line expect_crlf
take_line-digits [] rest h = refl
take_line-digits (d ∷ ds) rest (hd, h) = ground (arith, take_line-digits ds rest h)

drop-append : (xs ys : Bytes) → drop (length xs) (xs ++ ys) ≡ ys
drop-append [] ys = refl
drop-append (x ∷ xs) ys = drop-append xs ys

is_empty-digits : (ds : Bytes) → ds ≢ [] → is_empty ds ≡ false
is_empty-digits [] h = absurd (h refl)
is_empty-digits (d ∷ ds) h = refl

length-positive : (xs : Bytes) → xs ≢ [] → (length xs == 0) ≡ false
length-positive [] h = absurd (h refl)
length-positive (x ∷ xs) h = ground arith

-- A chunk in front of others, by its digits and its bytes.
dechunk-line :
    (fuel : ℕ) (ds bytes rest : Bytes) (m : Bytes × Bytes)
    → All IsHexDigit ds
    → ds ≢ []
    → read_digits 16 0 ds ≡ length bytes
    → bytes ≢ []
    → dechunk fuel rest ≡ some m
    → dechunk (suc fuel) (crlf ++ (ds ++ (crlf ++ (bytes ++ rest)))) ≡ some (bytes ++ m.0, m.1)
unfolding dechunk expect_crlf read_chunk
dechunk-line fuel ds bytes rest m hex some_digits val some_bytes e =
    let long : ltb (length (bytes ++ rest)) (length bytes) ≡ false =
      ground (arith, length-append bytes rest) in
    let positive : (length bytes == 0) ≡ false = length-positive bytes some_bytes in
    ap (λ o. o >>= read_chunk (dechunk fuel)) (take_line-digits ds (bytes ++ rest) hex)
    ∙ rw (
      val,
      is_empty-digits ds some_digits,
      long,
      positive,
      drop-append bytes rest,
      take-append bytes rest,
      e,
    )

chunk_text :
    (b : Buffer) (ds rest : Bytes)
    → put_number crlf (size b) 16 hexadecimal ≡ crlf ++ ds
    → chunk b ++ rest ≡ crlf ++ (ds ++ (crlf ++ (b.bytes ++ rest)))
chunk_text b ds rest e =
    ground (arith, append_assoc ds crlf b.bytes, append_assoc ds (crlf ++ b.bytes) rest)

dechunk-chunk :
    (fuel : ℕ) (b : Buffer) (rest : Bytes) (m : Bytes × Bytes)
    → b.bytes ≢ []
    → size b < 2 ^ 32
    → dechunk fuel rest ≡ some m
    → dechunk (suc fuel) (chunk b ++ rest) ≡ some (b.bytes ++ m.0, m.1)
dechunk-chunk fuel b rest m h bound e =
    let (ds, text, hex, some_digits, val) = (put_number-Written (size b) crlf bound).1 in
    ap (dechunk (suc fuel)) (chunk_text b ds rest text)
    ∙ dechunk-line fuel ds b.bytes rest m hex some_digits val h e

last_chunk :
    (fuel : ℕ) (rest : Bytes) → dechunk (suc fuel) (codes "\r\n0\r\n\r\n" ++ rest) ≡ some ([], rest)
unfolding dechunk take_line expect_crlf read_chunk
last_chunk fuel rest = ground arith

-- Data and then the end.
unfoldable pub respond :
    List Buffer → PreOutputBuilder → Request → Option (PreOutputBuilder × Request)
respond [] p r = process_end p r
respond (b ∷ bs) p r = process_data b p r >>= λ d. respond bs d.0 d.1

abbrev pub chunks : List Buffer → Bytes
chunks [] = codes "\r\n0\r\n\r\n"
chunks (b ∷ bs) = chunk b ++ chunks bs

abbrev pub IsChunkData : Buffer → Type 0
IsChunkData b = (b.bytes ≢ []) × (size b < 2 ^ 32)

pub dechunk-chunks :
    (bs : List Buffer) (rest : Bytes)
    → All IsChunkData bs
    → dechunk (suc (length bs)) (chunks bs ++ rest) ≡ some (contents bs, rest)
dechunk-chunks [] rest h = last_chunk 0 rest
dechunk-chunks (b ∷ bs) rest (hb, h) =
    ap (dechunk (suc (suc (length bs)))) (append_assoc (chunk b) (chunks bs) rest)
    ∙ dechunk-chunk (suc (length bs)) b (chunks bs ++ rest) (contents bs, rest) hb.0 hb.1
        (dechunk-chunks bs rest h)

abbrev pub chunking : PreOutputBuilder
chunking = record { chunked = true; headers = true }

pub give_bytes-Sent :
    (bytes : Bytes) (r : Request)
    → AtOutput r.current r.modules
    → (s : Request) × (give_bytes bytes r ≡ some s) × Sent r bytes s
unfolding give_bytes allocate
give_bytes-Sent bytes r at =
    give_data-Sent (record { id = r.fresh_buffer; bytes = bytes })
      (record r { fresh_buffer = suc r.fresh_buffer }) at

process_data-Sent :
    (b : Buffer) (r : Request)
    → AtOutput r.current r.modules
    → (s : Request) × (process_data b chunking r ≡ some (chunking, s)) × Sent r (chunk b) s
unfolding process_data send_chunk_info
process_data-Sent b r at =
    let (s, e, sent) = give_bytes-Sent (put_number crlf (size b) 16 hexadecimal ++ crlf) r at in
    let (t, f, given) = give_data-Sent b s (AtOutput-Sent r s _ at sent) in
    (t, rw (e, f), Sent-trans r s t _ _ sent given)

process_end-Sent :
    (r : Request)
    → AtOutput r.current r.modules
    → (s : Request) × (process_end chunking r ≡ some (chunking, s))
      × Sent r (codes "\r\n0\r\n\r\n") s
unfolding process_end raise_end next_module add_end_task
process_end-Sent r at =
    let (s, e, sent) = give_bytes-Sent (codes "\r\n0\r\n\r\n") r at in
    let (id, w, c, n, l) = AtOutput-Sent r s _ at sent in
    (record s { tasks = add_end_task w.id s.tasks }, rw e (ground arith), sent)

pub respond-chunks :
    (bs : List Buffer) (r : Request)
    → AtOutput r.current r.modules
    → (s : Request) × (respond bs chunking r ≡ some (chunking, s)) × Sent r (chunks bs) s
unfolding respond
respond-chunks [] r at = process_end-Sent r at
respond-chunks (b ∷ bs) r at =
    let (s, e, sent) = process_data-Sent b r at in
    let (t, f, more) = respond-chunks bs s (AtOutput-Sent r s _ at sent) in
    (t, rw (e, f), Sent-trans r s t _ _ sent more)
