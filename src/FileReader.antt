-- ===== src/FileReader.antt =====
-- server/modules/FileReader: the module that sends a file, or a range of it.
pub mod Transfer
pub mod Ranges
use zhttpd.Base.{
  ℕ, ◌+◌, ◌-◌, ◌%◌, ◌^◌, Bool, true, false, not, ◌&&◌, ◌||◌, Bytes, codes, eq_bytes, List, [], ◌∷◌,
  ◌++◌, Option, none, some, ◌==◌, ltb, leb, if◌then◌else◌, is_empty, length, take, drop,
  read_unsigned, is_digit, ◌>>=◌,
}
use zhttpd.Api.{Event, on_idle, on_end, Buffer}
use zhttpd.Api.HttpCode.{ok, partial_content, not_found, internal_server_error}
use zhttpd.Headers.{HeaderMap, insert, lookup}
use zhttpd.Paths.{split_last}
use zhttpd.Request.{
  Request, allocate, give_data, raise_end, raise_error, call_later, set_response_code,
  set_response_header, get_request_header,
}
use zhttpd.PreOutputBuilder.Digits.{put_number}

-- The manager's configuration: the types of files by extension, the type of all others, the delay.
pub record FileReaderManager : Type 0 where
  pub types : HeaderMap
  pub default_mime_type : Bytes
  pub delay : ℕ

-- `FileReaderManager::FileReaderManager`.
unfoldable pub init_manager : FileReaderManager
init_manager = record { types = []; default_mime_type = []; delay = 0 }

-- `getMimeType`.
unfoldable pub get_mime_type : Bytes → FileReaderManager → Bytes
get_mime_type ext m = elim (lookup ext m.types) [ none ↦ m.default_mime_type | some type ↦ type ]

-- `addConfigurationEntry`.
unfoldable pub add_configuration_entry : Bytes → Bytes → FileReaderManager → FileReaderManager
add_configuration_entry [] value m = m
add_configuration_entry (c ∷ key) value m =
    if c == b'.'
    then record m { types = insert key value m.types }
    else if eq_bytes (c ∷ key) (codes "delay")
    then record m { delay = read_unsigned (2 ^ 32) value }
    else m

-- The fields of the module, and the state of its stream: where it stands, and its flags.
pub record FileReader : Type 0 where
  pub is_open : Bool
  pub position : ℕ
  pub fail : Bool
  pub eof : Bool
  pub file_size : ℕ
  pub range_begin : ℕ
  pub range_end : ℕ

-- `FileReader::FileReader`.
unfoldable pub init : FileReader
init = record {
  is_open = false;
  position = 0;
  fail = false;
  eof = false;
  file_size = 0;
  range_begin = 0;
  range_end = 0;
}

abbrev pub chunk_size : ℕ
chunk_size = 4096

-- How many bytes `_onIdle` asks for, before the end of the range.
abbrev pub read_size : FileReader → ℕ
read_size f =
    if ltb chunk_size (f.range_end - f.position) then chunk_size else f.range_end - f.position + 1

-- `std::istream::read` of `n` bytes: what it stores, and the stream behind it, which fails at the
-- end of the file.
unfoldable pub read : ℕ → Bytes → FileReader → Bytes × FileReader
read n file f =
    let got = take n (drop f.position file) in
    let short = ltb (length got) n in
    (got, record f { position = f.position + length got; fail = short; eof = short })

-- What `_onIdle` does next. A stream that failed has no position, and is not behind the range.
pub data Action : Type 0 where
  ends fails : Action
  sends : ℕ → Action

unfoldable pub next_action : FileReader → Action
next_action f =
    if not f.fail && leb f.range_end f.position
    then ends
    else if not f.fail
    then sends (read_size f)
    else if f.eof
    then ends
    else fails

-- What the system gives: the time, the contents of the file, and what a new buffer holds.
pub record System : Type 0 where
  pub now : ℕ
  pub file : Bytes
  pub memory : Bytes

-- `_onIdle`.
unfoldable pub do_action :
    FileReaderManager → System → Action → FileReader → Request → Option (FileReader × Request)
unfolding read
do_action m sys ends f r = raise_end r >>= λ s. some (f, s)
do_action m sys fails f r = raise_error sys.now internal_server_error [] r >>= λ s. some (f, s)
do_action m sys (sends n) f r = do
  let (got, g) = read n sys.file f
  let (buf, s) = allocate (take n (got ++ sys.memory)) r
  t ← give_data buf s
  u ← call_later sys.now m.delay t
  some (g, u)

unfoldable pub process_idle :
    FileReaderManager → System → FileReader → Request → Option (FileReader × Request)
unfolding next_action do_action
process_idle m sys f r = do_action m sys (next_action f) f r

-- `_findMimeType`: by what stands behind the last dot.
unfoldable pub find_mime_type : Bytes → FileReaderManager → Bytes
unfolding get_mime_type
find_mime_type path m = elim (split_last b'.' path) [
  | none ↦ m.default_mime_type
  | some (_, ext) ↦ get_mime_type ext m
]

-- The loop of `_setRanges`: its two flags and its two strings.
unfoldable pub split_range : Bool → Bool → Bytes → Bytes → Bytes → Bytes × Bytes
split_range equal minus first last [] = (first, last)
split_range equal minus first last (c ∷ cs) =
    split_range (equal || c == b'=') (minus || c == b'-')
      (if c == b'=' || c == b'-' || minus || not equal then first else first ++ c ∷ [])
      (if c == b'=' || c == b'-' || not (equal && minus) then last else last ++ c ∷ []) cs

-- What `std::istream >> unsigned` leaves of a text: no spaces, no sign, no digits in front.
unfoldable pub skip_digits : Bytes → Bytes
skip_digits [] = []
skip_digits (c ∷ cs) = if is_digit c then skip_digits cs else c ∷ cs

unfoldable pub after_number : Bytes → Bytes
unfolding skip_digits
after_number [] = []
after_number (c ∷ cs) =
    if c == 32 || (leb 9 c && leb c 13)
    then after_number cs
    else if c == b'-' || c == b'+'
    then skip_digits cs
    else skip_digits (c ∷ cs)

-- The end of a range: the second number, which is read behind what the first one left, or the end
-- of the file.
unfoldable pub end_of_range : ℕ → Bytes → Bytes → ℕ
unfolding after_number
end_of_range size first [] = size - 1
end_of_range size first (c ∷ cs) =
    let n = read_unsigned (2 ^ 32) (after_number first ++ c ∷ cs) in
    if leb size n then size - 1 else n

unfoldable pub set_bounds : Bytes → Bytes → FileReader → FileReader
unfolding end_of_range
set_bounds [] last f = f
set_bounds (c ∷ first) last f =
    let n = read_unsigned (2 ^ 32) (c ∷ first) in
    let e = end_of_range f.file_size (c ∷ first) last in
    record f { range_begin = if leb e n then 0 else n; range_end = e }

-- `_setRanges`, on a file that is not empty.
unfoldable pub set_ranges : Bytes → FileReader → FileReader
unfolding split_range set_bounds
set_ranges text f =
    let (first, last) = split_range false false [] [] text in set_bounds first last f

abbrev pub number_text : ℕ → Bytes
number_text n = put_number [] n 10 (codes "0123456789")

unfoldable pub content_range : FileReader → Request → Request
content_range f r =
    set_response_header (codes "Content-Range")
      (codes "bytes "
        ++ (number_text f.range_begin
            ++ (codes "-" ++ (number_text f.range_end ++ (codes "/" ++ number_text f.file_size)))))
      r

-- `_writeRanges`.
unfoldable pub write_ranges : FileReader → Request → FileReader × Request
unfolding content_range
write_ranges f r =
    if f.range_begin == 0 && f.range_end == 0
    then (let g = record f { range_begin = 0; range_end = f.file_size - 1 } in
        (g, content_range g (set_response_code ok [] r)))
    else (let g = record f { position = if f.fail then f.position else f.range_begin } in
        (g, content_range g (set_response_code partial_content [] r)))

-- The bytes of a range, as an `unsigned int`.
abbrev pub range_length : FileReader → ℕ
range_length f = (f.range_end + 2 ^ 32 - f.range_begin + 1) % 2 ^ 32

-- The headers that `_onEnd` sets before the range.
unfoldable pub file_headers : FileReaderManager → Request → Request
unfolding find_mime_type
file_headers m r =
    let type = find_mime_type r.file_path m in
    let s = set_response_header (codes "Content-Length") (codes "0") r in
    let t = if is_empty type then s else set_response_header (codes "Content-Type") type s in
    set_response_header (codes "Accept-Ranges") (codes "bytes") t

-- `_onEnd` on a file that is not empty.
unfoldable pub start_range :
    FileReaderManager → System → FileReader → Request → Option (FileReader × Request)
unfolding set_ranges write_ranges process_idle
start_range m sys f r =
    let (range, s) = get_request_header (codes "Range") r in
    let (g, t) = write_ranges (set_ranges range f) s in
    let u = set_response_header (codes "Content-Length") (number_text (range_length g)) t in
    process_idle m sys g u

-- `_onEnd` behind `open`: `opened` says whether that succeeded.
unfoldable pub process_end :
    Bool → FileReaderManager → System → FileReader → Request → Option (FileReader × Request)
unfolding file_headers start_range
process_end opened m sys f r =
    let size = length sys.file % 2 ^ 32 in
    let g = record f { is_open = true; position = 0; file_size = size } in
    let s = file_headers m r in
    if f.is_open
    then some (f, r)
    else if not opened
    then (raise_error sys.now not_found [] r >>= λ s. some (record f { fail = true }, s))
    else if size == 0
    then (raise_end s >>= λ t. some (g, t))
    else start_range m sys g s

-- `processRequest`; every other event is not handled.
unfoldable pub process :
    Bool
    → FileReaderManager
    → System
    → Event
    → FileReader
    → Request
    → Option (Bool × FileReader × Request)
unfolding process_end process_idle
process opened m sys on_end f r = process_end opened m sys f r >>= λ d. some (true, d.0, d.1)
process opened m sys on_idle f r = process_idle m sys f r >>= λ d. some (true, d.0, d.1)
process opened m sys _ f r = some (false, f, r)
