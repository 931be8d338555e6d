-- ===== src/Cgi/Output.antt =====
-- modules/cgi/CGI.cpp: which data and which headers the first read of a program becomes.
use zhttpd.Base.{
  ℕ, suc, ◌-◌, true, false, Bytes, List, [], ◌∷◌, ◌++◌, Option, none, some, All, length,
  length-append, take, ◌≡◌, refl, ap, sym, ◌∙◌, arith, append_assoc, if◌then◌else◌,
}
use zhttpd.Api.{Buffer}
use zhttpd.Headers.{HeaderMap}
use zhttpd.Request.{Request, set_response_header, allocate, release}
use zhttpd.Parser.Lines.{crlf, header_line, render_headers, IsHeader}
use zhttpd.Parser.Ends.{scan_first_header}
use zhttpd.Cgi.{Cgi, take_data, found_headers, extract_from, extract_headers, to_send}
use zhttpd.Cgi.Lines.{IsOutput, set_response_headers, parse_headers-but_last}

set_response_headers-fresh :
    (es : List (Bytes × Bytes)) (n : ℕ) (r : Request)
    → set_response_headers es (record r { fresh_buffer = n })
      ≡ record (set_response_headers es r) { fresh_buffer = n }
unfolding set_response_header
set_response_headers-fresh [] n r = refl
set_response_headers-fresh (e ∷ es) n r =
    set_response_headers-fresh es n (set_response_header e.0 e.1 r)

set_response_headers-tasks :
    (es : List (Bytes × Bytes)) (r : Request) → (set_response_headers es r).tasks ≡ r.tasks
unfolding set_response_header
set_response_headers-tasks [] r = refl
set_response_headers-tasks (e ∷ es) r =
    set_response_headers-tasks es (set_response_header e.0 e.1 r)

abbrev pub bytes_of : Option Buffer → Bytes
bytes_of none = []
bytes_of (some buf) = buf.bytes

with_parsed : Bytes → Bytes → Cgi → Request → Request → Option Buffer × Cgi × Request
unfolding allocate release take_data
with_parsed head rest c r parsed =
    let d = take_data rest (release (allocate (take (length head - 1) head) r).0 parsed) in
    (d.0, record c { headers = false }, d.1)

IsOutput-headers : (es : List (Bytes × Bytes)) → All IsOutput es → All IsHeader es
IsOutput-headers [] h = h
IsOutput-headers (e ∷ es) h = (h.0.0, IsOutput-headers es h.1)

extract_headers-render :
    (e : Bytes × Bytes) (es : List (Bytes × Bytes)) (id : ℕ) (body : Bytes) (c : Cgi) (r : Request)
    → All IsOutput (e ∷ es)
    → extract_headers (record { id = id; bytes = render_headers (e ∷ es) (crlf []) ++ body }) c r
      ≡ with_parsed
          (render_headers (e ∷ es) (crlf []))
          body
          c
          r
          (set_response_headers (e ∷ es) (record r { fresh_buffer = suc r.fresh_buffer }))
unfolding extract_headers extract_from found_headers with_parsed allocate
extract_headers-render e es id body c r h =
    let head = render_headers (e ∷ es) (crlf []) in
    ap (λ s. extract_from s c r) (scan_first_header e es body (IsOutput-headers (e ∷ es) h))
    ∙ ap (with_parsed head body c r)
        (parse_headers-but_last (e ∷ es) (record r { fresh_buffer = suc r.fresh_buffer }) h)

-- `to_send` of bytes that are there.
to_send_some : Bytes → Cgi → Request → Option Buffer × Cgi × Request
unfolding allocate release extract_headers
to_send_some bytes c r =
    let a = allocate bytes r in
    let d = extract_headers a.0 c a.1 in
    if c.headers then (d.0, d.1, release a.0 d.2) else (some a.0, c, a.1)

to_send-header :
    (e : Bytes × Bytes) (rest : Bytes) (c : Cgi) (r : Request)
    → to_send (header_line e ++ rest) c r ≡ to_send_some (header_line e ++ rest) c r
unfolding to_send to_send_some
to_send-header ([], val) rest c r = refl
to_send-header (k ∷ key, val) rest c r = refl

to_send-render_some :
    (e : Bytes × Bytes) (es : List (Bytes × Bytes)) (body : Bytes) (c : Cgi) (r : Request)
    → to_send (render_headers (e ∷ es) (crlf []) ++ body) c r
      ≡ to_send_some (render_headers (e ∷ es) (crlf []) ++ body) c r
to_send-render_some e es body c r =
    let more = append_assoc (header_line e) (crlf (render_headers es (crlf []))) body in
    ap (λ t. to_send t c r) more ∙ to_send-header e _ c r ∙ ap (λ t. to_send_some t c r) (sym more)

-- The bytes sent, the new state, the headers of the response, and the number of buffers given back.
abbrev pub view : Option Buffer × Cgi × Request → Bytes × Cgi × HeaderMap × ℕ
view d = (bytes_of d.0, d.1, d.2.response_headers, length d.2.tasks.released)

release_behind : Buffer → Option Buffer × Cgi × Request → Option Buffer × Cgi × Request
unfolding release
release_behind buf d = (d.0, d.1, release buf d.2)

to_send_some-headers :
    (bytes : Bytes) (c : Cgi) (r : Request)
    → c.headers ≡ true
    → to_send_some bytes c r
      ≡ release_behind
          (allocate bytes r).0
          (extract_headers (allocate bytes r).0 c (allocate bytes r).1)
unfolding to_send_some release_behind
to_send_some-headers bytes c r h = simp h refl

set_response_headers-response_headers :
    (es : List (Bytes × Bytes)) (n : ℕ) (r : Request)
    → (set_response_headers es (record r { fresh_buffer = n })).response_headers
      ≡ (set_response_headers es r).response_headers
set_response_headers-response_headers es n r =
    ap (λ (s : Request). s.response_headers) (set_response_headers-fresh es n r)

length-two_more :
    (bufs : List Buffer) (a b : Buffer)
    → length ((bufs ++ a ∷ []) ++ b ∷ []) ≡ suc (suc (length bufs))
length-two_more bufs a b =
    ground (arith, length-append (bufs ++ a ∷ []) (b ∷ []), length-append bufs (a ∷ []))

view-with_parsed :
    (head body : Bytes) (buf : Buffer) (c : Cgi) (r parsed : Request)
    → view (release_behind buf (with_parsed head body c r parsed)) ≡ (
      body,
      record c { headers = false },
      parsed.response_headers,
      suc (suc (length parsed.tasks.released)),
    )
unfolding release_behind with_parsed release take_data allocate
view-with_parsed head [] buf c r parsed =
    ap (λ n. ([], record c { headers = false }, parsed.response_headers, n))
      (length-two_more parsed.tasks.released _ buf)
view-with_parsed head (b ∷ body) buf c r parsed =
    ap (λ n. (b ∷ body, record c { headers = false }, parsed.response_headers, n))
      (length-two_more parsed.tasks.released _ buf)

pub to_send-render :
    (e : Bytes × Bytes) (es : List (Bytes × Bytes)) (body : Bytes) (c : Cgi) (r : Request)
    → All IsOutput (e ∷ es)
    → c.headers ≡ true
    → view (to_send (render_headers (e ∷ es) (crlf []) ++ body) c r) ≡ (
      body,
      record c { headers = false },
      (set_response_headers (e ∷ es) r).response_headers,
      suc (suc (length r.tasks.released)),
    )
unfolding allocate
to_send-render e es body c r h w =
    let bytes = render_headers (e ∷ es) (crlf []) ++ body in
    let after =
      set_response_headers (e ∷ es) (record r { fresh_buffer = suc (suc r.fresh_buffer) }) in
    ap view (
      to_send-render_some e es body c r
      ∙ to_send_some-headers bytes c r w
      ∙ ap (release_behind (allocate bytes r).0)
          (extract_headers-render e es r.fresh_buffer body c (allocate bytes r).1 h))
    ∙ view-with_parsed (render_headers (e ∷ es) (crlf [])) body (allocate bytes r).0 c
        (allocate bytes r).1 after
    ∙ ap (λ m. (body, record c { headers = false }, m, suc (suc (length after.tasks.released))))
        (set_response_headers-response_headers (e ∷ es) (suc (suc r.fresh_buffer)) r)
    ∙ ap
        (λ bufs. (
          body,
          record c { headers = false },
          (set_response_headers (e ∷ es) r).response_headers,
          suc (suc (length bufs)),
        ))
        (ap (λ t. t.released)
          (set_response_headers-tasks (e ∷ es)
            (record r { fresh_buffer = suc (suc r.fresh_buffer) })))
