-- ===== src/Cgi/Lines.antt =====
-- modules/cgi/CGI.cpp: how `_parseHeaders` reads what a program writes as headers.
use zhttpd.Base.{
  ℕ, ◌-◌, false, Bytes, List, [], ◌∷◌, ◌++◌, All, length, length-append, take, take-append, ◌≡◌,
  refl, ap, sym, ◌∙◌, arith, append-nil, append_assoc,
}
use zhttpd.Request.{Request, set_response_header}
use zhttpd.Parser.Head.{split_line}
use zhttpd.Parser.Lines.{Lacks, crlf, header_line, render_headers, IsHeader, split_line_directive}
use zhttpd.Cgi.{
  c_str, parse_headers_line, HeaderState, parse_header_byte, parse_header_bytes, parse_headers,
}

abbrev in_line : Bytes → HeaderState
in_line line = record { carriage_return = false; line = line }

-- A header that the program writes without null bytes.
abbrev pub IsOutput : Bytes × Bytes → Type 0
IsOutput e = IsHeader e × Lacks 0 e.0 × Lacks 0 e.1

abbrev pub set_response_headers : List (Bytes × Bytes) → Request → Request
set_response_headers [] r = r
set_response_headers (e ∷ es) r = set_response_headers es (set_response_header e.0 e.1 r)

pub c_str-Lacks : (xs : Bytes) → Lacks 0 xs → c_str xs ≡ xs
c_str-Lacks [] h = refl
c_str-Lacks (x ∷ xs) (hx, h) = ground (arith, c_str-Lacks xs h)

set_line : Bytes × Bytes → Request → Request
unfolding set_response_header
set_line d r = set_response_header (c_str d.0) (c_str d.1) r

set_line-output :
    (e : Bytes × Bytes) (r : Request) → IsOutput e → set_line e r ≡ set_response_header e.0 e.1 r
unfolding set_line
set_line-output e r h =
    ap (λ (k : Bytes). set_response_header k (c_str e.1) r) (c_str-Lacks e.0 h.1)
    ∙ ap (λ (v : Bytes). set_response_header e.0 v r) (c_str-Lacks e.1 h.2)

parse_headers_line-cons :
    (c : ℕ) (cs : Bytes) (r : Request)
    → parse_headers_line (c ∷ cs) r ≡ set_line (split_line false false [] [] (c ∷ cs)) r
unfolding parse_headers_line set_line
parse_headers_line-cons c cs r = refl

parse_headers_line-header :
    (e : Bytes × Bytes) (r : Request)
    → IsOutput e
    → parse_headers_line (header_line e) r ≡ set_response_header e.0 e.1 r
parse_headers_line-header ([], val) r h =
    parse_headers_line-cons b':' (b' ' ∷ val) r
    ∙ ap (λ d. set_line d r) (split_line_directive [] [] b' ' val h.0.0)
    ∙ set_line-output ([], val) r h
parse_headers_line-header (k ∷ key, val) r h =
    parse_headers_line-cons k (key ++ b':' ∷ b' ' ∷ val) r
    ∙ ap (λ d. set_line d r) (split_line_directive [] (k ∷ key) b' ' val h.0.0)
    ∙ set_line-output (k ∷ key, val) r h

parse_header_bytes-Lacks :
    (acc xs rest : Bytes) (r : Request)
    → Lacks b'\r' xs
    → parse_header_bytes (xs ++ rest) (in_line acc, r)
      ≡ parse_header_bytes rest (in_line (acc ++ xs), r)
unfolding parse_header_bytes parse_header_byte
parse_header_bytes-Lacks acc [] rest r h = rw append-nil refl
parse_header_bytes-Lacks acc (c ∷ xs) rest r (hc, h) =
    ground
      (arith, parse_header_bytes-Lacks (acc ++ c ∷ []) xs rest r h, append_assoc acc (c ∷ []) xs)

parse_header_bytes-headers :
    (es : List (Bytes × Bytes)) (r : Request)
    → All IsOutput es
    → (parse_header_bytes (render_headers es (b'\r' ∷ [])) (in_line [], r)).1
      ≡ set_response_headers es r
unfolding parse_header_bytes parse_header_byte
parse_header_bytes-headers [] r h = refl
parse_header_bytes-headers (e ∷ es) r (he, h) =
    ap (λ s. s.1)
      (parse_header_bytes-Lacks [] (header_line e) (crlf (render_headers es (b'\r' ∷ []))) r he.0.1)
    ∙ ap (λ (s : Request). (parse_header_bytes (render_headers es (b'\r' ∷ [])) (in_line [], s)).1)
        (parse_headers_line-header e r he)
    ∙ parse_header_bytes-headers es (set_response_header e.0 e.1 r) h

render_headers-append :
    (es : List (Bytes × Bytes)) (xs ys : Bytes)
    → render_headers es (xs ++ ys) ≡ render_headers es xs ++ ys
render_headers-append [] xs ys = refl
render_headers-append (e ∷ es) xs ys =
    ap (λ t. header_line e ++ crlf t) (render_headers-append es xs ys)
    ∙ sym (append_assoc (header_line e) (crlf (render_headers es xs)) ys)

but_last : (xs : Bytes) (c : ℕ) → take (length (xs ++ c ∷ []) - 1) (xs ++ c ∷ []) ≡ xs
but_last xs c =
    let e : length (xs ++ c ∷ []) - 1 ≡ length xs = omega (arith, length-append xs (c ∷ [])) in
    ap (λ n. take n (xs ++ c ∷ [])) e ∙ take-append xs (c ∷ [])

-- What is parsed of the head.
pub parse_headers-but_last :
    (es : List (Bytes × Bytes)) (r : Request)
    → All IsOutput es
    → parse_headers
        (take (length (render_headers es (crlf [])) - 1) (render_headers es (crlf [])))
        r
      ≡ set_response_headers es r
unfolding parse_headers
parse_headers-but_last es r h =
    ap (λ t. parse_headers (take (length t - 1) t) r)
      (render_headers-append es (b'\r' ∷ []) (b'\n' ∷ []))
    ∙ ap (λ t. parse_headers t r) (but_last (render_headers es (b'\r' ∷ [])) b'\n')
    ∙ parse_header_bytes-headers es r h
