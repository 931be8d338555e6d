-- ===== src/Cgi/Sending.antt =====
-- modules/cgi/CGI.cpp: what the client gets of all that a program writes.
use zhttpd.Base.{
  ◌⊎◌, ℕ, true, false, Bytes, List, [], ◌∷◌, ◌++◌, Option, All, ◌≡◌, refl, ap, ◌∙◌, inl, inr,
}
use zhttpd.Api.{Buffer}
use zhttpd.Headers.{HeaderMap}
use zhttpd.Request.{Request, allocate, release}
use zhttpd.Parser.{Scan, ended, unfinished, scan}
use zhttpd.Parser.Lines.{crlf, render_headers}
use zhttpd.Cgi.{Cgi, extract_from, extract_headers, to_send}
use mathlib.Core.List.{flatten}
use zhttpd.Parser.Ends.{scan-ended}
use zhttpd.Cgi.Lines.{IsOutput, set_response_headers}
use zhttpd.Cgi.Output.{bytes_of, to_send-render}

-- What the client gets of the reads of a program, one call of `_processOnIdle` for each of them.
abbrev pub send_all : List Bytes → Cgi → Request → Bytes × Cgi × Request
send_all [] c r = ([], c, r)
send_all (got ∷ reads) c r =
    let d = to_send got c r in let s = send_all reads d.1 d.2 in (bytes_of d.0 ++ s.0, s.1, s.2)

abbrev pub seen : Bytes × Cgi × Request → Bytes × Cgi × HeaderMap
seen s = (s.0, s.1, s.2.response_headers)

-- What one read gives.
abbrev shown : Option Buffer × Cgi × Request → Bytes × Cgi × HeaderMap
shown d = (bytes_of d.0, d.1, d.2.response_headers)

abbrev behind : Bytes → Bytes × Cgi × HeaderMap → Bytes × Cgi × HeaderMap
behind bytes s = (bytes ++ s.0, s.1, s.2)

before : List Bytes → Bytes × Cgi × HeaderMap → Bytes × Cgi × HeaderMap
before reads s = (s.0 ++ flatten reads, s.1, s.2)

to_send-data :
    (got : Bytes) (c : Cgi) (r : Request)
    → c.headers ≡ false
    → shown (to_send got c r) ≡ (got, c, r.response_headers)
unfolding to_send allocate
to_send-data [] c r h = refl
to_send-data (b ∷ bs) c r h = simp h refl

send_all-data :
    (reads : List Bytes) (c : Cgi) (r : Request)
    → c.headers ≡ false
    → seen (send_all reads c r) ≡ (flatten reads, c, r.response_headers)
unfolding flatten before
send_all-data [] c r h = refl
send_all-data (got ∷ reads) c r h =
    let d = to_send got c r in
    let e = to_send-data got c r h in
    ap (behind (bytes_of d.0)) (send_all-data reads d.1 d.2 (ap (λ s. s.1.headers) e ∙ h))
    ∙ ap (before reads) e

-- A program whose first read holds all its headers and the empty line behind them: the client gets
-- the bytes that follow, in order and without loss, over any number of further reads, and the response
-- has gained exactly the headers written.
pub send_all-render :
    (e : Bytes × Bytes) (es : List (Bytes × Bytes)) (body : Bytes) (reads : List Bytes)
    → (c : Cgi) (r : Request) → All IsOutput (e ∷ es)
    → c.headers ≡ true
    → seen (send_all ((render_headers (e ∷ es) (crlf []) ++ body) ∷ reads) c r) ≡ (
      body ++ flatten reads,
      record c { headers = false },
      (set_response_headers (e ∷ es) r).response_headers,
    )
unfolding before
send_all-render e es body reads c r h w =
    let d = to_send (render_headers (e ∷ es) (crlf []) ++ body) c r in
    let f = to_send-render e es body c r h w in
    ap (behind (bytes_of d.0)) (send_all-data reads d.1 d.2 (ap (λ s. s.1.headers) f))
    ∙ ap (λ s. before reads (s.0, s.1, s.2)) f

abbrev pub HasEnd : Bytes → Type 0
HasEnd got = (pre : Bytes) × (rest : Bytes) × (got ≡ (pre ++ crlf (crlf [])) ++ rest)

scan-unfinished : (got : Bytes) → ¬ HasEnd got → (sep : ℕ) × (scan 0 got ≡ unfinished sep)
scan-unfinished got h = elim (Scan-cases (scan 0 got)) [
  | inl (head, (rest, e)) ↦
      let f = scan-ended got e in absurd (h (f.1.0, rest, f.0 ∙ ap (λ t. t ++ rest) f.1.1))
  | inr f ↦ f
]
  where
    Scan-cases :
        (s : Scan)
        → ((head : Bytes) × ((rest : Bytes) × (s ≡ ended head rest)))
          ⊎ ((sep : ℕ) × (s ≡ unfinished sep))
    Scan-cases (ended head rest) = inl (head, (rest, refl))
    Scan-cases (unfinished sep) = inr (sep, refl)

to_send-lost :
    (got : Bytes) (c : Cgi) (r : Request)
    → ¬ HasEnd got
    → c.headers ≡ true
    → shown (to_send got c r) ≡ ([], c, r.response_headers)
unfolding to_send allocate release extract_headers
to_send-lost [] c r h w = refl
to_send-lost (b ∷ bs) c r h w = simp w (
    ap
      (λ s.
        (let d = extract_from s c (allocate (b ∷ bs) r).1 in
          (bytes_of d.0, d.1, d.2.response_headers)))
      (scan-unfinished (b ∷ bs) h).1)

-- While no read of the program holds an empty line within itself, everything that it writes is dropped:
-- the client gets no byte, the response gains no header, and the module goes on waiting for headers.
pub send_all-lost :
    (reads : List Bytes) (c : Cgi) (r : Request)
    → All (λ got. ¬ HasEnd got) reads
    → c.headers ≡ true
    → seen (send_all reads c r) ≡ ([], c, r.response_headers)
send_all-lost [] c r h w = refl
send_all-lost (got ∷ reads) c r h w =
    let d = to_send got c r in
    let e = to_send-lost got c r h.0 w in
    ap (behind (bytes_of d.0)) (send_all-lost reads d.1 d.2 h.1 (ap (λ s. s.1.headers) e ∙ w))
    ∙ ap (λ s. (s.0 ++ [], s.1, s.2)) e
