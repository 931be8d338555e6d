-- ===== src/Parser/Buffers.antt =====
-- server/modules/Parser/Parser.cpp: what the parser does with the buffers of a head.
use zhttpd.Base.{
  ℕ, Bytes, List, [], ◌∷◌, ◌++◌, ◌≡◌, refl, sym, ap, ◌∙◌, ◌==◌, ◌&&◌, Bool-cases, inl, inr,
}
use zhttpd.Api.{Buffer, contents}
use zhttpd.Request.{Request, release, set_request_header}
use zhttpd.Parser.Head.{
  LineState, at_start, parse_byte, parse_bytes, parse_buffers, parse_line, parse_method, get_method,
}
use zhttpd.Parser.Lines.{Head, IsHead, render, set_headers, parse_bytes-render}
use zhttpd.Parser.{release_all}

abbrev release_behind : Buffer → LineState × Request → LineState × Request
release_behind b (st, r) = (st, release b r)

parse_line-release :
    (l : Bytes) (b : Buffer) (r : Request) → parse_line l (release b r) ≡ release b (parse_line l r)
unfolding parse_line release set_request_header
parse_line-release [] b r = refl
parse_line-release (c ∷ l) b r = refl

parse_method-release :
    (l : Bytes) (b : Buffer) (r : Request)
    → parse_method l (release b r) ≡ release b (parse_method l r)
unfolding parse_method release
parse_method-release l b r = refl

parse_byte-release :
    (c : ℕ) (b : Buffer) (st : LineState) (r : Request)
    → parse_byte c (st, release b r) ≡ release_behind b (parse_byte c (st, r))
unfolding parse_byte
parse_byte-release c b st r = elim (Bool-cases (c == b'\r')) [
  | inl e ↦ simp e refl
  | inr e ↦ elim (Bool-cases (c == b'\n' && st.carriage_return)) [
    | inr f ↦ simp (e, f) refl
    | inl f ↦ elim (Bool-cases st.method_parsed) [
      | inl g ↦ simp (e, f, g) (rw (parse_line-release st.line b r))
      | inr g ↦ simp (e, f, g) (rw (parse_method-release st.line b r))
    ]
  ]
]

parse_bytes-append :
    (xs ys : Bytes) (s : LineState × Request)
    → parse_bytes (xs ++ ys) s ≡ parse_bytes ys (parse_bytes xs s)
unfolding parse_bytes
parse_bytes-append [] ys s = refl
parse_bytes-append (c ∷ xs) ys s = parse_bytes-append xs ys (parse_byte c s)

parse_bytes-release :
    (xs : Bytes) (b : Buffer) (s : LineState × Request)
    → parse_bytes xs (release_behind b s) ≡ release_behind b (parse_bytes xs s)
unfolding parse_bytes
parse_bytes-release [] b (st, r) = refl
parse_bytes-release (c ∷ xs) b (st, r) =
    ap (parse_bytes xs) (parse_byte-release c b st r)
    ∙ parse_bytes-release xs b (parse_byte c (st, r))

abbrev release_all_behind : List Buffer → LineState × Request → Request
release_all_behind bs (st, r) = release_all bs r

-- Parsing the buffers one by one, each given back behind its last byte, is parsing what they hold
-- together and giving them all back, in order and each once.
pub parse_buffers-contents :
    (st : LineState) (bs : List Buffer) (r : Request)
    → parse_buffers st bs r ≡ release_all bs (parse_bytes (contents bs) (st, r)).1
unfolding parse_buffers release_all
parse_buffers-contents st [] r = unfold parse_bytes in refl
parse_buffers-contents st (b ∷ bs) r =
    let s = parse_bytes b.bytes (st, r) in
    parse_buffers-contents s.0 bs (release b s.1)
    ∙ ap (λ (t : LineState × Request). release_all bs t.1)
        (parse_bytes-release (contents bs) b s
          ∙ ap (release_behind b) (sym (parse_bytes-append b.bytes (contents bs) (st, r))))

-- However a head is cut into buffers, the request gets its method, its path and its headers, and
-- each buffer is given back once.
pub parse_buffers-render :
    (h : Head) (bs : List Buffer) (r : Request)
    → IsHead h
    → contents bs ≡ render h
    → parse_buffers at_start bs r
      ≡ release_all bs
          (set_headers h.headers (record r { method = get_method h.method; query = h.path }))
parse_buffers-render h bs r v e =
    parse_buffers-contents at_start bs r
    ∙ rw e (ap (λ (t : LineState × Request). release_all bs t.1) (parse_bytes-render h r v))
