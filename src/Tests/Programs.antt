-- ===== src/Tests/Programs.antt =====
-- Programs and what they write, modules/cgi/CGI.cpp.
use Prim.{tt}
use zhttpd.Base.{
  true, false, Bytes, codes, [], ◌∷◌, ◌++◌, ◌≡◌, refl, arith, some, eq_bytes, lt_bytes,
}
use mathlib.Core.List.{flatten}
use mathlib.Core.Path.{subst}
use zhttpd.Headers.{insert, lookup}
use zhttpd.Request.{Request, set_response_header}
use zhttpd.Parser.Lines.{crlf, Lacks}
use zhttpd.Cgi.{Cgi, to_send}
use zhttpd.Cgi.Environment.{environment, copy_headers, fill_environment}
use zhttpd.Cgi.Variables.{IsOwn-first, environment-uri, copy_headers-IsOwn}
use zhttpd.Cgi.Sending.{HasEnd, seen, send_all, send_all-render, send_all-lost}
use zhttpd.Tests.Requests.{reading}

-- Waiting for headers, and behind them.
abbrev waiting : Cgi
waiting = record { started = true; end = false; headers = true }

abbrev sending : Cgi
sending = record { started = true; end = false; headers = false }

send_all-render_example :
    seen (send_all (codes "A: b\r\n\r\nhi" ∷ codes " you" ∷ []) waiting reading)
    ≡ (codes "hi you", sending, (codes "A", codes "b") ∷ [])
unfolding set_response_header flatten insert
send_all-render_example =
    send_all-render (codes "A", codes "b") [] (codes "hi") (codes " you" ∷ []) waiting reading
      (((omega arith, omega arith), omega arith, omega arith), tt) refl

Lacks-end : (pre rest : Bytes) → ¬ Lacks b'\r' ((pre ++ crlf (crlf [])) ++ rest)
Lacks-end [] rest h = h.0 refl
Lacks-end (c ∷ pre) rest h = Lacks-end pre rest h.1

Lacks-HasEnd : (got : Bytes) → Lacks b'\r' got → ¬ HasEnd got
Lacks-HasEnd got h (pre, rest, e) = Lacks-end pre rest (subst (Lacks b'\r') e h)

send_all-lost_example :
    seen (send_all (codes "A: b\n\nhi" ∷ codes " you" ∷ []) waiting reading) ≡ ([], waiting, [])
send_all-lost_example =
    send_all-lost (codes "A: b\n\nhi" ∷ codes " you" ∷ []) waiting reading
      (Lacks-HasEnd _ (omega arith), (Lacks-HasEnd _ (omega arith), tt)) refl

-- The empty line comes in two reads.
split_end_test :
    seen (send_all (codes "A: b\r\n" ∷ codes "\r\nhi" ∷ []) waiting reading) ≡ ([], waiting, [])
unfolding to_send
split_end_test = refl

-- A request with a query and a header.
abbrev with_query : Request
with_query = record reading {
  query = codes "/a?b=c";
  request_headers = (codes "Proxy", codes "evil") ∷ [];
}

environment-uri_example :
    (lookup (codes "SCRIPT_NAME") (environment (codes "80") with_query) ≡ some (codes "/a"))
    × (lookup (codes "QUERY_STRING") (environment (codes "80") with_query) ≡ some (codes "b=c"))
environment-uri_example =
    environment-uri (codes "80") (codes "/a") (codes "b=c") with_query refl (refl, (refl, tt))
      (omega arith)

copy_headers-IsOwn_example :
    lookup (codes "REQUEST_METHOD") (
      copy_headers
        (codes "Request_Method" ∷ [])
        ((codes "Request_Method", codes "PUT") ∷ [])
        ((codes "REQUEST_METHOD", codes "GET") ∷ []))
    ≡ some (codes "GET")
unfolding lookup eq_bytes
copy_headers-IsOwn_example =
    copy_headers-IsOwn (codes "REQUEST_METHOD") (codes "Request_Method" ∷ [])
      ((codes "Request_Method", codes "PUT") ∷ []) ((codes "REQUEST_METHOD", codes "GET") ∷ [])
      (IsOwn-first b'R' (codes "EQUEST_METHOD") (omega arith) (omega arith))

-- A header of the client becomes the variable by which programs choose a proxy.
proxy_test : lookup (codes "HTTP_PROXY") (environment (codes "80") with_query) ≡ some (codes "evil")
unfolding environment fill_environment lookup lt_bytes
proxy_test = refl
