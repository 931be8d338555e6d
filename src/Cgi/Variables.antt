-- ===== src/Cgi/Variables.antt =====
-- modules/cgi/CGI.cpp: the variables of a program's environment that headers can not change.
use zhttpd.Base.{
  ℕ, false, Bytes, codes, eq_bytes, eq_bytes_iff, List, [], ◌∷◌, ◌++◌, some, if◌then◌else◌, map,
  ◌≡◌, ◌≢◌, refl, ap, ◌∙◌, arith, Bool-cases, inl, inr, ◌⊎◌, All,
}
use zhttpd.Api.{HttpMethod}
use zhttpd.Headers.{HeaderMap, insert, lookup, lookup-insert, get_header, keys}
use zhttpd.Request.{Request}
use zhttpd.Parser.Lines.{Lacks}
use zhttpd.Cgi.{c_str}
use zhttpd.Cgi.Lines.{c_str-Lacks}
use zhttpd.Cgi.Environment.{
  variable_byte, variable_name, set_variable, copy_headers, uri_path, behind_path, behind_mark,
  ends_path, set_method, fill_environment, environment,
}

-- A name that is no variable of a header.
abbrev pub IsOwn : Bytes → Type 0
IsOwn name =
    ((k : Bytes) → name ≢ codes "HTTP_" ++ k)
    × (name ≢ codes "CONTENT_LENGTH")
    × (name ≢ codes "CONTENT_TYPE")

variable_name-cases :
    (key : Bytes)
    → (variable_name key ≡ codes "CONTENT_LENGTH")
      ⊎ ((variable_name key ≡ codes "CONTENT_TYPE")
          ⊎ ((k : Bytes) × (variable_name key ≡ codes "HTTP_" ++ k)))
unfolding variable_name
variable_name-cases key =
    let name = map variable_byte key in
    elim (Bool-cases (eq_bytes name (codes "CONTENT_LENGTH"))) [
      | inl e ↦ inl (simp e ((eq_bytes_iff name (codes "CONTENT_LENGTH")).0 e))
      | inr e ↦ elim (Bool-cases (eq_bytes name (codes "CONTENT_TYPE"))) [
        | inl f ↦ inr (inl (simp (e, f) ((eq_bytes_iff name (codes "CONTENT_TYPE")).0 f)))
        | inr f ↦ inr (inr (name, simp (e, f) refl))
      ]
    ]

variable_name-IsOwn :
    (name key : Bytes)
    → IsOwn name
    → (name ≢ variable_name key) × (name ≢ c_str (variable_name key))
variable_name-IsOwn name key own = elim (variable_name-cases key) [
  | inl e ↦ ((λ h. own.1 (h ∙ e)), λ h. own.1 (h ∙ ap c_str e))
  | inr (inl e) ↦ ((λ h. own.2 (h ∙ e)), λ h. own.2 (h ∙ ap c_str e))
  | inr (inr (k, e)) ↦ ((λ h. own.0 k (h ∙ e)), λ h. own.0 (c_str k) (h ∙ ap c_str e))
]

lookup-insert_other :
    (name key val : Bytes) (env : HeaderMap)
    → name ≢ key
    → lookup name (insert key val env) ≡ lookup name env
lookup-insert_other name key val env h =
    ground (arith, lookup-insert key name val env, eq_bytes_iff name key)

-- Whatever headers a request has, they leave alone every variable that does not start with `HTTP_` and
-- is neither `CONTENT_LENGTH` nor `CONTENT_TYPE`.
pub copy_headers-IsOwn :
    (name : Bytes) (names : List Bytes) (headers env : HeaderMap)
    → IsOwn name
    → lookup name (copy_headers names headers env) ≡ lookup name env
unfolding copy_headers set_variable
copy_headers-IsOwn name [] headers env own = refl
copy_headers-IsOwn name (key ∷ names) headers env own =
    let value = (get_header key headers).0 in
    let var = variable_name key in
    let other = variable_name-IsOwn name key own in
    copy_headers-IsOwn name names headers (set_variable var value (insert var value env)) own
    ∙ lookup-insert_other name (c_str var) (c_str value) (insert var value env) other.1
    ∙ lookup-insert_other name var value env other.0

lookup-set_variable :
    (name key val : Bytes) (env : HeaderMap)
    → lookup name (set_variable key val env)
      ≡ (if eq_bytes name (c_str key) then some (c_str val) else lookup name env)
unfolding set_variable
lookup-set_variable name key val env = lookup-insert (c_str key) name (c_str val) env

lookup-set_method :
    (method : HttpMethod) (env : HeaderMap)
    → lookup (codes "SCRIPT_NAME") (set_method method env) ≡ lookup (codes "SCRIPT_NAME") env
unfolding eq_bytes
lookup-set_method HttpMethod.get env =
    lookup-set_variable (codes "SCRIPT_NAME") (codes "REQUEST_METHOD") (codes "GET") env
lookup-set_method HttpMethod.post env =
    lookup-set_variable (codes "SCRIPT_NAME") (codes "REQUEST_METHOD") (codes "POST") env
lookup-set_method _ env = refl

fill_environment_lem :
    (port : Bytes) (r : Request) (env : HeaderMap)
    → (lookup (codes "SCRIPT_NAME") (fill_environment port r env) ≡ some (c_str (uri_path r.query)))
      × (lookup (codes "QUERY_STRING") (fill_environment port r env)
          ≡ some (c_str (behind_mark (behind_path r.query))))
unfolding fill_environment eq_bytes
fill_environment_lem port r env =
    let sn = codes "SCRIPT_NAME" in
    let uri = r.query in
    let e₁ = set_variable (codes "GATEWAY_INTERAFCE") (codes "CGI/1.1") env in
    let e₂ = set_variable (codes "REQUEST_URI") uri e₁ in
    let e₃ = set_variable (codes "SCRIPT_NAME") (uri_path uri) e₂ in
    let e₄ = set_variable (codes "SCRIPT_FILENAME") r.file_path e₃ in
    let e₅ = set_variable (codes "SERVER_SOFTWARE") (codes "ZHTTPD HTTPD") e₄ in
    let e₆ = set_variable (codes "SERVER_NAME") (codes "zhttpd/0.1") e₅ in
    let e₇ = set_variable (codes "SERVER_PROTOCOL") (codes "HTTP/1.1") e₆ in
    let e₈ = set_variable (codes "PATH_TRANSLATED") r.file_path e₇ in
    let e₉ = set_variable (codes "SERVER_PORT") port e₈ in
    let e₁₀ = set_variable (codes "REDIRECT_STATUS") (codes "200") e₉ in
    let e₁₁ = set_method r.method e₁₀ in
    (
      lookup-set_variable sn (codes "QUERY_STRING") (behind_mark (behind_path uri)) e₁₁
          ∙ lookup-set_method r.method e₁₀
          ∙ lookup-set_variable sn (codes "REDIRECT_STATUS") (codes "200") e₉
          ∙ lookup-set_variable sn (codes "SERVER_PORT") port e₈
          ∙ lookup-set_variable sn (codes "PATH_TRANSLATED") r.file_path e₇
          ∙ lookup-set_variable sn (codes "SERVER_PROTOCOL") (codes "HTTP/1.1") e₆
          ∙ lookup-set_variable sn (codes "SERVER_NAME") (codes "zhttpd/0.1") e₅
          ∙ lookup-set_variable sn (codes "SERVER_SOFTWARE") (codes "ZHTTPD HTTPD") e₄
          ∙ lookup-set_variable sn (codes "SCRIPT_FILENAME") r.file_path e₃
          ∙ lookup-set_variable sn (codes "SCRIPT_NAME") (uri_path uri) e₂,
      lookup-set_variable (codes "QUERY_STRING") (codes "QUERY_STRING")
          (behind_mark (behind_path uri)) e₁₁,
    )

ends_at_mark :
    (path query : Bytes)
    → All (λ c. ends_path c ≡ false) path
    → (uri_path (path ++ b'?' ∷ query) ≡ path) × (behind_path (path ++ b'?' ∷ query) ≡ b'?' ∷ query)
unfolding uri_path behind_path
ends_at_mark [] query h = (refl, refl)
ends_at_mark (c ∷ path) query h =
    let (e, f) = ends_at_mark path query h.1 in (ground (arith, e, h.0), ground (arith, f, h.0))

c_str-path : (path : Bytes) → All (λ c. ends_path c ≡ false) path → c_str path ≡ path
c_str-path [] h = refl
c_str-path (c ∷ path) h = ground (arith, c_str-path path h.1, h.0)

pub IsOwn-first : (c : ℕ) (cs : Bytes) → c ≢ b'H' → c ≢ b'C' → IsOwn (c ∷ cs)
IsOwn-first c cs h g = ((λ k e. h (ap first e)), (λ e. g (ap first e)), λ e. g (ap first e))
  where
    first : Bytes → ℕ
    first [] = 0
    first (x ∷ xs) = x

-- For a request of a path without null bytes, `?` and `#` and a query without null bytes, a program is
-- given just the path as `SCRIPT_NAME` and just the query as `QUERY_STRING`, whatever headers come with
-- the request.
pub environment-uri :
    (port path query : Bytes) (r : Request)
    → r.query ≡ path ++ b'?' ∷ query
    → All (λ c. ends_path c ≡ false) path
    → Lacks 0 query
    → (lookup (codes "SCRIPT_NAME") (environment port r) ≡ some path)
      × (lookup (codes "QUERY_STRING") (environment port r) ≡ some query)
unfolding environment
environment-uri port path query r e h g =
    let filled = fill_environment_lem port r [] in
    let (p, q) = ends_at_mark path query h in
    let hs = r.request_headers in
    (
      copy_headers-IsOwn (codes "SCRIPT_NAME") (keys hs) hs (fill_environment port r [])
            (IsOwn-first _ _ (omega arith) (omega arith))
          ∙ filled.0
          ∙ ap (λ t. some (c_str (uri_path t))) e
          ∙ ap (λ t. some (c_str t)) p
          ∙ ap some (c_str-path path h),
      copy_headers-IsOwn (codes "QUERY_STRING") (keys hs) hs (fill_environment port r [])
            (IsOwn-first _ _ (omega arith) (omega arith))
          ∙ filled.1
          ∙ ap (λ t. some (c_str (behind_mark (behind_path t)))) e
          ∙ ap (λ t. some (c_str (behind_mark t))) q
          ∙ ap some (c_str-Lacks query g),
    )
