-- ===== src/Cgi/Environment.antt =====
-- modules/cgi/Environment.cpp, and `_fillEnvironment` of modules/cgi/CGI.cpp: what a program finds in its
-- environment.
use zhttpd.Base.{
  ℕ, ◌-◌, Bool, ◌&&◌, ◌||◌, Bytes, codes, eq_bytes, List, [], ◌∷◌, ◌++◌, map, ◌==◌, leb,
  if◌then◌else◌,
}
use zhttpd.Api.{HttpMethod}
use zhttpd.Headers.{HeaderMap, insert, get_header, keys}
use zhttpd.Request.{Request}
use zhttpd.Cgi.{c_str}

-- `toupper` of the byte that `std::replace` leaves.
abbrev pub to_upper : ℕ → ℕ
to_upper c = if leb b'a' c && leb c b'z' then c - 32 else c

abbrev pub dash_replaced : ℕ → ℕ
dash_replaced c = if c == b'-' then b'_' else c

abbrev pub variable_byte : ℕ → ℕ
variable_byte c = to_upper (dash_replaced c)

-- The name of the variable for a header.
unfoldable pub variable_name : Bytes → Bytes
unfolding eq_bytes
variable_name key =
    let name = map variable_byte key in
    if eq_bytes name (codes "CONTENT_LENGTH") || eq_bytes name (codes "CONTENT_TYPE")
    then name
    else codes "HTTP_" ++ name

-- `setEnvironmentVariable`.
unfoldable pub set_variable : Bytes → Bytes → HeaderMap → HeaderMap
unfolding insert
set_variable key val env = insert (c_str key) (c_str val) env

-- The loop of `copyHeadersToEnvironment`, over the names of the headers.
unfoldable pub copy_headers : List Bytes → HeaderMap → HeaderMap → HeaderMap
unfolding variable_name set_variable insert get_header
copy_headers [] headers env = env
copy_headers (key ∷ names) headers env =
    let value = (get_header key headers).0 in
    let name = variable_name key in
    copy_headers names headers (set_variable name value (insert name value env))

-- `path` of `_fillEnvironment`, and what is behind it.
abbrev pub ends_path : ℕ → Bool
ends_path c = (c == 0) || (c == b'?') || (c == b'#')

unfoldable pub uri_path : Bytes → Bytes
uri_path [] = []
uri_path (c ∷ cs) = if ends_path c then [] else c ∷ uri_path cs

unfoldable pub behind_path : Bytes → Bytes
behind_path [] = []
behind_path (c ∷ cs) = if ends_path c then c ∷ cs else behind_path cs

-- The text at `query_pos`.
abbrev pub behind_mark : Bytes → Bytes
behind_mark [] = []
behind_mark (c ∷ cs) = if c == b'?' then cs else c ∷ cs

-- `REQUEST_METHOD`, which only these methods have.
abbrev pub set_method : HttpMethod → HeaderMap → HeaderMap
set_method HttpMethod.get env = set_variable (codes "REQUEST_METHOD") (codes "GET") env
set_method HttpMethod.post env = set_variable (codes "REQUEST_METHOD") (codes "POST") env
set_method _ env = env

-- `_fillEnvironment`, for the port as text.
unfoldable pub fill_environment : Bytes → Request → HeaderMap → HeaderMap
unfolding set_variable uri_path behind_path
fill_environment port r env =
    let uri = r.query in
    let e₁ = set_variable (codes "GATEWAY_INTERAFCE") (codes "CGI/1.1") env in
    let e₂ = set_variable (codes "REQUEST_URI") uri e₁ in
    let e₃ = set_variable (codes "SCRIPT_NAME") (uri_path uri) e₂ in
    let e₄ = set_variable (codes "SCRIPT_FILENAME") r.file_path e₃ in
    let e₅ = set_variable (codes "SERVER_SOFTWARE") (codes "ZHTTPD HTTPD") e₄ in
    let e₆ = set_variable (codes "SERVER_NAME") (codes "zhttpd/0.1") e₅ in
    let e₇ = set_variable (codes "SERVER_PROTOCOL") (codes "HTTP/1.1") e₆ in
    let e₈ = set_variable (codes "PATH_TRANSLATED") r.file_path e₇ in
    let e₉ = set_variable (codes "SERVER_PORT") port e₈ in
    let e₁₀ = set_variable (codes "REDIRECT_STATUS") (codes "200") e₉ in
    let e₁₁ = set_method r.method e₁₀ in
    set_variable (codes "QUERY_STRING") (behind_mark (behind_path uri)) e₁₁

-- The environment that `_initialize` makes.
unfoldable pub environment : Bytes → Request → HeaderMap
unfolding fill_environment copy_headers keys
environment port r =
    copy_headers (keys r.request_headers) r.request_headers (fill_environment port r [])

-- `_fillEnvironment` of Environment.cpp: the strings that the program is given.
unfoldable pub environment_array : HeaderMap → List Bytes
environment_array = map (λ e. c_str (e.0 ++ b'=' ∷ e.1))
