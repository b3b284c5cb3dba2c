-- ===== src/Http/Tokens.antt =====
-- The parsers of methods, status codes, versions and URIs read back what is printed.
use pine_http.Prelude.{
  ℕ, ◌+◌, ◌^◌, ◌<◌, ◌≡◌, refl, List, [], ◌∷◌, ◌++◌, arith, length, if◌then◌else◌, length-append,
}
use pine_http.Text.{Bytes, starts_with}
use pine_http.Text.Find.{Free}
use pine_http.Text.Cursor.{At, At-substr_from, At-substr, At-at, At-find-Free, At-length}
use pine_http.Errors.{
  Error, make_error_code, parse_error_method, parse_error_version, parse_error_status,
}
use pine_http.Http.{
  HttpMethod, get, head, post, HttpStatus, ok, bad_request, not_found, internal_server_error,
  HttpVersion, http_1_1, method_string, status_text, version_string, http_method_strings,
  http_version_strings, http_status_strings,
}
use pine_http.Http.Scan.{Scan, got, failed}
use pine_http.Http.Utils.{
  sub64, try_get_token, try_get_method, try_get_status, try_get_version, uri_to, try_get_uri,
}

-- The first entry of the table with which the text starts.
abbrev pick : {A : Type 0} → List (A × Bytes) → Error → Bytes → ℕ → Scan A
pick [] e rest offset = failed (make_error_code e) offset
pick ((a, text) ∷ table) e rest offset =
    if starts_with text rest then got a (offset + length text) else pick table e rest offset

try_get_token-pick :
    {A : Type 0} (table : List (A × Bytes)) (e : Error) {text rest : Bytes} {o : ℕ}
    → At text rest o
    → try_get_token table e text o ≡ pick table e rest o
unfolding try_get_token
try_get_token-pick [] e p = refl
try_get_token-pick ((a, t) ∷ table) e p = rw (At-substr_from p, try_get_token-pick table e p)

pub try_get_method-print :
    (m : HttpMethod) {text : Bytes} (rest : Bytes) {o : ℕ}
    → At text (method_string m ++ rest) o
    → try_get_method text o ≡ got m (o + length (method_string m))
unfolding try_get_method method_string starts_with
try_get_method-print get rest p = try_get_token-pick http_method_strings parse_error_method p
try_get_method-print head rest p = try_get_token-pick http_method_strings parse_error_method p
try_get_method-print post rest p = try_get_token-pick http_method_strings parse_error_method p

pub try_get_version-print :
    (v : HttpVersion) {text : Bytes} (rest : Bytes) {o : ℕ}
    → At text (version_string v ++ rest) o
    → try_get_version text o ≡ got v (o + length (version_string v))
unfolding try_get_version version_string starts_with
try_get_version-print http_1_1 rest p =
    try_get_token-pick http_version_strings parse_error_version p

pub try_get_status-print :
    (s : HttpStatus) {text : Bytes} (rest : Bytes) {o : ℕ}
    → At text (status_text s ++ rest) o
    → try_get_status text o ≡ got s (o + length (status_text s))
unfolding try_get_status status_text starts_with
try_get_status-print ok rest p = try_get_token-pick http_status_strings parse_error_status p
try_get_status-print bad_request rest p =
    try_get_token-pick http_status_strings parse_error_status p
try_get_status-print not_found rest p = try_get_token-pick http_status_strings parse_error_status p
try_get_status-print internal_server_error rest p =
    try_get_token-pick http_status_strings parse_error_status p

pub sub64-add : (a n : ℕ) → n < 2 ^ 64 → sub64 (a + n) a ≡ n
sub64-add a n h = omega arith

-- A URI that starts with a slash and holds no space is read up to the space behind it.
pub try_get_uri-print :
    (path rest : Bytes) {text : Bytes} {o : ℕ}
    → Free b' ' path
    → length text < 2 ^ 64
    → At text ((b'/' ∷ path) ++ ((b' ' ∷ []) ++ rest)) o
    → try_get_uri text o ≡ got (b'/' ∷ path) (o + length (b'/' ∷ path))
unfolding try_get_uri
try_get_uri-print path rest {text} {o} free fits p = rw (
  At-at b'/' _ p,
  At-find-Free b' ' [] (b'/' ∷ path) rest (ground arith, free) p,
  uri_to,
  sub64-add o (length (b'/' ∷ path)) (omega (arith, At-length p, length-append path (b' ' ∷ rest))),
  At-substr (b'/' ∷ path) _ p,
)
