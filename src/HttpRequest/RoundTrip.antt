-- ===== src/HttpRequest/RoundTrip.antt =====
-- A request that is written and parsed again comes back whole.
use pine_http.Prelude.{
  refl, ℕ, ◌+◌, ◌^◌, ◌<◌, ◌≡◌, [], ◌∷◌, ◌++◌, arith, ap, sym, subst, ◌∙◌, length, All,
}
use pine_http.Text.{Bytes}
use pine_http.Text.Find.{Free}
use pine_http.Text.Cursor.{At, At-start, At-skip, At-substr_from, At-length}
use pine_http.OrderedMap.{lookup, IsSorted}
use pine_http.OrderedMap.Entered.{
  entered, last_value, lookup-entered, entered-IsSorted, entered-append,
}
use pine_http.Http.{HttpMethod, HttpVersion, method_string, version_string, crlf}
use pine_http.Http.Scan.{got, outcome, value}
use pine_http.Http.Utils.{HeaderMap, try_get_body}
use pine_http.Http.Print.{header_lines}
use pine_http.Http.Tokens.{try_get_method-print, try_get_version-print, try_get_uri-print}
use pine_http.Http.Headers.{IsHeader, try_get_headers-entered}
use pine_http.HttpRequest.{HttpRequest, make_request, to_string, rest_as_body, scan_request, parse}

-- A request that its text can stand for.
pub record IsWritable (r : HttpRequest) : Type 0 where
  pub path : Bytes
  pub uri_is : r.uri ≡ b'/' ∷ path
  pub no_space : Free b' ' path
  pub headers_ok : All IsHeader r.headers
  pub sorted : IsSorted r.headers
  pub fits : length (to_string r) < 2 ^ 64

-- Whatever is left is the body, nothing included.
pub rest_as_body_lem :
    (rest : Bytes) {text : Bytes} {o : ℕ}
    → At text rest o
    → rest_as_body text o ≡ got rest (length text)
unfolding rest_as_body try_get_body
rest_as_body_lem [] p = ground (arith, At-length p)
rest_as_body_lem (c ∷ rest) p = ground (arith, At-length p, At-substr_from p)

-- The text of a request with these header lines, in any order.
abbrev pub request_text : HttpMethod → Bytes → HttpVersion → HeaderMap → Bytes → Bytes
request_text m uri v lines b =
    method_string m
    ++ (b' '
        ∷ (uri ++ (b' ' ∷ (version_string v ++ (crlf ++ (header_lines lines ++ (crlf ++ b)))))))

scan_request-lines :
    (m : HttpMethod) (path : Bytes) (v : HttpVersion) (h : HeaderMap) (b : Bytes) {text : Bytes}
    → Free b' ' path
    → All IsHeader h
    → length text < 2 ^ 64
    → At text (request_text m (b'/' ∷ path) v h b) 0
    → scan_request text 0 ≡ got (make_request m (b'/' ∷ path) v (entered h []) b) (length text)
unfolding scan_request
scan_request-lines m path v h b {text} free ok fits at_method = rw (
  try_get_method-print m _ at_method,
  try_get_uri-print path _ free fits at_uri,
  try_get_version-print v _ at_version,
  try_get_headers-entered h b ok fits at_headers,
  rest_as_body_lem b at_body,
)
  where
    uri_at : ℕ
    uri_at = 0 + length (method_string m) + 1

    version_at : ℕ
    version_at = uri_at + length (b'/' ∷ path) + 1

    headers_at : ℕ
    headers_at = version_at + length (version_string v) + 2

    at_uri :
        At text
          ((b'/' ∷ path)
            ++ (b' ' ∷ (version_string v ++ (crlf ++ (header_lines h ++ (crlf ++ b))))))
          uri_at
    at_uri = At-skip (b' ' ∷ []) (At-skip (method_string m) at_method)

    at_version : At text (version_string v ++ (crlf ++ (header_lines h ++ (crlf ++ b)))) version_at
    at_version = At-skip (b' ' ∷ []) (At-skip (b'/' ∷ path) at_uri)

    at_headers : At text (header_lines h ++ (crlf ++ b)) headers_at
    at_headers = At-skip crlf (At-skip (version_string v) at_version)

    at_body : At text b (headers_at + length (header_lines h) + 2)
    at_body = At-skip crlf (At-skip (header_lines h) at_headers)

-- Of a text that is a method, a URI of a slash and bytes other than spaces, a version, header lines in
-- any order and with any repetitions, an empty line and a body, below 2 ^ 64 bytes, where no header
-- name holds a colon and neither names nor values hold a line end (a carriage return followed by a
-- line feed): parsing it gives a request with this method, URI, version and body. Its headers have
-- for each name the value of the last line with this name, and nothing if there is no such line; and
-- their keys ascend.
request-parse-lines :
    (m : HttpMethod) (path : Bytes) (v : HttpVersion) (lines : HeaderMap) (b : Bytes)
    → Free b' ' path
    → All IsHeader lines
    → length (request_text m (b'/' ∷ path) v lines b) < 2 ^ 64
    → (r : HttpRequest) × (parse (request_text m (b'/' ∷ path) v lines b) ≡ value r)
      × ((r.method ≡ m) × (r.uri ≡ b'/' ∷ path) × (r.version ≡ v) × (r.body ≡ b))
      × ((name : Bytes) → lookup name r.headers ≡ last_value name lines)
      × IsSorted r.headers
unfolding parse make_request
request-parse-lines m path v lines b free ok fits = (
  make_request m (b'/' ∷ path) v (entered lines []) b,
  ap outcome (scan_request-lines m path v lines b free ok fits (At-start _)),
  (refl, refl, refl, refl),
  λ name. lookup-entered name lines,
  entered-IsSorted lines [] tt,
)

-- Of a request whose URI is a slash and bytes other than spaces, whose header names hold no colon,
-- whose header names and values hold no line end (a carriage return followed by a line feed), whose
-- header keys ascend and whose text is below 2 ^ 64 bytes: parsing its text gives the request again, with its method, URI, version,
-- headers and body.
pub request-parse-to_string : (r : HttpRequest) → IsWritable r → parse (to_string r) ≡ value r
unfolding parse to_string make_request
request-parse-to_string r w =
    ap outcome (
      scan_request-lines r.method w.path r.version r.headers r.body w.no_space w.headers_ok w.fits (
        subst (λ u. At (to_string r) (request_text r.method u r.version r.headers r.body) 0)
          w.uri_is (At-start (to_string r))))
    ∙ ap (λ h. value (record r { uri = b'/' ∷ w.path; headers = h }))
        (entered-append r.headers [] w.sorted tt)
    ∙ ap (λ u. value (record r { uri = u })) (sym w.uri_is)
