-- ===== src/HttpRequest.antt =====
-- shared/include/http_request.h and shared/src/http_request.cpp: an HTTP request, its setters, its
-- text and its parser. The getters of the class are the fields of the record.
pub mod RoundTrip
pub mod Outcomes
pub mod Fields
pub mod Accepted
pub mod Grammar
pub mod Refused
pub mod Classified
pub mod Built
use pine_http.Prelude.{ℕ, suc, [], ◌∷◌, ◌++◌, none, some, ltb, if◌then◌else◌, length}
use pine_http.Text.{Bytes, codes, to_decimal}
use pine_http.OrderedMap.{insert_or_assign, erase, lookup}
use pine_http.Http.{HttpMethod, get, HttpVersion, http_1_1, method_string, version_string, crlf}
use pine_http.Http.Scan.{Scanner, got, Outcome, outcome, ◌>>=◌, ◌>>◌, advance, pure}
use pine_http.Http.Utils.{
  HeaderMap, try_get_body, try_get_headers, try_get_method, try_get_uri, try_get_version,
}
use pine_http.Http.Print.{header_lines}

-- `class http_request`
pub record HttpRequest : Type 0 where
  pub method : HttpMethod
  pub uri : Bytes
  pub version : HttpVersion
  pub headers : HeaderMap
  pub body : Bytes

-- `http_request()`
abbrev pub empty_request : HttpRequest
empty_request = record { method = get; uri = []; version = http_1_1; headers = []; body = [] }

-- `http_request(method, uri, version, headers, body)`
unfoldable pub make_request : HttpMethod → Bytes → HttpVersion → HeaderMap → Bytes → HttpRequest
make_request m u v h b = record { method = m; uri = u; version = v; headers = h; body = b }

-- `get_header(name)`: the empty text where there is no such header.
unfoldable pub get_header : HttpRequest → Bytes → Bytes
get_header r name = elim (lookup name r.headers) [ none ↦ [] | some value ↦ value ]

-- "Content-Length"
abbrev pub content_length : Bytes
content_length = codes "Content-Length"

-- The headers after `set_body(value)`.
unfoldable pub length_header : Bytes → HeaderMap → HeaderMap
length_header [] headers = erase content_length headers
length_header (c ∷ cs) headers =
    insert_or_assign content_length (to_decimal (length (c ∷ cs))) headers

unfoldable pub set_body : HttpRequest → Bytes → HttpRequest
unfolding length_header
set_body r value = record r { body = value; headers = length_header value r.headers }

unfoldable pub set_header : HttpRequest → Bytes → Bytes → HttpRequest
set_header r name value = record r { headers = insert_or_assign name value r.headers }

unfoldable pub set_method : HttpRequest → HttpMethod → HttpRequest
set_method r value = record r { method = value }

unfoldable pub set_uri : HttpRequest → Bytes → HttpRequest
set_uri r value = record r { uri = value }

unfoldable pub set_version : HttpRequest → HttpVersion → HttpRequest
set_version r value = record r { version = value }

-- `to_string()`
unfoldable pub to_string : HttpRequest → Bytes
to_string r =
    method_string r.method
    ++ (b' '
        ∷ (r.uri
            ++ (b' '
                ∷ (version_string r.version
                    ++ (crlf ++ (header_lines r.headers ++ (crlf ++ r.body)))))))

-- `if (offset < request.size())`, and the body is read; otherwise it stays empty.
unfoldable pub rest_as_body : Bytes → Scanner Bytes
rest_as_body request offset =
    if ltb offset (length request) then try_get_body request offset else got [] offset

-- `parse(request)`, as a function of the offset, which starts at 0.
unfoldable pub scan_request : Bytes → Scanner HttpRequest
unfolding rest_as_body
scan_request request = do
  m ← try_get_method request
  advance 1
  u ← try_get_uri request
  advance 1
  v ← try_get_version request
  advance (length crlf)
  h ← try_get_headers request
  b ← rest_as_body request
  pure (make_request m u v h b)

unfoldable pub parse : Bytes → Outcome HttpRequest
unfolding scan_request
parse request = outcome (scan_request request 0)
