-- ===== src/HttpResponse.antt =====
-- shared/include/http_response.h and shared/src/http_response.cpp: an HTTP response, its setters,
-- its text and its parser. The getters of the class are the fields of the record.
pub mod RoundTrip
pub mod Outcomes
pub mod Fields
pub mod Accepted
pub mod Grammar
pub mod Refused
pub mod Classified
pub mod Built
use pine_http.Prelude.{ℕ, [], ◌∷◌, ◌++◌, none, some, ltb, if◌then◌else◌, length}
use pine_http.Text.{Bytes, codes, to_decimal}
use pine_http.OrderedMap.{insert_or_assign, erase, lookup}
use pine_http.Http.{HttpStatus, ok, HttpVersion, http_1_1, status_text, version_string, crlf}
use pine_http.Http.Scan.{Scanner, got, Outcome, outcome, ◌>>=◌, ◌>>◌, advance, pure}
use pine_http.Http.Utils.{HeaderMap, try_get_body, try_get_headers, try_get_status, try_get_version}
use pine_http.Http.Print.{header_lines}

-- `class http_response`
pub record HttpResponse : Type 0 where
  pub body : Bytes
  pub headers : HeaderMap
  pub status : HttpStatus
  pub version : HttpVersion

-- `http_response()`
abbrev pub empty_response : HttpResponse
empty_response = record { body = []; headers = []; status = ok; version = http_1_1 }

-- `get_header(name)`: the empty text where there is no such header.
unfoldable pub get_header : HttpResponse → Bytes → Bytes
get_header r name = elim (lookup name r.headers) [ none ↦ [] | some value ↦ value ]

-- "Content-Length"
abbrev pub content_length : Bytes
content_length = codes "Content-Length"

-- The headers after `set_body(value)`.
unfoldable pub length_header : Bytes → HeaderMap → HeaderMap
length_header [] headers = erase content_length headers
length_header (c ∷ cs) headers =
    insert_or_assign content_length (to_decimal (length (c ∷ cs))) headers

unfoldable pub set_body : HttpResponse → Bytes → HttpResponse
unfolding length_header
set_body r value = record r { body = value; headers = length_header value r.headers }

unfoldable pub set_header : HttpResponse → Bytes → Bytes → HttpResponse
set_header r name value = record r { headers = insert_or_assign name value r.headers }

unfoldable pub set_status : HttpResponse → HttpStatus → HttpResponse
set_status r value = record r { status = value }

unfoldable pub set_version : HttpResponse → HttpVersion → HttpResponse
set_version r value = record r { version = value }

-- `to_string()`
unfoldable pub to_string : HttpResponse → Bytes
to_string r =
    version_string r.version
    ++ (b' ' ∷ (status_text r.status ++ (crlf ++ (header_lines r.headers ++ (crlf ++ r.body)))))

-- `if (offset < response.size())`, and the body is read; otherwise it stays empty.
unfoldable pub rest_as_body : Bytes → Scanner Bytes
rest_as_body response offset =
    if ltb offset (length response) then try_get_body response offset else got [] offset

-- `parse(response)`, as a function of the offset, which starts at 0.
unfoldable pub scan_response : Bytes → Scanner HttpResponse
unfolding rest_as_body
scan_response response = do
  v ← try_get_version response
  advance 1
  s ← try_get_status response
  advance (length crlf)
  h ← try_get_headers response
  b ← rest_as_body response
  pure (record { body = b; headers = h; status = s; version = v })

unfoldable pub parse : Bytes → Outcome HttpResponse
unfolding scan_response
parse response = outcome (scan_response response 0)
