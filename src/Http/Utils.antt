-- ===== src/Http/Utils.antt =====
-- shared/src/http.cpp, namespace pine::http_utils: the parsers of the parts of a message.
use pine_http.Prelude.{
  ℕ, zero, suc, ◌+◌, ◌-◌, ◌%◌, ◌^◌, List, [], ◌∷◌, Option, none, some, leb, ltb, ◌==◌,
  if◌then◌else◌, length,
}
use pine_http.Text.{Bytes, starts_with, find, substr, substr_from, at}
use pine_http.OrderedMap.{insert_or_assign}
use pine_http.Errors.{
  Error, make_error_code, parse_error_method, parse_error_uri, parse_error_version,
  parse_error_headers, parse_error_body, parse_error_status,
}
use pine_http.Http.{
  HttpMethod, HttpStatus, HttpVersion, http_method_strings, http_status_strings,
  http_version_strings, crlf,
}
use pine_http.Http.Scan.{Scan, Scanner, got, failed, out_of_fuel, next, or_throw}

-- The difference of two `size_t`, which wraps around.
abbrev pub sub64 : ℕ → ℕ → ℕ
sub64 a b = (a + 2 ^ 64 - b) % 2 ^ 64

abbrev pub HeaderMap : Type 0
HeaderMap = List (Bytes × Bytes)

unfoldable pub try_get_body : Bytes → Scanner Bytes
unfolding substr_from
try_get_body request offset =
    if leb (length request) offset
    then failed (make_error_code parse_error_body) offset
    else or_throw (substr_from request offset) (λ body. got body (length request))

-- The part of `try_get_header` behind its two searches, for the line end and for the colon.
unfoldable pub header_fields : Bytes → ℕ → Option ℕ → Option ℕ → Scan (Bytes × Bytes)
header_fields request start (some end) (some colon) =
    if ltb end colon
    then failed (make_error_code parse_error_headers) start
    else or_throw (substr request start (sub64 colon start)) λ name.
      or_throw (substr request (colon + 2) (sub64 end (colon + 2)))
        λ value. got (name, value) (end + length crlf)
header_fields request start none colon = failed (make_error_code parse_error_headers) start
header_fields request start (some end) none = failed (make_error_code parse_error_headers) start

unfoldable pub try_get_header : Bytes → Scanner (Bytes × Bytes)
unfolding header_fields
try_get_header request start =
    header_fields request start (find crlf request start) (find (b':' ∷ []) request start)

-- The loop of `try_get_headers`, with a bound on its rounds.
unfoldable pub headers_loop : ℕ → Bytes → HeaderMap → Scanner HeaderMap
headers_loop zero request result offset = out_of_fuel
headers_loop (suc fuel) request result offset =
    let rest = λ (header : Bytes × Bytes).
      headers_loop fuel request (insert_or_assign header.0 header.1 result) in
    if leb (length request) offset
    then got result offset
    else or_throw (substr_from request offset) λ line.
      if starts_with crlf line
      then got result (offset + length crlf)
      else next (try_get_header request offset) rest

-- Each round but the last passes a line end, so there are no more rounds than bytes.
unfoldable pub try_get_headers : Bytes → Scanner HeaderMap
try_get_headers request = headers_loop (suc (length request)) request []

-- The loop over a table of texts that `try_get_method`, `try_get_status` and `try_get_version`
-- have in common.
unfoldable pub try_get_token : {A : Type 0} → List (A × Bytes) → Error → Bytes → Scanner A
try_get_token [] e request offset = failed (make_error_code e) offset
try_get_token ((a, text) ∷ table) e request offset =
    let rest = try_get_token table e request offset in
    or_throw (substr_from request offset)
      λ s. if starts_with text s then got a (offset + length text) else rest

unfoldable pub try_get_method : Bytes → Scanner HttpMethod
unfolding try_get_token
try_get_method = try_get_token http_method_strings parse_error_method

unfoldable pub try_get_status : Bytes → Scanner HttpStatus
unfolding try_get_token
try_get_status = try_get_token http_status_strings parse_error_status

unfoldable pub try_get_version : Bytes → Scanner HttpVersion
unfolding try_get_token
try_get_version = try_get_token http_version_strings parse_error_version

-- The part of `try_get_uri` behind its search for the space.
unfoldable pub uri_to : Bytes → ℕ → Option ℕ → Scan Bytes
uri_to request start none = failed (make_error_code parse_error_uri) start
uri_to request start (some end) =
    or_throw (substr request start (sub64 end start)) λ uri. got uri end

unfoldable pub try_get_uri : Bytes → Scanner Bytes
unfolding uri_to
try_get_uri request offset = or_throw (at request offset) λ c.
    if c == b'/'
    then uri_to request offset (find (b' ' ∷ []) request offset)
    else failed (make_error_code parse_error_uri) offset
