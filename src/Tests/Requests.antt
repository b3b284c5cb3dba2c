-- ===== src/Tests/Requests.antt =====
-- Requests: the inputs of tests/unit/http_request_tests.cpp, and instances of the theorems.
use pine_http.Prelude.{none, ◌≤◌, ◌+◌, ◌≡◌, ◌≢◌, ◌↔◌, refl, arith, [], ◌∷◌, length, if◌then◌else◌}
use pine_http.Text.{
  Bytes, codes, starts_with, find_first, find, substr, substr_from, at, equal, to_decimal,
}
use pine_http.Text.Decimal.{read_decimal}
use pine_http.OrderedMap.{compare_text, insert_or_assign, lookup, IsSorted}
use pine_http.Errors.{make_error_code, parse_error_method, parse_error_uri}
use pine_http.Http.{get, post, http_1_1, method_string, version_string}
use pine_http.Http.Scan.{value, unexpected, raised, unfinished}
use pine_http.Http.Utils.{
  headers_loop, try_get_method, try_get_uri, try_get_version, try_get_headers, try_get_header,
  try_get_body,
}
use pine_http.Http.Print.{header_lines}
use pine_http.Http.Accepted.{empty_value}
use pine_http.HttpRequest.{
  HttpRequest, empty_request, make_request, get_header, set_body, set_header, to_string, parse,
  content_length,
}
use pine_http.Text.Find.{free_of-Free}
use pine_http.HttpRequest.RoundTrip.{IsWritable, request-parse-to_string}
use pine_http.HttpRequest.Outcomes.{IsCut}
use pine_http.HttpRequest.Refused.{Refuses}
use pine_http.HttpRequest.Classified.{request-parse-Refuses}
use pine_http.HttpRequest.Accepted.{request-parse-again}
use pine_http.HttpRequest.Grammar.{Accepts, request-parse-Accepts}
use pine_http.HttpRequest.Fields.{size_entry, request-set_body, request-content_length}
use pine_http.Tests.Messages.{two_headers, two_headers-IsHeader, two_headers-IsSorted, fits_64}

-- ParseValidRequest
users_request :
    parse (
      codes
        "GET /api/users HTTP/1.1\r\nHost: example.com\r\nUser-Agent: Mozilla/5.0\r\nAccept: application/json\r\n\r\n")
    ≡ value record {
      method = get;
      uri = codes "/api/users";
      version = http_1_1;
      headers =
          (codes "Accept", codes "application/json")
          ∷ (codes "Host", codes "example.com")
          ∷ (codes "User-Agent", codes "Mozilla/5.0")
          ∷ [];
      body = [];
    }
unfolding parse starts_with find_first find substr substr_from at compare_text insert_or_assign
    method_string version_string headers_loop make_request try_get_method try_get_uri
    try_get_version try_get_headers try_get_header
users_request = refl

-- ParseInvalidRequest
invalid_request : parse (codes "INVALID REQUEST") ≡ unexpected (make_error_code parse_error_method)
unfolding parse starts_with substr_from method_string try_get_method
invalid_request = refl

-- SettersAndGetters
abbrev product_request : HttpRequest
product_request =
    set_body (set_header empty_request (codes "Content-Type") (codes "application/xml"))
      (codes "<product/>")

getters :
    (get_header product_request (codes "Content-Type") ≡ codes "application/xml")
    × (get_header product_request (codes "Host") ≡ [])
    × (get_header product_request content_length ≡ codes "10")
    × (length product_request.headers ≡ 2)
unfolding get_header set_body set_header compare_text insert_or_assign lookup equal to_decimal
getters = (refl, refl, refl, refl)

abbrev pub asked : HttpRequest
asked = record {
  method = post;
  uri = codes "/a";
  version = http_1_1;
  headers = two_headers;
  body = codes "x=1";
}

asked-to_string :
    to_string asked ≡ codes "POST /a HTTP/1.1\r\nAccept: */*\r\nHost: example.com\r\n\r\nx=1"
unfolding to_string method_string version_string header_lines
asked-to_string = refl

pub asked-IsWritable : IsWritable asked
unfolding to_string method_string version_string header_lines
asked-IsWritable = record {
  path = codes "a";
  uri_is = refl;
  no_space = free_of-Free b' ' (codes "a") refl;
  headers_ok = two_headers-IsHeader;
  sorted = two_headers-IsSorted;
  fits = fits_64 (to_string asked) refl;
}

request-parse-to_string_example : parse (to_string asked) ≡ value asked
request-parse-to_string_example = request-parse-to_string asked asked-IsWritable

request-set_body_example :
    ((set_body asked (codes "x")).body ≡ codes "x")
    × ((name : Bytes)
        → lookup name (set_body asked (codes "x")).headers
          ≡ (if equal name content_length then size_entry (codes "x") else lookup name two_headers))
    × IsSorted (set_body asked (codes "x")).headers
request-set_body_example = request-set_body asked (codes "x") two_headers-IsSorted

request-content_length_example :
    read_decimal (get_header (set_body asked (codes "x=12")) content_length)
    ≡ length (set_body asked (codes "x=12")).body
request-content_length_example =
    request-content_length asked (codes "x=12") (λ e. cc) (fits_64 (codes "x=12") refl)

-- The headers are not in the order of their keys, and one is there twice.
abbrev unsorted_text : Bytes
unsorted_text = codes "GET / HTTP/1.1\r\nHost: a\r\nAccept: b\r\nHost: c\r\n\r\nx"

abbrev sorted_request : HttpRequest
sorted_request = record {
  method = get;
  uri = codes "/";
  version = http_1_1;
  headers = (codes "Accept", codes "b") ∷ (codes "Host", codes "c") ∷ [];
  body = codes "x";
}

parse-unsorted_text : parse unsorted_text ≡ value sorted_request
unfolding parse starts_with find_first find substr substr_from at compare_text insert_or_assign
    method_string version_string headers_loop make_request try_get_method try_get_uri
    try_get_version try_get_headers try_get_header try_get_body
parse-unsorted_text = refl

unsorted_text-whole : find_first empty_value unsorted_text ≡ none
unfolding find_first starts_with
unsorted_text-whole = refl

request-parse-again_example :
    (parse (to_string sorted_request) ≡ value sorted_request)
    × (length (to_string sorted_request) ≤ length unsorted_text + 4)
request-parse-again_example =
    request-parse-again unsorted_text sorted_request parse-unsorted_text unsorted_text-whole
      (omega arith)

-- The separators are other bytes, a line has no value, and there is no empty line.
abbrev loose_text : Bytes
loose_text = codes "GET+/ HTTP/1.1--Host:_a\r\nX:\r\n"

abbrev loose_request : HttpRequest
loose_request = record {
  method = get;
  uri = codes "/";
  version = http_1_1;
  headers = (codes "Host", codes "a") ∷ (codes "X", codes "\n") ∷ [];
  body = [];
}

parse-loose_text : parse loose_text ≡ value loose_request
unfolding parse starts_with find_first find substr substr_from at compare_text insert_or_assign
    method_string version_string headers_loop make_request try_get_method try_get_uri
    try_get_version try_get_headers try_get_header try_get_body
parse-loose_text = refl

request-parse-Accepts_example :
    (parse loose_text ≡ value loose_request) ↔ Accepts loose_text loose_request
request-parse-Accepts_example =
    request-parse-Accepts loose_text loose_request (fits_64 loose_text refl)

-- The URI does not start with a slash.
request-parse-Refuses_example :
    ((parse (codes "GET x") ≡ unexpected (make_error_code parse_error_uri))
      ↔ Refuses (codes "GET x") (make_error_code parse_error_uri))
    × ((parse (codes "GET x") ≡ raised) ↔ IsCut (codes "GET x"))
    × (parse (codes "GET x") ≢ unfinished)
request-parse-Refuses_example =
    request-parse-Refuses (codes "GET x") (make_error_code parse_error_uri)
      (fits_64 (codes "GET x") refl)
