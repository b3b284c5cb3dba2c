-- ===== src/Tests/Responses.antt =====
-- Responses: the inputs of tests/unit/http_response_tests.cpp, and instances of the theorems.
use pine_http.Prelude.{none, ◌≤◌, ◌+◌, arith, length, [], ◌∷◌, ◌≡◌, ◌≢◌, ◌↔◌, refl}
use pine_http.Text.{Bytes, codes, starts_with, find_first, find, substr, substr_from, to_decimal}
use pine_http.OrderedMap.{compare_text, insert_or_assign}
use pine_http.Errors.{make_error_code, parse_error_status}
use pine_http.Http.{not_found, http_1_1, status_text, version_string}
use pine_http.Http.Scan.{value, unexpected, raised, unfinished}
use pine_http.Http.Print.{header_lines}
use pine_http.Http.Utils.{
  headers_loop, try_get_headers, try_get_header, try_get_status, try_get_version,
}
use pine_http.Http.Accepted.{empty_value}
use pine_http.HttpResponse.{HttpResponse, empty_response, set_body, set_header, to_string, parse}
use pine_http.HttpResponse.RoundTrip.{IsWritable, response-parse-to_string}
use pine_http.HttpResponse.Outcomes.{IsCut, response-parse-raised}
use pine_http.HttpResponse.Refused.{Refuses}
use pine_http.HttpResponse.Classified.{response-parse-Refuses}
use pine_http.HttpResponse.Grammar.{Accepts, response-parse-Accepts}
use pine_http.HttpResponse.Accepted.{response-parse-again}
use pine_http.Tests.Messages.{two_headers, two_headers-IsHeader, two_headers-IsSorted, fits_64}

-- ToString_ReturnsCorrectValue
hello :
    to_string (
      set_body
        (set_header empty_response (codes "Content-Type") (codes "application/json"))
        (codes "Hello, World!"))
    ≡ codes
        "HTTP/1.1 200 OK\r\nContent-Length: 13\r\nContent-Type: application/json\r\n\r\nHello, World!"
unfolding to_string set_body set_header compare_text insert_or_assign to_decimal status_text
    version_string header_lines
hello = refl

unknown_status :
    parse (codes "HTTP/1.1 302 Found\r\n\r\n") ≡ unexpected (make_error_code parse_error_status)
unfolding parse starts_with substr_from version_string status_text try_get_status try_get_version
unknown_status = refl

abbrev pub missing : HttpResponse
missing = record {
  version = http_1_1;
  status = not_found;
  headers = two_headers;
  body = codes "gone";
}

pub missing-IsWritable : IsWritable missing
unfolding to_string status_text version_string header_lines
missing-IsWritable = record {
  headers_ok = two_headers-IsHeader;
  sorted = two_headers-IsSorted;
  fits = fits_64 (to_string missing) refl;
}

response-parse-to_string_example : parse (to_string missing) ≡ value missing
response-parse-to_string_example = response-parse-to_string missing missing-IsWritable

cut_response : parse (version_string http_1_1) ≡ raised
cut_response = response-parse-raised http_1_1

-- A line that stands twice, and no body.
abbrev repeated_text : Bytes
repeated_text = codes "HTTP/1.1 404 Not Found\r\nHost: a\r\nHost: b\r\n\r\n"

abbrev not_repeated : HttpResponse
not_repeated = record {
  version = http_1_1;
  status = not_found;
  headers = (codes "Host", codes "b") ∷ [];
  body = [];
}

parse-repeated_text : parse repeated_text ≡ value not_repeated
unfolding parse starts_with find_first find substr substr_from compare_text insert_or_assign
    version_string status_text headers_loop try_get_status try_get_version try_get_headers
    try_get_header
parse-repeated_text = refl

repeated_text-whole : find_first empty_value repeated_text ≡ none
unfolding find_first starts_with
repeated_text-whole = refl

response-parse-again_example :
    (parse (to_string not_repeated) ≡ value not_repeated)
    × (length (to_string not_repeated) ≤ length repeated_text + 4)
response-parse-again_example =
    response-parse-again repeated_text not_repeated parse-repeated_text repeated_text-whole
      (omega arith)

-- The separator is another byte, and nothing follows the status.
response-parse-Accepts_example :
    (parse (codes "HTTP/1.1-404 Not Found")
      ≡ value record { version = http_1_1; status = not_found; headers = []; body = [] })
    ↔ Accepts
        (codes "HTTP/1.1-404 Not Found")
        (record { version = http_1_1; status = not_found; headers = []; body = [] })
response-parse-Accepts_example =
    response-parse-Accepts (codes "HTTP/1.1-404 Not Found") _
      (fits_64 (codes "HTTP/1.1-404 Not Found") refl)

-- There is no such status.
response-parse-Refuses_example :
    ((parse (codes "HTTP/1.1 302") ≡ unexpected (make_error_code parse_error_status))
      ↔ Refuses (codes "HTTP/1.1 302") (make_error_code parse_error_status))
    × ((parse (codes "HTTP/1.1 302") ≡ raised) ↔ IsCut (codes "HTTP/1.1 302"))
    × (parse (codes "HTTP/1.1 302") ≢ unfinished)
response-parse-Refuses_example =
    response-parse-Refuses (codes "HTTP/1.1 302") (make_error_code parse_error_status)
      (fits_64 (codes "HTTP/1.1 302") refl)
