-- ===== src/Tests/Messages.antt =====
-- Concrete headers, and the parsers of the parts of a message: the inputs of tests/unit/http_tests.cpp
-- and others.
use pine_http.Prelude.{◌^◌, ◌<◌, ◌≡◌, refl, [], ◌∷◌, arith, length, true, false, leb, All}
use pine_http.Text.{Bytes, codes, starts_with, find_first, find, substr, substr_from, at}
use pine_http.Text.Find.{free_of, free_of-Free}
use pine_http.OrderedMap.{compare_text, insert_or_assign, IsSorted}
use pine_http.Errors.{make_error_code, parse_error_body}
use pine_http.Http.{get, ok, http_1_1, method_string, version_string, status_text}
use pine_http.Http.Scan.{got, failed}
use pine_http.Http.Utils.{
  HeaderMap, headers_loop, try_get_body, try_get_header, try_get_headers, try_get_method,
  try_get_status, try_get_uri, try_get_version,
}
use pine_http.Http.Lines.{OnLine}
use pine_http.Http.Headers.{IsHeader}
use pine_http.Http.Safety.{EndsWell, try_get_headers-EndsWell}

pub OnLine-IsHeader :
    (name value : Bytes)
    → free_of b':' name ≡ true
    → OnLine name
    → OnLine value
    → IsHeader (name, value)
OnLine-IsHeader name value no_colon name_line value_line = record {
  no_colon = free_of-Free b':' name no_colon;
  name_on_line = name_line;
  value_on_line = value_line;
}

pub fits_64 : (text : Bytes) → leb (2 ^ 64) (length text) ≡ false → length text < 2 ^ 64
fits_64 text h = ground arith

abbrev index_request : Bytes
index_request =
    codes "GET /index.html HTTP/1.1\r\nHost: example.com\r\nContent-Type: text/html\r\n\r\n"

parts_of_a_message :
    (try_get_method index_request 0 ≡ got get 3)
    × (try_get_uri index_request 4 ≡ got (codes "/index.html") 15)
    × (try_get_version index_request 16 ≡ got http_1_1 24)
    × (try_get_header index_request 26 ≡ got (codes "Host", codes "example.com") 45)
    × (try_get_headers index_request 26
        ≡ got
            ((codes "Content-Type", codes "text/html") ∷ (codes "Host", codes "example.com") ∷ [])
            72)
    × (try_get_status (codes "HTTP/1.1 200 OK\r\n\r\n") 9 ≡ got ok 15)
unfolding try_get_method try_get_uri try_get_version try_get_header try_get_headers try_get_status
    starts_with find_first find substr substr_from at compare_text insert_or_assign method_string
    version_string status_text headers_loop
parts_of_a_message = (refl, refl, refl, refl, refl, refl)

bodies :
    (try_get_body (codes "Hello World") 6 ≡ got (codes "World") 11)
    × (try_get_body (codes "Hello World") 11 ≡ failed (make_error_code parse_error_body) 11)
unfolding try_get_body
bodies = (refl, refl)

abbrev pub two_headers : HeaderMap
two_headers = (codes "Accept", codes "*/*") ∷ (codes "Host", codes "example.com") ∷ []

abbrev two_lines : Bytes
two_lines = codes "Accept: */*\r\nHost: example.com\r\n\r\nrest"

pub two_headers-IsSorted : IsSorted two_headers
unfolding compare_text
two_headers-IsSorted = ((refl, tt), (tt, tt))

pub two_headers-IsHeader : All IsHeader two_headers
unfolding find_first starts_with
two_headers-IsHeader =
    (OnLine-IsHeader _ _ refl refl refl, (OnLine-IsHeader _ _ refl refl refl, tt))

try_get_headers-EndsWell_example : EndsWell 0 (try_get_headers two_lines 0)
try_get_headers-EndsWell_example = try_get_headers-EndsWell two_lines 0
