-- ===== src/Tests/Built.antt =====
-- Messages with header lines in any order, and messages made by the setters.
use pine_http.Prelude.{◌≡◌, ◌<◌, ◌^◌, ◌+◌, refl, [], ◌∷◌, length, All}
use pine_http.Text.{Bytes, codes, find_first, starts_with, to_decimal}
use pine_http.Text.Find.{free_of-Free}
use pine_http.Text.Cursor.{At-start}
use pine_http.OrderedMap.{lookup, IsSorted, compare_text, insert_or_assign}
use pine_http.OrderedMap.Entered.{last_value}
use pine_http.Http.{not_found, method_string, version_string, status_text}
use pine_http.Http.Scan.{got, value}
use pine_http.Http.Utils.{HeaderMap, try_get_headers}
use pine_http.Http.Print.{header_lines}
use pine_http.Http.Stages.{IsUri}
use pine_http.Http.Headers.{IsHeader, try_get_headers-lines}
use pine_http.HttpRequest
use pine_http.HttpRequest.{HttpRequest, empty_request}
use pine_http.HttpRequest.Built as RequestBuilt
use pine_http.HttpRequest.Built.{request-parse-Built}
use pine_http.HttpResponse
use pine_http.HttpResponse.{HttpResponse, empty_response}
use pine_http.HttpResponse.Built as ResponseBuilt
use pine_http.HttpResponse.Built.{response-parse-Built}
use pine_http.Tests.Messages.{OnLine-IsHeader, fits_64}

abbrev unsorted : HeaderMap
unsorted = (codes "Host", codes "a") ∷ (codes "Accept", codes "b") ∷ (codes "Host", codes "c") ∷ []

unsorted-IsHeader : All IsHeader unsorted
unfolding find_first starts_with
unsorted-IsHeader = (
  OnLine-IsHeader _ _ refl refl refl,
  (OnLine-IsHeader _ _ refl refl refl, (OnLine-IsHeader _ _ refl refl refl, tt)),
)

abbrev unsorted_lines : Bytes
unsorted_lines = codes "Host: a\r\nAccept: b\r\nHost: c\r\n\r\nx"

try_get_headers-lines_example :
    (h : HeaderMap) × (try_get_headers unsorted_lines 0 ≡ got h (0 + 29 + 2))
    × ((name : Bytes) → lookup name h ≡ last_value name unsorted)
    × IsSorted h
    × (IsSorted unsorted → h ≡ unsorted)
unfolding header_lines
try_get_headers-lines_example =
    try_get_headers-lines unsorted (codes "x") unsorted-IsHeader (fits_64 unsorted_lines refl)
      (At-start unsorted_lines)

abbrev made_request : HttpRequest
made_request =
    HttpRequest.set_body
      (HttpRequest.set_header (HttpRequest.set_uri empty_request (codes "/a")) (codes "Host")
        (codes "c"))
      (codes "x=1")

made_request-Built : RequestBuilt.Built made_request
unfolding find_first starts_with
made_request-Built =
    RequestBuilt.sets_body
      (RequestBuilt.sets_header (RequestBuilt.sets_uri RequestBuilt.constructs (codes "/a"))
        (codes "Host") (codes "c") (OnLine-IsHeader _ _ refl refl refl))
      (codes "x=1")

made_request-fits : length (HttpRequest.to_string made_request) < 2 ^ 64
unfolding HttpRequest.to_string HttpRequest.set_body HttpRequest.set_header HttpRequest.set_uri
    insert_or_assign compare_text to_decimal header_lines method_string version_string
made_request-fits = fits_64 (HttpRequest.to_string made_request) refl

made_request-IsUri : IsUri made_request.uri
unfolding HttpRequest.set_body HttpRequest.set_header HttpRequest.set_uri
made_request-IsUri = (refl, free_of-Free b' ' (codes "a") refl)

request-parse-Built_example :
    HttpRequest.parse (HttpRequest.to_string made_request) ≡ value made_request
request-parse-Built_example =
    request-parse-Built made_request made_request-Built made_request-IsUri made_request-fits

abbrev made_response : HttpResponse
made_response =
    HttpResponse.set_status
      (HttpResponse.set_header (HttpResponse.set_body empty_response (codes "gone")) (codes "Host")
        (codes "c"))
      not_found

made_response-Built : ResponseBuilt.Built made_response
unfolding find_first starts_with
made_response-Built =
    ResponseBuilt.sets_status
      (ResponseBuilt.sets_header (ResponseBuilt.sets_body ResponseBuilt.constructs (codes "gone"))
        (codes "Host") (codes "c") (OnLine-IsHeader _ _ refl refl refl))
      not_found

made_response-fits : length (HttpResponse.to_string made_response) < 2 ^ 64
unfolding HttpResponse.to_string HttpResponse.set_body HttpResponse.set_header
    HttpResponse.set_status insert_or_assign compare_text to_decimal header_lines status_text
    version_string
made_response-fits = fits_64 (HttpResponse.to_string made_response) refl

response-parse-Built_example :
    HttpResponse.parse (HttpResponse.to_string made_response) ≡ value made_response
response-parse-Built_example =
    response-parse-Built made_response made_response-Built made_response-fits
