-- ===== src/HttpRequest/Built.antt =====
-- Requests as a program makes them, by the constructors and the setters.
use pine_http.Prelude.{[], ◌∷◌, ◌≡◌, ◌<◌, ◌^◌, refl, length, All}
use pine_http.Text.{Bytes, to_decimal, find_first, starts_with}
use pine_http.Text.Find.{free_of-Free}
use pine_http.OrderedMap.{IsSorted}
use pine_http.OrderedMap.Laws.{
  insert_or_assign-All, erase-All, insert_or_assign-IsSorted, erase-IsSorted,
}
use pine_http.Http.{HttpMethod, HttpVersion}
use pine_http.Http.Scan.{value}
use pine_http.Http.Utils.{HeaderMap}
use pine_http.Http.Stages.{IsUri}
use pine_http.Http.Lines.{to_decimal-OnLine}
use pine_http.Http.Headers.{IsHeader}
use pine_http.HttpRequest.{
  HttpRequest, empty_request, make_request, content_length, length_header, set_body, set_header,
  set_method, set_uri, set_version, to_string, parse,
}
use pine_http.HttpRequest.RoundTrip.{request-parse-to_string}
use pine_http.HttpRequest.Accepted.{uri-IsWritable}

-- The constructors with headers that can stand on lines, and any calls of the setters behind them, of
-- which `set_header` has a header that can stand on a line.
pub data Built : HttpRequest → Type 0 where
  constructs : Built empty_request
  makes :
      (m : HttpMethod) (uri : Bytes) (v : HttpVersion) (headers : HeaderMap) (body : Bytes)
      → All IsHeader headers
      → IsSorted headers
      → Built (make_request m uri v headers body)
  sets_header :
      {r : HttpRequest}
      → Built r
      → (name content : Bytes) → IsHeader (name, content)
      → Built (set_header r name content)
  sets_body : {r : HttpRequest} → Built r → (body : Bytes) → Built (set_body r body)
  sets_method : {r : HttpRequest} → Built r → (m : HttpMethod) → Built (set_method r m)
  sets_uri : {r : HttpRequest} → Built r → (uri : Bytes) → Built (set_uri r uri)
  sets_version : {r : HttpRequest} → Built r → (v : HttpVersion) → Built (set_version r v)

abbrev HasHeaders : HeaderMap → Type 0
HasHeaders headers = All IsHeader headers × IsSorted headers

length_header-HasHeaders :
    (body : Bytes) (headers : HeaderMap)
    → HasHeaders headers
    → HasHeaders (length_header body headers)
unfolding length_header find_first starts_with
length_header-HasHeaders [] headers h =
    (erase-All IsHeader content_length headers h.0, erase-IsSorted content_length headers h.1)
length_header-HasHeaders (c ∷ cs) headers h = (
  insert_or_assign-All IsHeader content_length digits headers
      record {
        no_colon = free_of-Free b':' content_length refl;
        name_on_line = refl;
        value_on_line = to_decimal-OnLine (length (c ∷ cs));
      }
      h.0,
  insert_or_assign-IsSorted content_length digits headers h.1,
)
  where
    digits : Bytes
    digits = to_decimal (length (c ∷ cs))

Built-HasHeaders : {r : HttpRequest} → Built r → HasHeaders r.headers
unfolding make_request set_header set_body set_method set_uri set_version
Built-HasHeaders constructs = (tt, tt)
Built-HasHeaders (makes m uri v headers body ok sorted) = (ok, sorted)
Built-HasHeaders (sets_header {r} b name content ok) =
    let (all_ok, sorted) = Built-HasHeaders b in
    (
      insert_or_assign-All IsHeader name content r.headers ok all_ok,
      insert_or_assign-IsSorted name content r.headers sorted,
    )
Built-HasHeaders (sets_body {r} b body) =
    length_header-HasHeaders body r.headers (Built-HasHeaders b)
Built-HasHeaders (sets_method b m) = Built-HasHeaders b
Built-HasHeaders (sets_uri b uri) = Built-HasHeaders b
Built-HasHeaders (sets_version b v) = Built-HasHeaders b

-- Of a request that the constructors and any calls of the setters have made, whose header names were
-- given without a colon and whose header names and values were given without a line end (a carriage
-- return followed by a line feed), the headers of a constructor with ascending keys: if its URI is a
-- slash and bytes other than spaces, and its text is below 2 ^ 64 bytes, then parsing its text gives
-- the request again.
pub request-parse-Built :
    (r : HttpRequest)
    → Built r
    → IsUri r.uri
    → length (to_string r) < 2 ^ 64
    → parse (to_string r) ≡ value r
request-parse-Built r b is_uri fits =
    let (ok, sorted) = Built-HasHeaders b in
    request-parse-to_string r (uri-IsWritable r is_uri sorted ok fits)
