-- ===== src/HttpResponse/RoundTrip.antt =====
-- A response that is written and parsed again comes back whole.
use pine_http.Prelude.{refl, ◌∙◌, ℕ, ◌+◌, ◌^◌, ◌<◌, ◌≡◌, [], ◌∷◌, ◌++◌, arith, ap, length, All}
use pine_http.Text.{Bytes}
use pine_http.Text.Cursor.{At, At-start, At-skip, At-substr_from, At-length}
use pine_http.OrderedMap.{lookup, IsSorted}
use pine_http.OrderedMap.Entered.{
  entered, last_value, lookup-entered, entered-IsSorted, entered-append,
}
use pine_http.Http.{HttpStatus, HttpVersion, status_text, version_string, crlf}
use pine_http.Http.Scan.{got, outcome, value}
use pine_http.Http.Utils.{HeaderMap, try_get_body}
use pine_http.Http.Print.{header_lines}
use pine_http.Http.Tokens.{try_get_version-print, try_get_status-print}
use pine_http.Http.Headers.{IsHeader, try_get_headers-entered}
use pine_http.HttpResponse.{HttpResponse, to_string, rest_as_body, scan_response, parse}

-- A response that its text can stand for.
pub record IsWritable (r : HttpResponse) : Type 0 where
  pub headers_ok : All IsHeader r.headers
  pub sorted : IsSorted r.headers
  pub fits : length (to_string r) < 2 ^ 64

-- Whatever is left is the body, nothing included.
rest_as_body_lem :
    (rest : Bytes) {text : Bytes} {o : ℕ}
    → At text rest o
    → rest_as_body text o ≡ got rest (length text)
unfolding rest_as_body try_get_body
rest_as_body_lem [] p = ground (arith, At-length p)
rest_as_body_lem (c ∷ rest) p = ground (arith, At-length p, At-substr_from p)

-- The text of a response with these header lines, in any order.
abbrev pub response_text : HttpVersion → HttpStatus → HeaderMap → Bytes → Bytes
response_text v status lines b =
    version_string v
    ++ (b' ' ∷ (status_text status ++ (crlf ++ (header_lines lines ++ (crlf ++ b)))))

scan_response-lines :
    (v : HttpVersion) (status : HttpStatus) (h : HeaderMap) (b : Bytes) {text : Bytes}
    → All IsHeader h
    → length text < 2 ^ 64
    → At text (response_text v status h b) 0
    → scan_response text 0
      ≡ got
          (record { body = b; headers = entered h []; status = status; version = v })
          (length text)
unfolding scan_response
scan_response-lines v status h b {text} ok fits at_version = rw (
  try_get_version-print v _ at_version,
  try_get_status-print status _ at_status,
  try_get_headers-entered h b ok fits at_headers,
  rest_as_body_lem b at_body,
)
  where
    status_at : ℕ
    status_at = 0 + length (version_string v) + 1

    at_status : At text (status_text status ++ (crlf ++ (header_lines h ++ (crlf ++ b)))) status_at
    at_status = At-skip (b' ' ∷ []) (At-skip (version_string v) at_version)

    headers_at : ℕ
    headers_at = status_at + length (status_text status) + 2

    at_headers : At text (header_lines h ++ (crlf ++ b)) headers_at
    at_headers = At-skip crlf (At-skip (status_text status) at_status)

    at_body : At text b (headers_at + length (header_lines h) + 2)
    at_body = At-skip crlf (At-skip (header_lines h) at_headers)

-- Of a text that is a version, a status with its code, header lines in any order and with any
-- repetitions, an empty line and a body, below 2 ^ 64 bytes, where no header name holds a colon and
-- neither names nor values hold a line end (a carriage return followed by a line feed): parsing it
-- gives a response with this version, status and body. Its headers have for each name the value of
-- the last line with this name, and nothing if there is no such line; and their keys ascend.
response-parse-lines :
    (v : HttpVersion) (status : HttpStatus) (lines : HeaderMap) (b : Bytes)
    → All IsHeader lines
    → length (response_text v status lines b) < 2 ^ 64
    → (r : HttpResponse) × (parse (response_text v status lines b) ≡ value r)
      × ((r.version ≡ v) × (r.status ≡ status) × (r.body ≡ b))
      × ((name : Bytes) → lookup name r.headers ≡ last_value name lines)
      × IsSorted r.headers
unfolding parse
response-parse-lines v status lines b ok fits = (
  record { body = b; headers = entered lines []; status = status; version = v },
  ap outcome (scan_response-lines v status lines b ok fits (At-start _)),
  (refl, refl, refl),
  λ name. lookup-entered name lines,
  entered-IsSorted lines [] tt,
)

-- Of a response whose header names hold no colon, whose header names and values hold no line end (a
-- carriage return followed by a line feed), whose header keys ascend and whose text is below 2 ^ 64
-- bytes: parsing its text gives the response again, with its version, status, headers and body.
pub response-parse-to_string : (r : HttpResponse) → IsWritable r → parse (to_string r) ≡ value r
unfolding parse to_string
response-parse-to_string r w =
    ap outcome (
      scan_response-lines r.version r.status r.headers r.body w.headers_ok w.fits
        (At-start (to_string r)))
    ∙ ap (λ h. value (record r { headers = h })) (entered-append r.headers [] w.sorted tt)
