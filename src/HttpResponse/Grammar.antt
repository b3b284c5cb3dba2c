-- ===== src/HttpResponse/Grammar.antt =====
-- The texts that `http_response::parse` (shared/src/http_response.cpp) accepts, described without
-- offsets.
use pine_http.Prelude.{
  ℕ, ◌+◌, ◌^◌, ◌<◌, ◌≡◌, ◌↔◌, refl, sym, ap, ◌∙◌, subst, [], ◌∷◌, ◌++◌, arith, length, drop,
  length-append, drop-past, ltb, inl, inr, Bool-cases,
}
use pine_http.Text.{Bytes}
use pine_http.Text.Cursor.{At, At-start, At-skip, At-drop_rest}
use pine_http.Text.Bounds.{substr_from_in_range}
use pine_http.OrderedMap.Entered.{entered}
use pine_http.Http.{
  HttpStatus, ok, bad_request, not_found, internal_server_error, HttpVersion, status_text,
  version_string, http_status_strings, http_version_strings,
}
use pine_http.Http.Scan.{got, next-got_elim, outcome-eq-value, value}
use pine_http.Http.Utils.{HeaderMap, try_get_status, try_get_version, try_get_headers, try_get_body}
use pine_http.Http.Tokens.{try_get_version-print, try_get_status-print}
use pine_http.Http.Accepted.{drop-drop}
use pine_http.Http.Grammar.{Lines}
use pine_http.Http.Grammar.Tokens.{separator-drop, try_get_token-drop}
use pine_http.Errors.{parse_error_status, parse_error_version}
use pine_http.Http.Grammar.Loop.{try_get_headers-Lines, Lines-try_get_headers}
use pine_http.HttpResponse.{HttpResponse, rest_as_body, scan_response, parse}

-- A response as the parser takes it: a version, one byte, a status, two bytes (or what is left, if
-- that is less), and header lines with the body behind them.
pub data Accepts : Bytes → HttpResponse → Type 0 where
  accepts :
      (v : HttpVersion) (separator : ℕ) (status : HttpStatus) (after : Bytes) (lines : HeaderMap)
      (body : Bytes)
      → Lines (drop 2 after) lines body
      → Accepts
          (version_string v ++ (separator ∷ (status_text status ++ after)))
          (record { body = body; headers = entered lines []; status = status; version = v })

rest_as_body-drop : (text : Bytes) (o : ℕ) → (n : ℕ) × (rest_as_body text o ≡ got (drop o text) n)
unfolding rest_as_body try_get_body
rest_as_body-drop text o = elim (Bool-cases (ltb o (length text))) [
  | inl left ↦ (length text, ground (arith, substr_from_in_range text o (ground arith)))
  | inr over ↦ (o, rw over (ap (λ b. got b o) (sym (drop-past o text (ground arith)))))
]

pub Accepts-parse :
    {text : Bytes} {r : HttpResponse} → Accepts text r → length text < 2 ^ 64 → parse text ≡ value r
unfolding parse scan_response
Accepts-parse {text} (accepts v separator status after lines body ls) fits =
    rw
      (
        try_get_version-print v _ at_version,
        try_get_status-print status _ at_status,
        headers.1,
        (rest_as_body-drop text headers.0).1,
      )
      (ap
        (λ b. value (record { body = b; headers = entered lines []; status = status; version = v }))
        headers.2)
  where
    at_version : At text (version_string v ++ (separator ∷ (status_text status ++ after))) 0
    at_version = At-start text

    status_at : ℕ
    status_at = 0 + length (version_string v) + 1

    at_status : At text (status_text status ++ after) status_at
    at_status = At-skip (separator ∷ []) (At-skip (version_string v) at_version)

    headers_at : ℕ
    headers_at = status_at + length (status_text status) + 2

    headers :
        (o' : ℕ) × (try_get_headers text headers_at ≡ got (entered lines []) o')
        × (drop o' text ≡ body)
    headers = Lines-try_get_headers text fits headers_at ls (
        sym (drop-drop 2 (status_at + length (status_text status)) text)
        ∙ ap (drop 2) (At-drop_rest (At-skip (status_text status) at_status)))

status_text-not_empty : (status : HttpStatus) → 0 < length (status_text status)
unfolding status_text
status_text-not_empty ok = omega arith
status_text-not_empty bad_request = omega arith
status_text-not_empty not_found = omega arith
status_text-not_empty internal_server_error = omega arith

module _ (text : Bytes) (fits : length text < 2 ^ 64) where
  parts-Accepts :
      (v : HttpVersion) (status : HttpStatus) (h : HeaderMap) (o p k : ℕ)
      → try_get_version text 0 ≡ got v o
      → try_get_status text (o + 1) ≡ got status p
      → try_get_headers text (p + 2) ≡ got h k
      → (r : HttpResponse) × Accepts text r
  unfolding try_get_status try_get_version
  parts-Accepts v status h o p k at_version at_status at_headers =
      let version_is =
        try_get_token-drop version_string http_version_strings parse_error_version text 0 v o
          (refl, tt) at_version in
      let status_is =
        try_get_token-drop status_text http_status_strings parse_error_status text (o + 1) status p
          (refl, (refl, (refl, (refl, tt)))) at_status in
      let (separator, separator_is) = separator-drop text o (
        omega (
          arith,
          ap length status_is,
          length-append (status_text status) (drop p text),
          status_text-not_empty status,
        )) in
      let (lines, ls, same) = try_get_headers-Lines text fits (p + 2) h k at_headers in
      let after : Lines (drop 2 (drop p text)) lines (drop k text) =
        subst (λ s. Lines s lines (drop k text)) (sym (drop-drop 2 p text)) ls in
      (
        _,
        subst
            (λ t. Accepts t (record {
              body = drop k text;
              headers = entered lines [];
              status = status;
              version = v;
            }))
            (sym (
              version_is
              ∙ ap (λ t. version_string v ++ t) (separator_is ∙ ap (λ t. separator ∷ t) status_is)))
            (accepts v separator status (drop p text) lines (drop k text) after),
      )

  scan_response-Accepts :
      (r : HttpResponse) (n : ℕ)
      → scan_response text 0 ≡ got r n
      → (r' : HttpResponse) × Accepts text r'
  unfolding scan_response
  scan_response-Accepts r n h = next-got_elim (try_get_version text 0) _ h λ v o at_version h₁.
      next-got_elim (try_get_status text (o + 1)) _ h₁ λ s p at_status h₂.
        next-got_elim (try_get_headers text (p + 2)) _ h₂
          λ hs k at_headers h₃. parts-Accepts v s hs o p k at_version at_status at_headers

-- A text below 2 ^ 64 bytes is parsed to a response exactly if it is a version, one byte, a status
-- (its code, a space and its name), two bytes or what is left if that is less, header lines, and an
-- empty line with the body behind it or nothing more; and the response is the one that the text holds
-- in this reading, where a later header takes the place of an earlier one with the same name. A header
-- line is a name without colons, a colon, one byte, and a value, where neither the name nor the byte
-- with the value hold a line end (a carriage return followed by a line feed), and a line end; or such
-- a name and a colon with a line end right behind it, and then its value is all that follows the
-- carriage return.
pub response-parse-Accepts :
    (text : Bytes) (r : HttpResponse)
    → length text < 2 ^ 64
    → (parse text ≡ value r) ↔ Accepts text r
unfolding parse
response-parse-Accepts text r fits = (
  λ h.
      let (n, read) = outcome-eq-value (scan_response text 0) h in
      let (r', a) = scan_response-Accepts text fits r n read in
      let same : value r' ≡ value r = sym (Accepts-parse a fits) ∙ h in subst (Accepts text) (cc) a,
  λ a. Accepts-parse a fits,
)
