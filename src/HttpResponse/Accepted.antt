-- ===== src/HttpResponse/Accepted.antt =====
-- A response that has been parsed: it can be written, and is parsed again to the same response.
use pine_http.Prelude.{
  ℕ, ◌+◌, ◌-◌, ◌^◌, ◌≤◌, ◌<◌, ◌≡◌, refl, ap, subst, [], ◌∷◌, ◌++◌, none, arith, length, ltb, ltb→lt,
  ltb_false→le, lt→leb_false, drop, length-drop, length-append, inl, inr, Bool-cases, All,
}
use pine_http.Text.{Bytes, find_first}
use pine_http.Text.Bounds.{substr_from_in_range}
use pine_http.Errors.{parse_error_status, parse_error_version}
use pine_http.Http.{
  HttpStatus, HttpVersion, status_text, http_status_strings, version_string, http_version_strings,
  crlf,
}
use pine_http.Http.Scan.{got, next-got_elim, outcome-eq-value, value}
use pine_http.Http.Utils.{HeaderMap, try_get_status, try_get_version, try_get_headers, try_get_body}
use pine_http.Http.Print.{header_lines}
use pine_http.Http.Headers.{IsHeader}
use pine_http.Http.Accepted.{empty_value, got_injective}
use pine_http.Http.Accepted.Loop.{try_get_headers-IsHeader}
use pine_http.Http.Accepted.Tokens.{try_get_token-length}
use pine_http.HttpResponse.{HttpResponse, to_string, rest_as_body, scan_response, parse}
use pine_http.HttpResponse.Outcomes.{EndsAs, response-parse-EndsAs}
use pine_http.HttpResponse.RoundTrip.{response-parse-to_string}

rest_as_body-length :
    (text : Bytes) (o : ℕ) (b : Bytes) (n : ℕ)
    → rest_as_body text o ≡ got b n
    → length b ≡ length text - o
unfolding rest_as_body try_get_body
rest_as_body-length text o b n h = elim (Bool-cases (ltb o (length text))) [
  | inl left ↦
      let cut = substr_from_in_range text o (ground arith) in
      omega (
        arith,
        ap length
            (got_injective (drop o text) b (length text) n
              (rw (left, lt→leb_false (length text) o (ltb→lt o (length text) left), cut) at h)).0,
        length-drop o text,
      )
  | inr over ↦ omega (
    arith,
    ap length (got_injective [] b o n (rw over at h)).0,
    ltb_false→le o (length text) over,
  )
]

length-to_string :
    (r : HttpResponse)
    → length (to_string r)
      ≡ length (version_string r.version)
        + 1
        + length (status_text r.status)
        + 2
        + length (header_lines r.headers)
        + 2
        + length r.body
unfolding to_string
length-to_string r = omega (
  arith,
  length-append (version_string r.version) (b' ' ∷ (status_text r.status ++ after_status)),
  length-append (status_text r.status) after_status,
  length-append (header_lines r.headers) (crlf ++ r.body),
)
  where
    after_status : Bytes
    after_status = crlf ++ (header_lines r.headers ++ (crlf ++ r.body))

module _ (text : Bytes) (fits : length text < 2 ^ 64)
    (whole : find_first empty_value text ≡ none) where
  abbrev Accepted : HttpResponse → Type 0
  Accepted r = All IsHeader r.headers × (length (to_string r) ≤ length text + 4)

  abbrev response_of : HttpVersion → HttpStatus → HeaderMap → Bytes → HttpResponse
  response_of v s h b = record { body = b; headers = h; status = s; version = v }

  read-Accepted :
      (v : HttpVersion) (s : HttpStatus) (h : HeaderMap) (b : Bytes) (o p k n : ℕ)
      → try_get_version text 0 ≡ got v o
      → try_get_status text (o + 1) ≡ got s p
      → try_get_headers text (p + 2) ≡ got h k
      → rest_as_body text k ≡ got b n
      → Accepted (response_of v s h b)
  unfolding try_get_status try_get_version
  read-Accepted v s h b o p k n at_version at_status at_headers at_body =
      let (v_end, v_within) =
        try_get_token-length version_string http_version_strings parse_error_version text 0 v o
          (refl, tt) at_version in
      let (s_end, s_within) =
        try_get_token-length status_text http_status_strings parse_error_status text (o + 1) s p
          (refl, (refl, (refl, (refl, tt)))) at_status in
      let (ok, h_end, h_within) =
        try_get_headers-IsHeader text fits whole (p + 2) h k (omega arith) at_headers in
      (
        ok,
        omega
            (arith, length-to_string (response_of v s h b), rest_as_body-length text k b n at_body),
      )

  scan_response-Accepted : (r : HttpResponse) (n : ℕ) → scan_response text 0 ≡ got r n → Accepted r
  unfolding scan_response
  scan_response-Accepted r n h = next-got_elim (try_get_version text 0) _ h λ v o at_version h₁.
      next-got_elim (try_get_status text (o + 1)) _ h₁ λ s p at_status h₂.
        next-got_elim (try_get_headers text (p + 2)) _ h₂ λ hs k at_headers h₃.
          next-got_elim (rest_as_body text k) _ h₃ λ b e at_body h₄.
            subst Accepted (got_injective (response_of v s hs b) r e n h₄).0
              (read-Accepted v s hs b o p k e at_version at_status at_headers at_body)

-- Of a text in which no line end stands right behind a colon, at least four bytes below 2 ^ 64
-- bytes, that the parser takes for a response: the text of that response is at most four bytes
-- longer than the one that was read, and the parser takes it for the same response.
pub response-parse-again :
    (text : Bytes) (r : HttpResponse)
    → parse text ≡ value r
    → find_first empty_value text ≡ none
    → length text + 4 < 2 ^ 64
    → (parse (to_string r) ≡ value r) × (length (to_string r) ≤ length text + 4)
unfolding parse
response-parse-again text r h whole fits =
    let (n, read) = outcome-eq-value (scan_response text 0) h in
    let (ok, short) = scan_response-Accepted text (omega arith) whole r n read in
    (
      response-parse-to_string r record {
        headers_ok = ok;
        sorted = subst (EndsAs text) h (response-parse-EndsAs text);
        fits = omega (arith, short);
      },
      short,
    )
