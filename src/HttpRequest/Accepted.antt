-- ===== src/HttpRequest/Accepted.antt =====
-- A request that has been parsed: it can be written, and is parsed again to the same request.
use pine_http.Prelude.{
  ℕ, ◌+◌, ◌-◌, ◌^◌, ◌≤◌, ◌<◌, ◌≡◌, refl, ap, ◌∙◌, subst, [], ◌∷◌, ◌++◌, none, arith, length, ltb,
  ltb→lt, ltb_false→le, lt→leb_false, drop, length-drop, length-append, inl, inr, Bool-cases, All,
}
use pine_http.Text.{Bytes, find_first}
use pine_http.Text.Bounds.{substr_from_in_range}
use pine_http.OrderedMap.{IsSorted}
use pine_http.Errors.{parse_error_method, parse_error_version}
use pine_http.Http.{
  HttpMethod, HttpVersion, method_string, http_method_strings, version_string, http_version_strings,
  crlf,
}
use pine_http.Http.Scan.{got, next-got_elim, outcome-eq-value, value}
use pine_http.Http.Utils.{
  HeaderMap, try_get_method, try_get_uri, try_get_version, try_get_headers, try_get_body,
}
use pine_http.Http.Print.{header_lines}
use pine_http.Http.Stages.{IsUri}
use pine_http.Http.Headers.{IsHeader}
use pine_http.Http.Accepted.{empty_value, got_injective}
use pine_http.Http.Accepted.Loop.{try_get_headers-IsHeader}
use pine_http.Http.Accepted.Tokens.{try_get_token-length, try_get_uri-length}
use pine_http.HttpRequest.{HttpRequest, make_request, to_string, rest_as_body, scan_request, parse}
use pine_http.HttpRequest.Outcomes.{EndsAs, request-parse-EndsAs}
use pine_http.HttpRequest.RoundTrip.{IsWritable, request-parse-to_string}

rest_as_body-length :
    (text : Bytes) (o : ℕ) (b : Bytes) (n : ℕ)
    → rest_as_body text o ≡ got b n
    → length b ≡ length text - o
unfolding rest_as_body try_get_body
rest_as_body-length text o b n h = elim (Bool-cases (ltb o (length text))) [
  | inl left ↦
      let cut = substr_from_in_range text o (ground arith) in
      omega (
        arith,
        ap length
            (got_injective (drop o text) b (length text) n
              (rw (left, lt→leb_false (length text) o (ltb→lt o (length text) left), cut) at h)).0,
        length-drop o text,
      )
  | inr over ↦ omega (
    arith,
    ap length (got_injective [] b o n (rw over at h)).0,
    ltb_false→le o (length text) over,
  )
]

length-to_string :
    (r : HttpRequest)
    → length (to_string r)
      ≡ length (method_string r.method)
        + 1
        + length r.uri
        + 1
        + length (version_string r.version)
        + 2
        + length (header_lines r.headers)
        + 2
        + length r.body
unfolding to_string
length-to_string r = omega (
  arith,
  length-append (method_string r.method) (b' ' ∷ (r.uri ++ (b' ' ∷ after_uri))),
  length-append r.uri (b' ' ∷ after_uri),
  length-append (version_string r.version) (crlf ++ (header_lines r.headers ++ (crlf ++ r.body))),
  length-append (header_lines r.headers) (crlf ++ r.body),
)
  where
    after_uri : Bytes
    after_uri = version_string r.version ++ (crlf ++ (header_lines r.headers ++ (crlf ++ r.body)))

module _ (text : Bytes) (fits : length text < 2 ^ 64)
    (whole : find_first empty_value text ≡ none) where
  abbrev Accepted : HttpRequest → Type 0
  Accepted r = All IsHeader r.headers × (length (to_string r) ≤ length text + 4)

  read-Accepted :
      (m : HttpMethod) (u : Bytes) (v : HttpVersion) (h : HeaderMap) (b : Bytes) (o p q k n : ℕ)
      → try_get_method text 0 ≡ got m o
      → try_get_uri text (o + 1) ≡ got u p
      → try_get_version text (p + 1) ≡ got v q
      → try_get_headers text (q + 2) ≡ got h k
      → rest_as_body text k ≡ got b n
      → Accepted (make_request m u v h b)
  unfolding make_request try_get_method try_get_version
  read-Accepted m u v h b o p q k n at_method at_uri at_version at_headers at_body =
      let (m_end, m_within) =
        try_get_token-length method_string http_method_strings parse_error_method text 0 m o
          (refl, (refl, (refl, tt))) at_method in
      let (u_end, u_within) = try_get_uri-length text (o + 1) u p fits at_uri in
      let (v_end, v_within) =
        try_get_token-length version_string http_version_strings parse_error_version text (p + 1) v
          q (refl, tt) at_version in
      let (ok, h_end, h_within) =
        try_get_headers-IsHeader text fits whole (q + 2) h k (omega arith) at_headers in
      (
        ok,
        omega (
          arith,
          length-to_string (make_request m u v h b),
          rest_as_body-length text k b n at_body,
        ),
      )

  scan_request-Accepted : (r : HttpRequest) (n : ℕ) → scan_request text 0 ≡ got r n → Accepted r
  unfolding scan_request
  scan_request-Accepted r n h = next-got_elim (try_get_method text 0) _ h λ m o at_method h₁.
      next-got_elim (try_get_uri text (o + 1)) _ h₁ λ u p at_uri h₂.
        next-got_elim (try_get_version text (p + 1)) _ h₂ λ v q at_version h₃.
          next-got_elim (try_get_headers text (q + 2)) _ h₃ λ hs k at_headers h₄.
            next-got_elim (rest_as_body text k) _ h₄ λ b e at_body h₅.
              subst Accepted (got_injective (make_request m u v hs b) r e n h₅).0
                (read-Accepted m u v hs b o p q k e at_method at_uri at_version at_headers at_body)

pub uri-IsWritable :
    (r : HttpRequest)
    → IsUri r.uri
    → IsSorted r.headers
    → All IsHeader r.headers
    → length (to_string r) < 2 ^ 64
    → IsWritable r
uri-IsWritable r is_uri sorted ok fits = split r.uri refl is_uri
  where
    split : (u : Bytes) → r.uri ≡ u → IsUri u → IsWritable r
    split [] e h = absurd h
    split (c ∷ path) e h = record {
      path = path;
      uri_is = e ∙ ap (λ x. x ∷ path) h.0;
      no_space = h.1;
      headers_ok = ok;
      sorted = sorted;
      fits = fits;
    }

-- Of a text in which no line end stands right behind a colon, at least four bytes below 2 ^ 64
-- bytes, that the parser takes for a request: the text of that request is at most four bytes longer
-- than the one that was read, and the parser takes it for the same request.
pub request-parse-again :
    (text : Bytes) (r : HttpRequest)
    → parse text ≡ value r
    → find_first empty_value text ≡ none
    → length text + 4 < 2 ^ 64
    → (parse (to_string r) ≡ value r) × (length (to_string r) ≤ length text + 4)
unfolding parse
request-parse-again text r h whole fits =
    let (n, read) = outcome-eq-value (scan_request text 0) h in
    let (ok, short) = scan_request-Accepted text (omega arith) whole r n read in
    let (is_uri, sorted) = subst (EndsAs text) h (request-parse-EndsAs text (omega arith)) in
    (request-parse-to_string r (uri-IsWritable r is_uri sorted ok (omega (arith, short))), short)
