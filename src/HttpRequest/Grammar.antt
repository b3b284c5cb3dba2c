-- ===== src/HttpRequest/Grammar.antt =====
-- The texts that `http_request::parse` (shared/src/http_request.cpp) accepts, described without
-- offsets.
use pine_http.Prelude.{
  ℕ, ◌+◌, ◌^◌, ◌<◌, ◌≡◌, ◌↔◌, refl, sym, ap, ◌∙◌, subst, [], ◌∷◌, ◌++◌, arith, length, drop,
  drop-past, ltb, inl, inr, Bool-cases,
}
use pine_http.Text.{Bytes}
use pine_http.Text.Find.{Free}
use pine_http.Text.Cursor.{At, At-start, At-skip, At-drop_rest}
use pine_http.Text.Bounds.{substr_from_in_range}
use pine_http.OrderedMap.Entered.{entered}
use pine_http.Http.{
  HttpMethod, HttpVersion, method_string, version_string, http_method_strings, http_version_strings,
}
use pine_http.Http.Scan.{got, next-got_elim, outcome-eq-value, value}
use pine_http.Http.Utils.{
  HeaderMap, try_get_method, try_get_uri, try_get_version, try_get_headers, try_get_body,
}
use pine_http.Http.Tokens.{try_get_method-print, try_get_version-print, try_get_uri-print}
use pine_http.Http.Accepted.{drop-drop}
use pine_http.Http.Grammar.{Lines}
use pine_http.Http.Grammar.Tokens.{separator-drop, try_get_token-drop, try_get_uri-drop}
use pine_http.Errors.{parse_error_method, parse_error_version}
use pine_http.Http.Grammar.Loop.{try_get_headers-Lines, Lines-try_get_headers}
use pine_http.HttpRequest.{HttpRequest, make_request, rest_as_body, scan_request, parse}

-- A request as the parser takes it: a method, one byte, a slash and a path up to a space, a version,
-- two bytes (or what is left, if that is less), and header lines with the body behind them.
pub data Accepts : Bytes → HttpRequest → Type 0 where
  accepts :
      (m : HttpMethod) (separator : ℕ) (path : Bytes) (v : HttpVersion) (after : Bytes)
      (lines : HeaderMap) (body : Bytes)
      → Free b' ' path
      → Lines (drop 2 after) lines body
      → Accepts
          (method_string m
            ++ (separator ∷ ((b'/' ∷ path) ++ ((b' ' ∷ []) ++ (version_string v ++ after)))))
          (make_request m (b'/' ∷ path) v (entered lines []) body)

rest_as_body-drop : (text : Bytes) (o : ℕ) → (n : ℕ) × (rest_as_body text o ≡ got (drop o text) n)
unfolding rest_as_body try_get_body
rest_as_body-drop text o = elim (Bool-cases (ltb o (length text))) [
  | inl left ↦ (length text, ground (arith, substr_from_in_range text o (ground arith)))
  | inr over ↦ (o, rw over (ap (λ b. got b o) (sym (drop-past o text (ground arith)))))
]

pub Accepts-parse :
    {text : Bytes} {r : HttpRequest} → Accepts text r → length text < 2 ^ 64 → parse text ≡ value r
unfolding parse scan_request
Accepts-parse {text} (accepts m separator path v after lines body free ls) fits =
    rw
      (
        try_get_method-print m _ at_method,
        try_get_uri-print path _ free fits at_uri,
        try_get_version-print v _ at_version,
        headers.1,
        (rest_as_body-drop text headers.0).1,
      )
      (ap (λ b. value (make_request m (b'/' ∷ path) v (entered lines []) b)) headers.2)
  where
    at_method :
        At text
          (method_string m
            ++ (separator ∷ ((b'/' ∷ path) ++ ((b' ' ∷ []) ++ (version_string v ++ after)))))
          0
    at_method = At-start text

    uri_at : ℕ
    uri_at = 0 + length (method_string m) + 1

    version_at : ℕ
    version_at = uri_at + length (b'/' ∷ path) + 1

    headers_at : ℕ
    headers_at = version_at + length (version_string v) + 2

    at_uri : At text ((b'/' ∷ path) ++ ((b' ' ∷ []) ++ (version_string v ++ after))) uri_at
    at_uri = At-skip (separator ∷ []) (At-skip (method_string m) at_method)

    at_version : At text (version_string v ++ after) version_at
    at_version = At-skip (b' ' ∷ []) (At-skip (b'/' ∷ path) at_uri)

    at_after : At text after (version_at + length (version_string v))
    at_after = At-skip (version_string v) at_version

    headers :
        (o' : ℕ) × (try_get_headers text headers_at ≡ got (entered lines []) o')
        × (drop o' text ≡ body)
    headers = Lines-try_get_headers text fits headers_at ls (
        sym (drop-drop 2 (version_at + length (version_string v)) text)
        ∙ ap (drop 2) (At-drop_rest at_after))

module _ (text : Bytes) (fits : length text < 2 ^ 64) where
  parts-Accepts :
      (m : HttpMethod) (u : Bytes) (v : HttpVersion) (h : HeaderMap) (o p q k : ℕ)
      → try_get_method text 0 ≡ got m o
      → try_get_uri text (o + 1) ≡ got u p
      → try_get_version text (p + 1) ≡ got v q
      → try_get_headers text (q + 2) ≡ got h k
      → (r : HttpRequest) × Accepts text r
  unfolding try_get_method try_get_version
  parts-Accepts m u v h o p q k at_method at_uri at_version at_headers =
      let method_is =
        try_get_token-drop method_string http_method_strings parse_error_method text 0 m o
          (refl, (refl, (refl, tt))) at_method in
      let (path, free, uri_is) = try_get_uri-drop text (o + 1) u p at_uri in
      let (separator, separator_is) = separator-drop text o (omega (arith, ap length uri_is)) in
      let version_is =
        try_get_token-drop version_string http_version_strings parse_error_version text (p + 1) v q
          (refl, tt) at_version in
      let (lines, ls, same) = try_get_headers-Lines text fits (q + 2) h k at_headers in
      let after : Lines (drop 2 (drop q text)) lines (drop k text) =
        subst (λ s. Lines s lines (drop k text)) (sym (drop-drop 2 q text)) ls in
      (
        _,
        subst (λ t. Accepts t (make_request m (b'/' ∷ path) v (entered lines []) (drop k text)))
            (sym (
              method_is
              ∙ ap (λ t. method_string m ++ t)
                  (separator_is
                    ∙ ap (λ t. separator ∷ t)
                        (uri_is ∙ ap (λ t. (b'/' ∷ path) ++ (b' ' ∷ t)) version_is))))
            (accepts m separator path v (drop q text) lines (drop k text) free after),
      )

  scan_request-Accepts :
      (r : HttpRequest) (n : ℕ)
      → scan_request text 0 ≡ got r n
      → (r' : HttpRequest) × Accepts text r'
  unfolding scan_request
  scan_request-Accepts r n h = next-got_elim (try_get_method text 0) _ h λ m o at_method h₁.
      next-got_elim (try_get_uri text (o + 1)) _ h₁ λ u p at_uri h₂.
        next-got_elim (try_get_version text (p + 1)) _ h₂ λ v q at_version h₃.
          next-got_elim (try_get_headers text (q + 2)) _ h₃ λ hs k at_headers h₄.
            parts-Accepts m u v hs o p q k at_method at_uri at_version at_headers

-- A text below 2 ^ 64 bytes is parsed to a request exactly if it is a method, one byte, a URI of a
-- slash and bytes other than spaces, a space, a version, two bytes or what is left if that is less,
-- header lines, and an empty line with the body behind it or nothing more; and the request is the one
-- that the text holds in this reading, where a later header takes the place of an earlier one with
-- the same name. A header line is a name without colons, a colon, one byte, and a value, where neither
-- the name nor the byte with the value hold a line end (a carriage return followed by a line feed),
-- and a line end; or such a name and a colon with a line end right behind it, and then its value is all
-- that follows the carriage return.
pub request-parse-Accepts :
    (text : Bytes) (r : HttpRequest)
    → length text < 2 ^ 64
    → (parse text ≡ value r) ↔ Accepts text r
unfolding parse
request-parse-Accepts text r fits = (
  λ h.
      let (n, read) = outcome-eq-value (scan_request text 0) h in
      let (r', a) = scan_request-Accepts text fits r n read in
      let same : value r' ≡ value r = sym (Accepts-parse a fits) ∙ h in subst (Accepts text) (cc) a,
  λ a. Accepts-parse a fits,
)
