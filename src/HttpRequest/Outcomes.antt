-- ===== src/HttpRequest/Outcomes.antt =====
-- How the parser of requests ends, on every text.
use pine_http.Prelude.{
  ℕ, ◌+◌, ◌^◌, ◌≤◌, ◌<◌, ◌≡◌, refl, inl, inr, [], ◌∷◌, ◌++◌, none, arith, ap, subst, zero, suc,
  length, ltb, length-append, Bool-cases,
}
use pine_http.Text.{Bytes, at}
use pine_http.Text.Bounds.{substr_from_in_range}
use pine_http.OrderedMap.{IsSorted}
use pine_http.Errors.{parse_error_method, parse_error_version}
use pine_http.Http.{HttpMethod, method_string, http_method_strings, http_version_strings}
use pine_http.Http.Scan.{
  Scan, got, failed, thrown, out_of_fuel, Outcome, value, unexpected, raised, unfinished, outcome,
}
use pine_http.Http.Utils.{
  try_get_method, try_get_uri, try_get_version, try_get_headers, try_get_body,
}
use pine_http.Http.Stages.{
  IsParseError, IsUri, Post, next-Post, Post-weaken, Begins, try_get_token-Begins,
  try_get_token-Post, try_get_headers-Post, try_get_uri-ReadsUri,
}
use pine_http.Text.Cursor.{At, At-start}
use pine_http.Http.Tokens.{try_get_method-print}
use pine_http.HttpRequest.{HttpRequest, rest_as_body, scan_request, parse, make_request}

-- A text that is a method followed by at most one byte.
abbrev pub IsCut : Bytes → Type 0
IsCut text =
    (m : HttpMethod) × (rest : Bytes) × (text ≡ method_string m ++ rest) × (length rest ≤ 1)

-- Each way to end, and what is known then.
abbrev pub EndsAs : Bytes → Outcome HttpRequest → Type 0
EndsAs text (value r) = IsUri r.uri × IsSorted r.headers
EndsAs text (unexpected e) = IsParseError e
EndsAs text raised = IsCut text
EndsAs text unfinished = ⊥

rest_as_body-Post : (text : Bytes) (o : ℕ) → Post (λ b o'. Unit {0}) ⊥ (rest_as_body text o)
unfolding rest_as_body try_get_body
rest_as_body-Post text o = elim (Bool-cases (ltb o (length text))) [
  | inl left ↦ ground (arith, substr_from_in_range text o)
  | inr over ↦ rw over tt
]

abbrev Accepted : HttpRequest → ℕ → Type 0
Accepted r o = IsUri r.uri × IsSorted r.headers

try_get_method-Begins : (text : Bytes) → Post (Begins method_string text) ⊥ (try_get_method text 0)
unfolding try_get_method
try_get_method-Begins text =
    try_get_token-Begins method_string http_method_strings parse_error_method text
      (refl, (refl, (refl, tt))) (inl refl)

try_get_version-Post :
    (text : Bytes) (o : ℕ)
    → o ≤ length text
    → Post (λ v o'. o' ≤ length text) ⊥ (try_get_version text o)
unfolding try_get_version
try_get_version-Post text o h =
    try_get_token-Post http_version_strings parse_error_version text o h (inr (inr (inl refl)))

-- Where the URI cannot be read at all, the text is cut.
Begins-IsCut :
    (text : Bytes) (m : HttpMethod) (o : ℕ)
    → Begins method_string text m o
    → length text ≤ o + 1
    → IsCut text
Begins-IsCut text m o (rest, splits, at_rest) short =
    (m, rest, splits, omega (arith, ap length splits, length-append (method_string m) rest))

scan_request-Post :
    (text : Bytes) → length text < 2 ^ 64 → Post Accepted (IsCut text) (scan_request text 0)
unfolding scan_request make_request
scan_request-Post text fits =
    next-Post (Begins method_string text) Accepted _ (try_get_method text 0) _
      (Post-weaken _ (try_get_method text 0) absurd (try_get_method-Begins text))
      λ m o begins.
        next-Post (λ u o'. IsUri u × (o' + 1 ≤ length text)) Accepted _ (try_get_uri text (o + 1)) _
          (Post-weaken _ (try_get_uri text (o + 1)) (Begins-IsCut text m o begins)
            (try_get_uri-ReadsUri text (o + 1) fits))
          λ u o' is_uri.
            next-Post (λ v n. n ≤ length text) Accepted _ (try_get_version text (o' + 1)) _
              (Post-weaken _ (try_get_version text (o' + 1)) absurd
                (try_get_version-Post text (o' + 1) is_uri.1))
              λ v n within.
                next-Post (λ h k. IsSorted h) Accepted _ (try_get_headers text (n + 2)) _
                  (Post-weaken _ (try_get_headers text (n + 2)) absurd
                    (try_get_headers-Post text (n + 2)))
                  λ h k sorted.
                    next-Post (λ b j. Unit {0}) Accepted _ (rest_as_body text k) _
                      (Post-weaken _ (rest_as_body text k) absurd (rest_as_body-Post text k))
                      λ b j _. (is_uri.0, sorted)

outcome-EndsAs :
    (text : Bytes) (r : Scan HttpRequest) → Post Accepted (IsCut text) r → EndsAs text (outcome r)
outcome-EndsAs text (got r o) h = h
outcome-EndsAs text (failed e o) h = h
outcome-EndsAs text thrown h = h
outcome-EndsAs text out_of_fuel h = h

-- On a text below 2 ^ 64 bytes the parser ends within its fuel. A request that it gives has a URI
-- that starts with a slash and holds no space behind it, and headers with ascending keys. An error
-- is one of the parse errors of a message, that of the body excepted. An exception leaves it only
-- if the text is a method followed by at most one byte.
pub request-parse-EndsAs : (text : Bytes) → length text < 2 ^ 64 → EndsAs text (parse text)
unfolding parse
request-parse-EndsAs text fits = outcome-EndsAs text _ (scan_request-Post text fits)

at_past : (text : Bytes) (o : ℕ) → length text ≤ o → at text o ≡ none
unfolding at
at_past [] o h = refl
at_past (c ∷ text) zero h = absurd (omega arith)
at_past (c ∷ text) (suc o) h = at_past text o (omega arith)

-- A text that is a method followed by at most one byte is not refused by an error: an exception
-- leaves the parser.
pub request-parse-raised : (text : Bytes) → IsCut text → parse text ≡ raised
unfolding parse scan_request try_get_uri
request-parse-raised text (m, rest, splits, short) =
    rw (try_get_method-print m rest at_method, past)
  where
    at_method : At text (method_string m ++ rest) 0
    at_method = subst (λ r. At text r 0) splits (At-start text)

    past : at text (0 + length (method_string m) + 1) ≡ none
    past = at_past text _ (omega (arith, ap length splits, length-append (method_string m) rest))
