-- ===== src/HttpResponse/Outcomes.antt =====
-- How the parser of responses ends, on every text.
use pine_http.Prelude.{
  ℕ, ◌+◌, ◌≤◌, ◌<◌, ◌≡◌, refl, inl, inr, [], ◌∷◌, arith, ap, length, ltb, leb, length-append,
  Bool-cases, append-nil, ◌∙◌,
}
use pine_http.Text.{Bytes, substr_from, starts_with}
use pine_http.Text.Bounds.{substr_from_in_range}
use pine_http.OrderedMap.{IsSorted}
use pine_http.Errors.{parse_error_status, parse_error_version}
use pine_http.Http.{
  HttpStatus, HttpVersion, http_1_1, version_string, http_version_strings, http_status_strings,
}
use pine_http.Http.Scan.{
  Scan, got, failed, thrown, out_of_fuel, Outcome, value, unexpected, raised, unfinished, outcome,
}
use pine_http.Http.Utils.{try_get_version, try_get_status, try_get_headers, try_get_body}
use pine_http.Http.Stages.{
  IsParseError, Post, next-Post, Post-weaken, Begins, try_get_token-Begins, try_get_token-Post,
  try_get_headers-Post,
}
use pine_http.HttpResponse.{HttpResponse, rest_as_body, scan_response, parse}

-- A text that is a version and nothing else.
abbrev pub IsCut : Bytes → Type 0
IsCut text = (v : HttpVersion) × (text ≡ version_string v)

-- Each way to end, and what is known then.
abbrev pub EndsAs : Bytes → Outcome HttpResponse → Type 0
EndsAs text (value r) = IsSorted r.headers
EndsAs text (unexpected e) = IsParseError e
EndsAs text raised = IsCut text
EndsAs text unfinished = ⊥

rest_as_body-Post : (text : Bytes) (o : ℕ) → Post (λ b o'. Unit {0}) ⊥ (rest_as_body text o)
unfolding rest_as_body try_get_body
rest_as_body-Post text o = elim (Bool-cases (ltb o (length text))) [
  | inl left ↦ ground (arith, substr_from_in_range text o)
  | inr over ↦ rw over tt
]

abbrev Accepted : HttpResponse → ℕ → Type 0
Accepted r o = IsSorted r.headers

try_get_version-Begins :
    (text : Bytes) → Post (Begins version_string text) ⊥ (try_get_version text 0)
unfolding try_get_version
try_get_version-Begins text =
    try_get_token-Begins version_string http_version_strings parse_error_version text (refl, tt)
      (inr (inr (inl refl)))

-- A status behind the end of the text is looked for in vain, by an exception.
try_get_status-Post :
    (text : Bytes) (o : ℕ) → Post (λ s o'. Unit {0}) (length text < o) (try_get_status text o)
try_get_status-Post text o = elim (Bool-cases (leb o (length text))) [
  | inl inside ↦ next-tt (try_get_status text o) (
      unfold try_get_status in
      try_get_token-Post http_status_strings parse_error_status text o (ground arith)
        (inr (inr (inr (inr refl)))))
  | inr outside ↦ unfold try_get_status substr_from in ground arith
]
  where
    next-tt :
        (m : Scan HttpStatus)
        → Post (λ s o'. o' ≤ length text) ⊥ m
        → Post (λ s o'. Unit {0}) (length text < o) m
    next-tt (got s n) h = tt
    next-tt (failed e n) h = h
    next-tt thrown h = absurd h
    next-tt out_of_fuel h = h

Begins-IsCut :
    (text : Bytes) (v : HttpVersion) (o : ℕ)
    → Begins version_string text v o
    → length text < o + 1
    → IsCut text
Begins-IsCut text v o ([], splits, at_rest) short = (v, splits ∙ append-nil (version_string v))
Begins-IsCut text v o (c ∷ rest, splits, at_rest) short =
    absurd (omega (arith, ap length splits, length-append (version_string v) (c ∷ rest)))

scan_response-Post : (text : Bytes) → Post Accepted (IsCut text) (scan_response text 0)
unfolding scan_response
scan_response-Post text =
    next-Post (Begins version_string text) Accepted _ (try_get_version text 0) _
      (Post-weaken _ (try_get_version text 0) absurd (try_get_version-Begins text))
      λ v o begins.
        next-Post (λ s o'. Unit {0}) Accepted _ (try_get_status text (o + 1)) _
          (Post-weaken _ (try_get_status text (o + 1)) (Begins-IsCut text v o begins)
            (try_get_status-Post text (o + 1)))
          λ s o' _.
            next-Post (λ h k. IsSorted h) Accepted _ (try_get_headers text (o' + 2)) _
              (Post-weaken _ (try_get_headers text (o' + 2)) absurd
                (try_get_headers-Post text (o' + 2)))
              λ h k sorted.
                next-Post (λ b j. Unit {0}) Accepted _ (rest_as_body text k) _
                  (Post-weaken _ (rest_as_body text k) absurd (rest_as_body-Post text k))
                  λ b j _. sorted

outcome-EndsAs :
    (text : Bytes) (r : Scan HttpResponse) → Post Accepted (IsCut text) r → EndsAs text (outcome r)
outcome-EndsAs text (got r o) h = h
outcome-EndsAs text (failed e o) h = h
outcome-EndsAs text thrown h = h
outcome-EndsAs text out_of_fuel h = h

-- On every text the parser ends within its fuel. A response that it gives has headers with
-- ascending keys. An error is one of the parse errors of a message, that of the body excepted. An
-- exception leaves it only if the text is a version and nothing else.
pub response-parse-EndsAs : (text : Bytes) → EndsAs text (parse text)
unfolding parse
response-parse-EndsAs text = outcome-EndsAs text _ (scan_response-Post text)

-- A text that is a version and nothing else is not refused by an error: an exception leaves the
-- parser.
pub response-parse-raised : (v : HttpVersion) → parse (version_string v) ≡ raised
unfolding parse scan_response version_string try_get_version try_get_status starts_with substr_from
response-parse-raised http_1_1 = refl
