-- ===== src/HttpResponse/Classified.antt =====
-- Every text is accepted by `http_response::parse` (shared/src/http_response.cpp), refused, or cut.
use pine_http.Prelude.{
  ℕ, ◌^◌, ◌<◌, ◌≡◌, ◌≢◌, ◌↔◌, refl, sym, ap, ◌∙◌, subst, ◌⊎◌, inl, inr, [], ◌∷◌, ◌++◌, arith,
  length, length-append, length-drop, append-nil, drop,
}
use pine_http.Text.{Bytes}
use pine_http.Errors.{ErrorCode}
use pine_http.Http.{
  HttpStatus, HttpVersion, status_text, version_string, http_status_strings, http_version_strings,
}
use pine_http.Http.Scan.{Outcome, unexpected, raised, unfinished}
use pine_http.Http.Grammar.Refused.{named-or_not, Lines-cases}
use pine_http.HttpResponse.{HttpResponse, parse}
use pine_http.HttpResponse.Outcomes.{IsCut, response-parse-raised}
use pine_http.HttpResponse.Grammar.{Accepts, accepts, Accepts-parse}
use pine_http.HttpResponse.Refused.{Refuses, no_version, no_status, no_headers, Refuses-parse}

-- Every text is accepted, refused, or cut.
Known : Bytes → Type 0
Known text =
    ((r : HttpResponse) × Accepts text r) ⊎ (((e : ErrorCode) × Refuses text e) ⊎ IsCut text)

lines-Known :
    (v : HttpVersion) (separator : ℕ) (status : HttpStatus) (after : Bytes)
    → length after < 2 ^ 64
    → Known (version_string v ++ (separator ∷ (status_text status ++ after)))
unfolding Known
lines-Known v separator status after fits =
    elim (Lines-cases (drop 2 after) (omega (arith, length-drop 2 after))) [
      | inl (lines, body, ls) ↦ inl (_, accepts v separator status after lines body ls)
      | inr none' ↦ inr (inl (_, no_headers v separator status after none'))
    ]

version-Known :
    (v : HttpVersion) (rest : Bytes) → length rest < 2 ^ 64 → Known (version_string v ++ rest)
unfolding Known
version-Known v [] fits = inr (inr (v, append-nil (version_string v)))
version-Known v (separator ∷ rest) fits =
    elim (named-or_not status_text http_status_strings rest (refl, (refl, (refl, (refl, tt))))) [
      | inr h ↦ inr (inl (_, no_status v separator rest h))
      | inl (status, after, e) ↦
          subst (λ t. Known (version_string v ++ (separator ∷ t))) (sym e)
            (lines-Known v separator status after
              (omega (arith, ap length e, length-append (status_text status) after)))
    ]

text-Known : (text : Bytes) → length text < 2 ^ 64 → Known text
unfolding Known
text-Known text fits = elim (named-or_not version_string http_version_strings text (refl, tt)) [
  | inr h ↦ inr (inl (_, no_version text h))
  | inl (v, rest, e) ↦
      subst Known (sym e)
        (version-Known v rest (omega (arith, ap length e, length-append (version_string v) rest)))
]

cut-raised : (text : Bytes) → IsCut text → parse text ≡ raised
cut-raised text (v, e) = ap parse e ∙ response-parse-raised v

-- A text below 2 ^ 64 bytes is refused exactly in these cases, each with its error: it starts with no
-- version (the error of the version); one byte behind the version stands no status (the error of the
-- status); or what stands two bytes behind the status does not start with header lines up to an empty
-- line or to the end (the error of the headers). An exception leaves the parser exactly if the text is
-- a version and nothing else. And the parser ends within its fuel.
pub response-parse-Refuses :
    (text : Bytes) (e : ErrorCode)
    → length text < 2 ^ 64
    → ((parse text ≡ unexpected e) ↔ Refuses text e)
      × ((parse text ≡ raised) ↔ IsCut text)
      × (parse text ≢ unfinished)
unfolding Known
response-parse-Refuses text e fits = (
  (
    λ h. elim (text-Known text fits) [
      | inl (r, a) ↦ cc (h, Accepts-parse a fits)
      | inr (inl (e', refuses)) ↦
          let same : ◌≡◌ {A = Outcome HttpResponse} (unexpected e') (unexpected e) =
            sym (Refuses-parse refuses fits) ∙ h in
          subst (Refuses text) (cc) refuses
      | inr (inr cut) ↦ cc (h, cut-raised text cut)
    ],
    λ refuses. Refuses-parse refuses fits,
  ),
  (
    λ h. elim (text-Known text fits) [
      | inl (r, a) ↦ cc (h, Accepts-parse a fits)
      | inr (inl (e', refuses)) ↦ cc (h, Refuses-parse refuses fits)
      | inr (inr cut) ↦ cut
    ],
    cut-raised text,
  ),
  λ h. elim (text-Known text fits) [
    | inl (r, a) ↦ cc (h, Accepts-parse a fits)
    | inr (inl (e', refuses)) ↦ cc (h, Refuses-parse refuses fits)
    | inr (inr cut) ↦ cc (h, cut-raised text cut)
  ],
)
