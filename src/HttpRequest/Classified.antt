-- ===== src/HttpRequest/Classified.antt =====
-- Every text is accepted by `http_request::parse` (shared/src/http_request.cpp), refused, or cut.
use pine_http.Prelude.{
  ℕ, ◌^◌, ◌<◌, ◌≡◌, ◌≢◌, ◌↔◌, refl, sym, ap, ◌∙◌, subst, ◌⊎◌, inl, inr, [], ◌∷◌, ◌++◌, arith,
  length, length-append, length-drop, drop, ==_iff, ◌==◌, Bool-cases,
}
use pine_http.Text.{Bytes}
use pine_http.Text.Find.{Free}
use pine_http.Errors.{ErrorCode}
use pine_http.Http.{
  HttpMethod, HttpVersion, method_string, version_string, http_method_strings, http_version_strings,
}
use pine_http.Http.Scan.{Outcome, unexpected, raised, unfinished}
use pine_http.Http.Grammar.Refused.{named-or_not, space-or_not, Lines-cases}
use pine_http.HttpRequest.{HttpRequest, parse}
use pine_http.HttpRequest.Outcomes.{IsCut, request-parse-raised}
use pine_http.HttpRequest.Grammar.{Accepts, accepts, Accepts-parse}
use pine_http.HttpRequest.Refused.{
  Refuses, no_method, no_slash, no_space, no_version, no_headers, uri_text, Refuses-parse,
}

-- Every text is accepted, refused, or cut.
Known : Bytes → Type 0
Known text =
    ((r : HttpRequest) × Accepts text r) ⊎ (((e : ErrorCode) × Refuses text e) ⊎ IsCut text)

lines-Known :
    (m : HttpMethod) (separator : ℕ) (path : Bytes) (v : HttpVersion) (after : Bytes)
    → Free b' ' path
    → length after < 2 ^ 64
    → Known (method_string m ++ (separator ∷ uri_text m separator path (version_string v ++ after)))
unfolding Known
lines-Known m separator path v after free fits =
    elim (Lines-cases (drop 2 after) (omega (arith, length-drop 2 after))) [
      | inl (lines, body, ls) ↦ inl (_, accepts m separator path v after lines body free ls)
      | inr none' ↦ inr (inl (_, no_headers m separator path v after free none'))
    ]

version-Known :
    (m : HttpMethod) (separator : ℕ) (path rest : Bytes)
    → Free b' ' path
    → length rest < 2 ^ 64
    → Known (method_string m ++ (separator ∷ uri_text m separator path rest))
unfolding Known
version-Known m separator path rest free fits =
    elim (named-or_not version_string http_version_strings rest (refl, tt)) [
      | inr h ↦ inr (inl (_, no_version m separator path rest free h))
      | inl (v, after, e) ↦
          subst (λ t. Known (method_string m ++ (separator ∷ uri_text m separator path t))) (sym e)
            (lines-Known m separator path v after free
              (omega (arith, ap length e, length-append (version_string v) after)))
    ]

uri-Known :
    (m : HttpMethod) (separator : ℕ) (s : Bytes)
    → length s < 2 ^ 64
    → Known (method_string m ++ (separator ∷ b'/' ∷ s))
unfolding Known
uri-Known m separator s fits = elim (space-or_not s) [
  | inr free ↦ inr (inl (_, no_space m separator s free))
  | inl (path, rest, free, e) ↦
      subst (λ t. Known (method_string m ++ (separator ∷ b'/' ∷ t))) (sym e)
        (version-Known m separator path rest free
          (omega (arith, ap length e, length-append path ((b' ' ∷ []) ++ rest))))
]

method-Known :
    (m : HttpMethod) (rest : Bytes) → length rest < 2 ^ 64 → Known (method_string m ++ rest)
unfolding Known
method-Known m [] fits = inr (inr (m, [], refl, omega arith))
method-Known m (x ∷ []) fits = inr (inr (m, x ∷ [], refl, omega arith))
method-Known m (separator ∷ c ∷ rest) fits = elim (Bool-cases (c == b'/')) [
  | inr other ↦ inr (inl (_, no_slash m separator c rest (λ e. ground arith)))
  | inl slash ↦
      subst (λ x. Known (method_string m ++ (separator ∷ x ∷ rest))) (sym ((==_iff c b'/').0 slash))
        (uri-Known m separator rest (omega arith))
]

text-Known : (text : Bytes) → length text < 2 ^ 64 → Known text
unfolding Known
text-Known text fits =
    elim (named-or_not method_string http_method_strings text (refl, (refl, (refl, tt)))) [
      | inr h ↦ inr (inl (_, no_method text h))
      | inl (m, rest, e) ↦
          subst Known (sym e)
            (method-Known m rest (omega (arith, ap length e, length-append (method_string m) rest)))
    ]

-- A text below 2 ^ 64 bytes is refused exactly in these cases, each with its error: it starts with no
-- method (the error of the method); one byte behind the method stands something other than a slash,
-- or no space stands behind that slash (the error of the URI); behind the first such space stands no
-- version (the error of the version); or what stands two bytes behind the version does not start with
-- header lines up to an empty line or to the end (the error of the headers). An exception leaves the
-- parser exactly if the text is a method followed by at most one byte. And the parser ends within its fuel.
pub request-parse-Refuses :
    (text : Bytes) (e : ErrorCode)
    → length text < 2 ^ 64
    → ((parse text ≡ unexpected e) ↔ Refuses text e)
      × ((parse text ≡ raised) ↔ IsCut text)
      × (parse text ≢ unfinished)
unfolding Known
request-parse-Refuses text e fits = (
  (
    λ h. elim (text-Known text fits) [
      | inl (r, a) ↦ cc (h, Accepts-parse a fits)
      | inr (inl (e', refuses)) ↦
          let same : ◌≡◌ {A = Outcome HttpRequest} (unexpected e') (unexpected e) =
            sym (Refuses-parse refuses fits) ∙ h in
          subst (Refuses text) (cc) refuses
      | inr (inr cut) ↦ cc (h, request-parse-raised text cut)
    ],
    λ refuses. Refuses-parse refuses fits,
  ),
  (
    λ h. elim (text-Known text fits) [
      | inl (r, a) ↦ cc (h, Accepts-parse a fits)
      | inr (inl (e', refuses)) ↦ cc (h, Refuses-parse refuses fits)
      | inr (inr cut) ↦ cut
    ],
    request-parse-raised text,
  ),
  λ h. elim (text-Known text fits) [
    | inl (r, a) ↦ cc (h, Accepts-parse a fits)
    | inr (inl (e', refuses)) ↦ cc (h, Refuses-parse refuses fits)
    | inr (inr cut) ↦ cc (h, request-parse-raised text cut)
  ],
)
