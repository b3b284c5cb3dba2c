-- ===== src/HttpRequest/Refused.antt =====
-- The texts that `http_request::parse` (shared/src/http_request.cpp) refuses, with the error that it
-- gives.
use pine_http.Prelude.{
  ℕ, ◌+◌, ◌^◌, ◌<◌, ◌≡◌, ◌≢◌, refl, sym, ap, ◌∙◌, subst, inl, inr, [], ◌∷◌, ◌++◌, arith, length,
  drop, ne→==_false,
}
use pine_http.Text.{Bytes}
use pine_http.Text.Find.{Free, find_first-none}
use pine_http.Text.Cursor.{At, At-start, At-skip, At-at, At-find, At-drop_rest}
use pine_http.Errors.{
  ErrorCode, make_error_code, parse_error_method, parse_error_uri, parse_error_version,
  parse_error_headers,
}
use pine_http.Http.{
  HttpMethod, HttpVersion, method_string, version_string, http_method_strings, http_version_strings,
}
use pine_http.Http.Scan.{got, failed, unexpected}
use pine_http.Http.Utils.{HeaderMap, try_get_method, try_get_uri, try_get_version, uri_to}
use pine_http.Http.Tokens.{try_get_method-print, try_get_version-print, try_get_uri-print}
use pine_http.Http.Accepted.{drop-drop}
use pine_http.Http.Grammar.{Lines}
use pine_http.Http.Grammar.Refused.{Unnamed, try_get_token-Unnamed, Lines-or_not}
use pine_http.HttpRequest.{scan_request, parse}

-- A text that is refused, and the error: no method stands at its start; no slash stands one byte
-- behind the method; no space stands behind the slash; no version stands behind the space; or no header
-- lines stand two bytes behind the version.
pub data Refuses : Bytes → ErrorCode → Type 0 where
  no_method :
      (text : Bytes)
      → Unnamed text http_method_strings
      → Refuses text (make_error_code parse_error_method)
  no_slash :
      (m : HttpMethod) (separator c : ℕ) (rest : Bytes)
      → c ≢ b'/'
      → Refuses (method_string m ++ (separator ∷ c ∷ rest)) (make_error_code parse_error_uri)
  no_space :
      (m : HttpMethod) (separator : ℕ) (path : Bytes)
      → Free b' ' path
      → Refuses (method_string m ++ (separator ∷ b'/' ∷ path)) (make_error_code parse_error_uri)
  no_version :
      (m : HttpMethod) (separator : ℕ) (path rest : Bytes)
      → Free b' ' path
      → Unnamed rest http_version_strings
      → Refuses
          (method_string m ++ (separator ∷ ((b'/' ∷ path) ++ ((b' ' ∷ []) ++ rest))))
          (make_error_code parse_error_version)
  no_headers :
      (m : HttpMethod) (separator : ℕ) (path : Bytes) (v : HttpVersion) (after : Bytes)
      → Free b' ' path
      → ((lines : HeaderMap) (body : Bytes) → ¬ Lines (drop 2 after) lines body)
      → Refuses
          (method_string m
            ++ (separator ∷ ((b'/' ∷ path) ++ ((b' ' ∷ []) ++ (version_string v ++ after)))))
          (make_error_code parse_error_headers)

try_get_method-Unnamed :
    (text : Bytes)
    → Unnamed text http_method_strings
    → try_get_method text 0 ≡ failed (make_error_code parse_error_method) 0
unfolding try_get_method
try_get_method-Unnamed text h =
    try_get_token-Unnamed http_method_strings parse_error_method (At-start text) h

try_get_version-Unnamed :
    {text rest : Bytes} {o : ℕ}
    → At text rest o
    → Unnamed rest http_version_strings
    → try_get_version text o ≡ failed (make_error_code parse_error_version) o
unfolding try_get_version
try_get_version-Unnamed p h = try_get_token-Unnamed http_version_strings parse_error_version p h

-- The place behind the method and one byte.
module _ (m : HttpMethod) (separator : ℕ) (rest : Bytes) where
  abbrev uri_at : ℕ
  uri_at = 0 + length (method_string m) + 1

  At-uri : At (method_string m ++ (separator ∷ rest)) rest uri_at
  At-uri = At-skip (separator ∷ []) (At-skip (method_string m) (At-start _))

  method_read :
      try_get_method (method_string m ++ (separator ∷ rest)) 0
      ≡ got m (0 + length (method_string m))
  method_read = try_get_method-print m (separator ∷ rest) (At-start _)

module _ (m : HttpMethod) (separator : ℕ) (path rest : Bytes) where
  abbrev pub uri_text : Bytes
  uri_text = (b'/' ∷ path) ++ ((b' ' ∷ []) ++ rest)

  abbrev version_at : ℕ
  version_at = uri_at m separator uri_text + length (b'/' ∷ path) + 1

  At-version : At (method_string m ++ (separator ∷ uri_text)) rest version_at
  At-version = At-skip (b' ' ∷ []) (At-skip (b'/' ∷ path) (At-uri m separator uri_text))

  uri_read :
      Free b' ' path
      → length (method_string m ++ (separator ∷ uri_text)) < 2 ^ 64
      → try_get_uri (method_string m ++ (separator ∷ uri_text)) (uri_at m separator uri_text)
        ≡ got (b'/' ∷ path) (uri_at m separator uri_text + length (b'/' ∷ path))
  uri_read free fits = try_get_uri-print path rest free fits (At-uri m separator uri_text)

no_slash-refused :
    (m : HttpMethod) (separator c : ℕ) (rest : Bytes)
    → c ≢ b'/'
    → try_get_uri (method_string m ++ (separator ∷ c ∷ rest)) (uri_at m separator (c ∷ rest))
      ≡ failed (make_error_code parse_error_uri) (uri_at m separator (c ∷ rest))
unfolding try_get_uri
no_slash-refused m separator c rest other =
    rw (At-at c rest (At-uri m separator (c ∷ rest)), ne→==_false c b'/' other) refl

no_space-refused :
    (m : HttpMethod) (separator : ℕ) (path : Bytes)
    → Free b' ' path
    → try_get_uri (method_string m ++ (separator ∷ b'/' ∷ path)) (uri_at m separator (b'/' ∷ path))
      ≡ failed (make_error_code parse_error_uri) (uri_at m separator (b'/' ∷ path))
unfolding try_get_uri uri_to
no_space-refused m separator path free =
    rw
      (
        At-at b'/' path (At-uri m separator (b'/' ∷ path)),
        At-find (At-uri m separator (b'/' ∷ path)) (b' ' ∷ []),
        find_first-none b' ' [] (b'/' ∷ path) (λ e. ground arith, free),
      )
      refl

pub Refuses-parse :
    {text : Bytes} {e : ErrorCode}
    → Refuses text e
    → length text < 2 ^ 64
    → parse text ≡ unexpected e
unfolding parse scan_request
Refuses-parse (no_method text h) fits = rw (try_get_method-Unnamed text h) refl
Refuses-parse (no_slash m separator c rest other) fits =
    rw (method_read m separator (c ∷ rest), no_slash-refused m separator c rest other) refl
Refuses-parse (no_space m separator path free) fits =
    rw (method_read m separator (b'/' ∷ path), no_space-refused m separator path free) refl
Refuses-parse (no_version m separator path rest free h) fits =
    rw
      (
        method_read m separator (uri_text m separator path rest),
        uri_read m separator path rest free fits,
        try_get_version-Unnamed (At-version m separator path rest) h,
      )
      refl
Refuses-parse (no_headers m separator path v after free h) fits =
    elim (Lines-or_not _ fits (version_at m separator path rest + length (version_string v) + 2)) [
      | inl (lines, body, ls) ↦ absurd (h lines body (subst (λ s. Lines s lines body) at_lines ls))
      | inr (n, refused) ↦
          rw
            (
              method_read m separator (uri_text m separator path rest),
              uri_read m separator path rest free fits,
              try_get_version-print v after (At-version m separator path rest),
              refused,
            )
            refl
    ]
  where
    rest : Bytes
    rest = version_string v ++ after

    at_lines :
        drop
          (version_at m separator path rest + length (version_string v) + 2)
          (method_string m ++ (separator ∷ uri_text m separator path rest))
        ≡ drop 2 after
    at_lines =
        sym (drop-drop 2 (version_at m separator path rest + length (version_string v)) _)
        ∙ ap (drop 2) (At-drop_rest (At-skip (version_string v) (At-version m separator path rest)))
