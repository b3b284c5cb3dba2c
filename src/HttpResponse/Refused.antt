-- ===== src/HttpResponse/Refused.antt =====
-- The texts that `http_response::parse` (shared/src/http_response.cpp) refuses, with the error that it
-- gives.
use pine_http.Prelude.{
  ℕ, ◌+◌, ◌^◌, ◌<◌, ◌≡◌, refl, sym, ap, ◌∙◌, subst, inl, inr, [], ◌∷◌, ◌++◌, length, drop,
}
use pine_http.Text.{Bytes}
use pine_http.Text.Cursor.{At, At-start, At-skip, At-drop_rest}
use pine_http.Errors.{
  ErrorCode, make_error_code, parse_error_status, parse_error_version, parse_error_headers,
}
use pine_http.Http.{
  HttpStatus, HttpVersion, status_text, version_string, http_status_strings, http_version_strings,
}
use pine_http.Http.Scan.{got, failed, unexpected}
use pine_http.Http.Utils.{HeaderMap, try_get_status, try_get_version}
use pine_http.Http.Tokens.{try_get_version-print, try_get_status-print}
use pine_http.Http.Accepted.{drop-drop}
use pine_http.Http.Grammar.{Lines}
use pine_http.Http.Grammar.Refused.{Unnamed, try_get_token-Unnamed, Lines-or_not}
use pine_http.HttpResponse.{scan_response, parse}

-- A text that is refused, and the error: no version stands at its start; no status stands one byte
-- behind the version; or no header lines stand two bytes behind the status.
pub data Refuses : Bytes → ErrorCode → Type 0 where
  no_version :
      (text : Bytes)
      → Unnamed text http_version_strings
      → Refuses text (make_error_code parse_error_version)
  no_status :
      (v : HttpVersion) (separator : ℕ) (rest : Bytes)
      → Unnamed rest http_status_strings
      → Refuses (version_string v ++ (separator ∷ rest)) (make_error_code parse_error_status)
  no_headers :
      (v : HttpVersion) (separator : ℕ) (status : HttpStatus) (after : Bytes)
      → ((lines : HeaderMap) (body : Bytes) → ¬ Lines (drop 2 after) lines body)
      → Refuses
          (version_string v ++ (separator ∷ (status_text status ++ after)))
          (make_error_code parse_error_headers)

try_get_version-Unnamed :
    (text : Bytes)
    → Unnamed text http_version_strings
    → try_get_version text 0 ≡ failed (make_error_code parse_error_version) 0
unfolding try_get_version
try_get_version-Unnamed text h =
    try_get_token-Unnamed http_version_strings parse_error_version (At-start text) h

try_get_status-Unnamed :
    {text rest : Bytes} {o : ℕ}
    → At text rest o
    → Unnamed rest http_status_strings
    → try_get_status text o ≡ failed (make_error_code parse_error_status) o
unfolding try_get_status
try_get_status-Unnamed p h = try_get_token-Unnamed http_status_strings parse_error_status p h

-- The place behind the version and one byte.
module _ (v : HttpVersion) (separator : ℕ) (rest : Bytes) where
  abbrev status_at : ℕ
  status_at = 0 + length (version_string v) + 1

  At-status : At (version_string v ++ (separator ∷ rest)) rest status_at
  At-status = At-skip (separator ∷ []) (At-skip (version_string v) (At-start _))

  version_read :
      try_get_version (version_string v ++ (separator ∷ rest)) 0
      ≡ got v (0 + length (version_string v))
  version_read = try_get_version-print v (separator ∷ rest) (At-start _)

pub Refuses-parse :
    {text : Bytes} {e : ErrorCode}
    → Refuses text e
    → length text < 2 ^ 64
    → parse text ≡ unexpected e
unfolding parse scan_response
Refuses-parse (no_version text h) fits = rw (try_get_version-Unnamed text h) refl
Refuses-parse (no_status v separator rest h) fits =
    rw (version_read v separator rest, try_get_status-Unnamed (At-status v separator rest) h) refl
Refuses-parse (no_headers v separator status after h) fits =
    elim (Lines-or_not _ fits (status_at v separator rest + length (status_text status) + 2)) [
      | inl (lines, body, ls) ↦ absurd (h lines body (subst (λ s. Lines s lines body) at_lines ls))
      | inr (n, refused) ↦
          rw
            (
              version_read v separator rest,
              try_get_status-print status after (At-status v separator rest),
              refused,
            )
            refl
    ]
  where
    rest : Bytes
    rest = status_text status ++ after

    at_lines :
        drop
          (status_at v separator rest + length (status_text status) + 2)
          (version_string v ++ (separator ∷ rest))
        ≡ drop 2 after
    at_lines =
        sym (drop-drop 2 (status_at v separator rest + length (status_text status)) _)
        ∙ ap (drop 2) (At-drop_rest (At-skip (status_text status) (At-status v separator rest)))
