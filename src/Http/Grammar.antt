-- ===== src/Http/Grammar.antt =====
-- The texts that `try_get_headers` (shared/src/http.cpp) accepts, described without offsets.
pub mod Reading
pub mod Loop
pub mod Tokens
pub mod Refused
use pine_http.Prelude.{
  ℕ, zero, suc, ◌+◌, ◌-◌, ◌^◌, ◌≤◌, ◌<◌, ◌≡◌, ◌≢◌, refl, sym, ap, ◌∙◌, subst, true, false, [], ◌∷◌,
  ◌++◌, Option, some, none, arith, length, take, drop, length-append, append_assoc, length-drop,
  drop-past, leb, ltb, ◌==◌, inl, inr, Bool-cases,
}
use pine_http.Text.{Bytes, starts_with, find_first, find}
use pine_http.Text.Find.{Free, starts_with-append}
use pine_http.Text.Bounds.{substr_from_in_range}
use pine_http.Text.Cursor.{At, At-skip, At-drop, At-drop_rest, At-substr_from, At-length}
use pine_http.OrderedMap.{insert_or_assign}
use pine_http.OrderedMap.Entered.{entered}
use pine_http.Http.{crlf}
use pine_http.Http.Lines.{OnLine, OnLine-not_empty, take-OnLine}
use pine_http.Http.Scan.{got, next-eq-got}
use pine_http.Http.Stages.{starts_with-split}
use pine_http.Http.Utils.{HeaderMap, header_fields, try_get_header, headers_loop, try_get_headers}
use pine_http.Http.Headers.{try_get_header-filled}
use pine_http.Http.Accepted.{find-first, drop-drop, got_injective}
use pine_http.Http.EmptyValue.{try_get_header_empty_value}

-- A text that starts with a header line, what the line holds, and the rest of the text. Behind the
-- colon stands one byte, whichever, and the value; or the line ends there, and what is taken for the
-- value is all that follows.
pub data Line : Bytes → Bytes × Bytes → Bytes → Type 0 where
  filled :
      (name : Bytes) (c : ℕ) (value rest : Bytes)
      → Free b':' name
      → OnLine name
      → OnLine (c ∷ value)
      → Line (name ++ (b':' ∷ c ∷ (value ++ (crlf ++ rest)))) (name, value) rest
  bare :
      (name rest : Bytes)
      → Free b':' name
      → OnLine name
      → Line (name ++ (b':' ∷ (crlf ++ rest))) (name, b'\n' ∷ rest) rest

-- A text of header lines up to an empty line or to the end, their headers, and the rest behind.
pub data Lines : Bytes → HeaderMap → Bytes → Type 0 where
  at_end : Lines [] [] []
  blank : (body : Bytes) → Lines (crlf ++ body) [] body
  line :
      {s rest body : Bytes} {header : Bytes × Bytes} {lines : HeaderMap}
      → Line s header rest
      → Lines rest lines body
      → Lines s (header ∷ lines) body
