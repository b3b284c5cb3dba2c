-- ===== src/Http/EmptyValue.antt =====
-- `try_get_header` on a header whose line ends right behind the colon.
use mathlib.Core.Option
use pine_http.Prelude.{
  refl, ℕ, ◌+◌, ◌^◌, ◌<◌, ◌≡◌, [], ◌∷◌, ◌++◌, some, false, arith, ap, ◌∙◌, subst, length, ltb,
  length-append, append_assoc,
}
use pine_http.Text.{Bytes, find, find_first, starts_with, substr}
use pine_http.Text.Find.{Free}
use pine_http.Text.Cursor.{At, At-skip, At-substr, At-substr_all, At-find, At-find-Free, At-length}
use pine_http.Http.{crlf}
use pine_http.Http.Lines.{OnLine, find_first-OnLine, OnLine-append}
use pine_http.Http.Scan.{got}
use pine_http.Http.Utils.{sub64, try_get_header}
use pine_http.Http.Tokens.{sub64-add}

-- In a text below 2 ^ 64 bytes, a line that ends right behind the colon of its header, whose name
-- holds neither colon nor line end (a carriage return followed by a line feed), is not read as an
-- empty value: the length of the value wraps around, and the value is all the rest of the text, from
-- the line feed on. The parser goes on behind the line nevertheless.
pub try_get_header_empty_value :
    (name tail : Bytes) {text : Bytes} {o : ℕ}
    → Free b':' name
    → OnLine name
    → length text < 2 ^ 64
    → At text (name ++ (b':' ∷ (crlf ++ tail))) o
    → try_get_header text o ≡ got (name, b'\n' ∷ tail) (o + length name + 3)
unfolding try_get_header find_first starts_with
try_get_header_empty_value name tail {text} {o} no_colon on_line fits p =
    rw (line_end_found, colon_found, before_end, name_size, name_read, value_read)
      (ap (got (name, b'\n' ∷ tail)) (omega arith))
  where
    at_feed : At text (b'\n' ∷ tail) (o + length name + 2)
    at_feed = At-skip (b':' ∷ b'\r' ∷ []) (At-skip name p)

    line_end_found : find crlf text o ≡ some (o + length name + 1)
    line_end_found =
        At-find {rest = (name ++ (b':' ∷ [])) ++ (crlf ++ tail)}
          (subst (λ r. At text r o) (simp append_assoc) p) crlf
        ∙ ap (Option.map (λ n. o + n)) (
            find_first-OnLine (name ++ (b':' ∷ [])) tail
              (OnLine-append name b':' [] on_line (λ e. ground arith) refl))
        ∙ ap some (omega (arith, length-append name (b':' ∷ [])))

    colon_found : find (b':' ∷ []) text o ≡ some (o + length name)
    colon_found = At-find-Free b':' [] name (crlf ++ tail) no_colon p

    before_end : ltb (o + length name + 1) (o + length name) ≡ false
    before_end = ground arith

    name_size : sub64 (o + length name) o ≡ length name
    name_size = sub64-add o (length name) (omega (arith, At-length at_feed))

    name_read : substr text o (length name) ≡ some name
    name_read = At-substr name _ p

    value_read :
        substr text (o + length name + 2) (sub64 (o + length name + 1) (o + length name + 2))
        ≡ some (b'\n' ∷ tail)
    value_read = At-substr_all at_feed _ (omega (arith, At-length at_feed))
