-- ===== src/Http/Headers.antt =====
-- `try_get_headers` reads back the lines that are printed for a map of headers.
use mathlib.Core.Option
use pine_http.Prelude.{
  ℕ, zero, suc, ◌+◌, ◌^◌, ◌≤◌, ◌<◌, ◌≡◌, refl, [], ◌∷◌, ◌++◌, some, false, arith, ap, ◌∙◌, length,
  length-append, append_assoc, leb, ltb, All, subst,
}
use pine_http.Text.{Bytes, starts_with, find_first, find, substr}
use pine_http.Text.Find.{Free, starts_with-append}
use pine_http.Text.Cursor.{At, At-skip, At-substr_from, At-substr, At-find, At-find-Free, At-length}
use pine_http.OrderedMap.{insert_or_assign, lookup, IsSorted}
use pine_http.OrderedMap.Entered.{
  entered, last_value, lookup-entered, entered-IsSorted, entered-append,
}
use pine_http.Http.{crlf}
use pine_http.Http.Lines.{OnLine, find_first-OnLine, OnLine-append, OnLine-not_empty}
use pine_http.Http.Scan.{got}
use pine_http.Http.Utils.{
  sub64, HeaderMap, header_fields, try_get_header, headers_loop, try_get_headers,
}
use pine_http.Http.Print.{header_line, header_lines}
use pine_http.Http.Tokens.{sub64-add}

-- A header that can stand on a line: no colon in its name, and no line end in either part.
pub record IsHeader (header : Bytes × Bytes) : Type 0 where
  pub no_colon : Free b':' header.0
  pub name_on_line : OnLine header.0
  pub value_on_line : OnLine header.1

module _ (name value tail : Bytes) where
  line-colon :
      header_line name value ++ tail ≡ name ++ ((b':' ∷ []) ++ (b' ' ∷ (value ++ (crlf ++ tail))))
  line-colon = simp append_assoc

module _ (name value : Bytes) where
  pub length-header_line : length (header_line name value) ≡ length name + 2 + length value + 2
  length-header_line =
      omega (arith, length-append name (b':' ∷ b' ' ∷ (value ++ crlf)), length-append value crlf)

-- `try_get_header` reads a line with one byte, whichever, between its colon and its value, and stops
-- behind its end.
module _ (name : Bytes) (c : ℕ) (value tail : Bytes) where
  -- The line without its end.
  abbrev line_text : Bytes
  line_text = name ++ (b':' ∷ c ∷ value)

  length-line_text : length line_text ≡ length name + 2 + length value
  length-line_text = omega (arith, length-append name (b':' ∷ c ∷ value))

  line_text-OnLine : OnLine name → OnLine (c ∷ value) → OnLine line_text
  unfolding find_first starts_with
  line_text-OnLine h h' =
      OnLine-append name b':' (c ∷ value) h (λ e. ground arith) (ground (arith, h'))

  pub try_get_header-filled :
      {text : Bytes} {o : ℕ}
      → Free b':' name
      → OnLine name
      → OnLine (c ∷ value)
      → length text < 2 ^ 64
      → At text (name ++ (b':' ∷ c ∷ (value ++ (crlf ++ tail)))) o
      → try_get_header text o ≡ got (name, value) (o + length line_text + 2)
  unfolding try_get_header
  try_get_header-filled {text} {o} no_colon name_on_line value_on_line fits p =
      rw
        (
          line_end_found, colon_found, header_fields, before_end, name_size, name_read, value_size,
          value_read,
        )
        refl
    where
      at_value : At text (value ++ (crlf ++ tail)) (o + length name + 2)
      at_value = At-skip (b':' ∷ c ∷ []) (At-skip name p)

      line_end_found : find crlf text o ≡ some (o + length line_text)
      line_end_found =
          At-find (subst (λ r. At text r o) (simp append_assoc) p) crlf
          ∙ ap (Option.map (λ n. o + n))
              (find_first-OnLine line_text tail (line_text-OnLine name_on_line value_on_line))

      colon_found : find (b':' ∷ []) text o ≡ some (o + length name)
      colon_found = At-find-Free b':' [] name (c ∷ (value ++ (crlf ++ tail))) no_colon p

      before_end : ltb (o + length line_text) (o + length name) ≡ false
      before_end = ground (arith, length-line_text)

      name_size : sub64 (o + length name) o ≡ length name
      name_size = sub64-add o (length name) (omega (arith, At-length at_value))

      name_read : substr text o (length name) ≡ some name
      name_read = At-substr name _ p

      value_size : sub64 (o + length line_text) (o + length name + 2) ≡ length value
      value_size =
          ap (λ n. sub64 n (o + length name + 2)) (omega (arith, length-line_text))
          ∙ sub64-add (o + length name + 2) (length value)
              (omega (arith, At-length at_value, length-append value (crlf ++ tail)))

      value_read : substr text (o + length name + 2) (length value) ≡ some value
      value_read = At-substr value _ at_value

-- `try_get_header` reads one printed line, and stops behind its end.
try_get_header-print :
    (name value tail : Bytes) {text : Bytes} {o : ℕ}
    → IsHeader (name, value)
    → length text < 2 ^ 64
    → At text (header_line name value ++ tail) o
    → try_get_header text o ≡ got (name, value) (o + length (header_line name value))
unfolding find_first starts_with
try_get_header-print name value tail {text} {o} h fits p =
    try_get_header-filled name b' ' value tail h.no_colon h.name_on_line
      (ground (arith, h.value_on_line)) fits
      (subst (λ r. At text r o) (line-colon name value tail) p)
    ∙ ap (got (name, value))
        (omega (arith, length-header_line name value, length-line_text name b' ' value tail))

line-not_empty :
    (name value tail : Bytes)
    → IsHeader (name, value)
    → starts_with crlf (header_line name value ++ tail) ≡ false
unfolding starts_with
line-not_empty [] value tail h = refl
line-not_empty (c ∷ name) value tail h =
    ap (starts_with crlf) (line-colon (c ∷ name) value tail)
    ∙ OnLine-not_empty c name (b' ' ∷ (value ++ (crlf ++ tail))) b':' h.name_on_line
        (λ e. ground arith)

length-header_lines : (headers : HeaderMap) → length headers ≤ length (header_lines headers)
unfolding header_lines
length-header_lines [] = omega arith
length-header_lines ((n, v) ∷ headers) = omega (
  arith,
  length-append (header_line n v) (header_lines headers),
  length-header_line n v,
  length-header_lines headers,
)

-- The loop reads line after line, each into the map, up to the empty line.
headers_loop-lines :
    (fuel : ℕ) (lines result : HeaderMap) (tail : Bytes) {text : Bytes} {o : ℕ}
    → length lines < fuel
    → All IsHeader lines
    → length text < 2 ^ 64
    → At text (header_lines lines ++ (crlf ++ tail)) o
    → headers_loop fuel text result o
      ≡ got (entered lines result) (o + length (header_lines lines) + 2)
unfolding headers_loop header_lines
headers_loop-lines zero lines result tail enough h fits p = absurd (omega arith)
headers_loop-lines (suc fuel) [] result tail {text} {o} enough h fits p =
    ground (arith, At-substr_from p, At-length p, starts_with-append crlf tail)
headers_loop-lines (suc fuel) ((n, v) ∷ lines) result tail {text} {o} enough h fits p =
    rw (not_at_end, At-substr_from here, line-not_empty n v rest h.0, read)
      (rw
        (headers_loop-lines fuel lines (insert_or_assign n v result) tail (omega arith) h.1 fits
          (At-skip (header_line n v) here))
        (ap (got (entered lines (insert_or_assign n v result)))
          (omega (arith, length-append (header_line n v) (header_lines lines)))))
  where
    rest : Bytes
    rest = header_lines lines ++ (crlf ++ tail)

    here : At text (header_line n v ++ rest) o
    here = subst (λ r. At text r o) (append_assoc (header_line n v) (header_lines lines) _) p

    not_at_end : leb (length text) o ≡ false
    not_at_end =
        ground (arith, At-length here, length-append (header_line n v) rest, length-header_line n v)

    read : try_get_header text o ≡ got (n, v) (o + length (header_line n v))
    read = try_get_header-print n v rest h.0 fits here

-- The lines of any headers are read, in any order, into one map.
pub try_get_headers-entered :
    (lines : HeaderMap) (tail : Bytes) {text : Bytes} {o : ℕ}
    → All IsHeader lines
    → length text < 2 ^ 64
    → At text (header_lines lines ++ (crlf ++ tail)) o
    → try_get_headers text o ≡ got (entered lines []) (o + length (header_lines lines) + 2)
unfolding try_get_headers
try_get_headers-entered lines tail h fits p =
    headers_loop-lines _ lines [] tail
      (omega (
        arith,
        At-length p,
        length-append (header_lines lines) (crlf ++ tail),
        length-header_lines lines,
      ))
      h fits p

-- Headers whose keys ascend come back as they are.
try_get_headers-print :
    (headers : HeaderMap) (tail : Bytes) {text : Bytes} {o : ℕ}
    → All IsHeader headers
    → IsSorted headers
    → length text < 2 ^ 64
    → At text (header_lines headers ++ (crlf ++ tail)) o
    → try_get_headers text o ≡ got headers (o + length (header_lines headers) + 2)
try_get_headers-print headers tail {o = o} h s fits p =
    try_get_headers-entered headers tail h fits p
    ∙ ap (λ m. got m (o + length (header_lines headers) + 2)) (entered-append headers [] s tt)

-- Where header lines and an empty line stand in a text below 2 ^ 64 bytes, in any order and with any
-- repetitions, and where no name holds a colon and neither names nor values hold a line end (a
-- carriage return followed by a line feed): `try_get_headers` reads them all, into a map with
-- ascending keys, and stops behind the empty line. For each name the map has the value of the last
-- line with this name, and nothing if there is no such line. If the names ascend, the map is the
-- headers as they are printed.
pub try_get_headers-lines :
    (lines : HeaderMap) (tail : Bytes) {text : Bytes} {o : ℕ}
    → All IsHeader lines
    → length text < 2 ^ 64
    → At text (header_lines lines ++ (crlf ++ tail)) o
    → (h : HeaderMap) × (try_get_headers text o ≡ got h (o + length (header_lines lines) + 2))
      × ((name : Bytes) → lookup name h ≡ last_value name lines)
      × IsSorted h
      × (IsSorted lines → h ≡ lines)
try_get_headers-lines lines tail h fits p = (
  entered lines [],
  try_get_headers-entered lines tail h fits p,
  λ name. lookup-entered name lines,
  entered-IsSorted lines [] tt,
  λ s. entered-append lines [] s tt,
)
