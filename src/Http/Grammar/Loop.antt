-- ===== src/Http/Grammar/Loop.antt =====
-- `try_get_headers` (shared/src/http.cpp) accepts the texts of the description, and no others.
use pine_http.Prelude.{
  ℕ, zero, suc, ◌+◌, ◌^◌, ◌≤◌, ◌<◌, ◌≡◌, refl, sym, ap, ◌∙◌, subst, false, [], ◌++◌, arith, length,
  drop, length-drop, drop-past, leb, inl, inr, Bool-cases,
}
use pine_http.Text.{Bytes, starts_with}
use pine_http.Text.Find.{starts_with-append}
use pine_http.Text.Bounds.{substr_from_in_range}
use pine_http.Text.Cursor.{At-skip, At-drop_rest, At-substr_from, At-length}
use pine_http.OrderedMap.{insert_or_assign}
use pine_http.OrderedMap.Entered.{entered}
use pine_http.Http.{crlf}
use pine_http.Http.Scan.{got, next-eq-got}
use pine_http.Http.Stages.{starts_with-split}
use pine_http.Http.Utils.{HeaderMap, try_get_header, headers_loop, try_get_headers}
use pine_http.Http.Accepted.{got_injective}
use pine_http.Http.Grammar.{Lines, at_end, blank, line}
use pine_http.Http.Grammar.Reading.{
  Line-try_get_header, try_get_header-Line, Line-length, Line-not_blank, drop-At,
}

module _ (text : Bytes) (fits : length text < 2 ^ 64) where
  -- The loop reads lines as they stand.
  Lines-headers_loop :
      {s body : Bytes} {lines : HeaderMap} (fuel : ℕ) (result : HeaderMap) (o : ℕ)
      → Lines s lines body
      → length s < fuel
      → drop o text ≡ s
      → (o' : ℕ) × (headers_loop fuel text result o ≡ got (entered lines result) o')
        × (drop o' text ≡ body)
  unfolding headers_loop
  Lines-headers_loop zero result o l enough at = absurd (omega arith)
  Lines-headers_loop (suc fuel) result o at_end enough at =
      (o, ground (arith, length-drop o text, ap length at), at)
  Lines-headers_loop (suc fuel) result o (blank body) enough at =
      let here = drop-At text (crlf ++ body) o at (omega arith) in
      (
        o + 2,
        ground (arith, At-substr_from here, At-length here, starts_with-append crlf body),
        At-drop_rest (At-skip crlf here),
      )
  Lines-headers_loop {s} (suc fuel) result o (line {header = header} l ls) enough at =
      let here = drop-At text s o at (omega (arith, Line-length l)) in
      let more : leb (length text) o ≡ false = ground (arith, At-length here, Line-length l) in
      let (n, read, p) = Line-try_get_header l fits here in
      let (o', rest, left) =
        Lines-headers_loop fuel (insert_or_assign header.0 header.1 result) n ls
          (omega (arith, Line-length l)) (At-drop_rest p) in
      (o', rw (more, At-substr_from here, Line-not_blank l, read) rest, left)

  -- What the loop accepts are lines.
  headers_loop-Lines :
      (fuel : ℕ) (result : HeaderMap) (o : ℕ) (m : HeaderMap) (o' : ℕ)
      → headers_loop fuel text result o ≡ got m o'
      → (lines : HeaderMap) × (body : Bytes) × Lines (drop o text) lines body
  unfolding headers_loop
  headers_loop-Lines zero result o m o' read = cc
  headers_loop-Lines (suc fuel) result o m o' read = elim (Bool-cases (leb (length text) o)) [
    | inl done ↦ ([], [], subst (λ s. Lines s [] []) (sym (drop-past o text (ground arith))) at_end)
    | inr more ↦
        let within : o ≤ length text = ground arith in
        let cut = substr_from_in_range text o within in
        elim (Bool-cases (starts_with crlf (drop o text))) [
          | inl empty ↦
              let (rest, splits) = starts_with-split crlf (drop o text) empty in
              ([], rest, subst (λ s. Lines s [] rest) (sym splits) (blank rest))
          | inr full ↦
              let (h, n, read_one, further) =
                next-eq-got (try_get_header text o) _ (rw (more, cut, full) at read) in
              let (rest, l, p) = try_get_header-Line text o h n fits within read_one in
              let (lines, body, ls) =
                headers_loop-Lines fuel (insert_or_assign h.0 h.1 result) n m o' further in
              (_, body, line l (subst (λ s. Lines s lines body) (At-drop_rest p) ls))
        ]
  ]

  -- `try_get_headers` accepts exactly the lines that the text has from its offset on.
  pub try_get_headers-Lines :
      (o : ℕ) (m : HeaderMap) (o' : ℕ)
      → try_get_headers text o ≡ got m o'
      → (lines : HeaderMap) × Lines (drop o text) lines (drop o' text) × (m ≡ entered lines [])
  unfolding try_get_headers
  try_get_headers-Lines o m o' read =
      let (lines, body, ls) = headers_loop-Lines (suc (length text)) [] o m o' read in
      let (n, read', left) =
        Lines-headers_loop (suc (length text)) [] o ls (omega (arith, length-drop o text)) refl in
      let (same, end) = got_injective (entered lines []) m n o' (sym read' ∙ read) in
      (lines, subst (Lines (drop o text) lines) (sym left ∙ ap (λ k. drop k text) end) ls, sym same)

  pub Lines-try_get_headers :
      {s body : Bytes} {lines : HeaderMap} (o : ℕ)
      → Lines s lines body
      → drop o text ≡ s
      → (o' : ℕ) × (try_get_headers text o ≡ got (entered lines []) o') × (drop o' text ≡ body)
  unfolding try_get_headers
  Lines-try_get_headers o ls at =
      Lines-headers_loop (suc (length text)) [] o ls
        (omega (arith, length-drop o text, ap length at)) at
