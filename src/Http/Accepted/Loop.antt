-- ===== src/Http/Accepted/Loop.antt =====
-- The headers that `try_get_headers` accepts, all together.
use pine_http.Prelude.{
  ℕ, zero, suc, ◌+◌, ◌^◌, ◌≤◌, ◌<◌, ◌≡◌, ap, subst, [], ◌∷◌, ◌++◌, none, arith, length, leb, drop,
  length-append, inl, inr, Bool-cases, All,
}
use pine_http.Text.{Bytes, starts_with, find_first}
use pine_http.Text.Bounds.{substr_from_in_range}
use pine_http.OrderedMap.{insert_or_assign}
use pine_http.OrderedMap.Order.{compare_text-eq_iff}
use pine_http.OrderedMap.Laws.{insert_or_assign-All}
use pine_http.Http.{crlf}
use pine_http.Http.Scan.{got, next-eq-got}
use pine_http.Http.Utils.{HeaderMap, try_get_header, headers_loop, try_get_headers}
use pine_http.Http.Print.{header_line, header_lines}
use pine_http.Http.Headers.{IsHeader, length-header_line}
use pine_http.Http.Accepted.{empty_value, got_injective, try_get_header-IsHeader}

-- A header that is entered makes the printed lines longer by its own line at most.
length-insert_or_assign :
    (k v : Bytes) (m : HeaderMap)
    → length (header_lines (insert_or_assign k v m))
      ≤ length (header_line k v) + length (header_lines m)
unfolding insert_or_assign header_lines
length-insert_or_assign k v [] = omega (arith, length-append (header_line k v) [])
length-insert_or_assign k v ((j, w) ∷ m) = ground (
  arith,
  compare_text-eq_iff k j,
  length-insert_or_assign k v m,
  length-header_line k v,
  length-header_line j v,
  length-header_line j w,
  length-append (header_line k v) (header_line j w ++ header_lines m),
  length-append (header_line j w) (header_lines m),
  length-append (header_line j v) (header_lines m),
  length-append (header_line j w) (header_lines (insert_or_assign k v m)),
)

module _ (text : Bytes) (fits : length text < 2 ^ 64)
    (whole : find_first empty_value text ≡ none) where
  headers_loop-accepted :
      (fuel : ℕ) (result : HeaderMap) (o : ℕ) (h : HeaderMap) (o' : ℕ)
      → headers_loop fuel text result o ≡ got h o'
      → All IsHeader result
      → o ≤ length text + 2
      → All IsHeader h
        × (length (header_lines h) + o ≤ length (header_lines result) + o')
        × (o' ≤ length text + 2)
  unfolding headers_loop
  headers_loop-accepted zero result o h o' read ok near = cc
  headers_loop-accepted (suc fuel) result o h o' read ok near =
      elim (Bool-cases (leb (length text) o)) [
        | inl done ↦ stops o (rw done at read) near (omega arith)
        | inr more ↦
            let cut = substr_from_in_range text o (ground arith) in
            elim (Bool-cases (starts_with crlf (drop o text))) [
              | inl blank ↦
                  stops (o + 2) (rw (more, cut, blank) at read) (ground arith) (omega arith)
              | inr line ↦
                  let (header, n, read_one, further) =
                    next-eq-got (try_get_header text o) _ (rw (more, cut, line) at read) in
                  let (one_ok, size, inside) =
                    try_get_header-IsHeader text fits whole o header n read_one in
                  let (all_ok, sizes, end) =
                    headers_loop-accepted fuel (insert_or_assign header.0 header.1 result) n h o'
                      further (insert_or_assign-All IsHeader header.0 header.1 result one_ok ok)
                      (omega arith) in
                  (all_ok, omega (arith, length-insert_or_assign header.0 header.1 result), end)
            ]
      ]
    where
      stops :
          (n : ℕ)
          → got result n ≡ got h o'
          → n ≤ length text + 2
          → o ≤ n
          → All IsHeader h
            × (length (header_lines h) + o ≤ length (header_lines result) + o')
            × (o' ≤ length text + 2)
      stops n e near' behind =
          let (same, end) = got_injective result h n o' e in
          (
            subst (All IsHeader) same ok,
            omega (arith, ap (λ m. length (header_lines m)) same),
            omega arith,
          )

  -- The headers that are read can stand on lines, and their printed lines are no longer than what was
  -- read; the parser stops at most two bytes behind the text.
  pub try_get_headers-IsHeader :
      (o : ℕ) (h : HeaderMap) (o' : ℕ)
      → o ≤ length text + 2
      → try_get_headers text o ≡ got h o'
      → All IsHeader h × (length (header_lines h) + o ≤ o') × (o' ≤ length text + 2)
  unfolding try_get_headers header_lines
  try_get_headers-IsHeader o h o' near read =
      let (ok, sizes, end) = headers_loop-accepted (suc (length text)) [] o h o' read tt near in
      (ok, omega arith, end)
