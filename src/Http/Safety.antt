-- ===== src/Http/Safety.antt =====
-- Whatever the text, the parsers of headers come to an end, and only `try_get_uri` throws.
use pine_http.Prelude.{
  ℕ, zero, suc, ◌+◌, ◌-◌, ◌≤◌, ◌<◌, ◌≡◌, refl, ◌⊎◌, inl, inr, [], ◌∷◌, none, some, arith, length,
  leb, ltb, drop, Option, Bool-cases,
}
use pine_http.Text.{Bytes, starts_with, find}
use pine_http.Text.Bounds.{find_bounds, substr_in_range, substr_from_in_range}
use pine_http.OrderedMap.{insert_or_assign, IsSorted}
use pine_http.OrderedMap.Laws.{insert_or_assign-IsSorted}
use pine_http.Errors.{make_error_code, parse_error_headers}
use pine_http.Http.{crlf}
use pine_http.Http.Scan.{Scan, got, failed, thrown, out_of_fuel}
use pine_http.Http.Utils.{
  sub64, HeaderMap, header_fields, try_get_header, headers_loop, try_get_headers,
}

-- A header is refused where it stands, or read up to the end of its line.
abbrev ReadsOrRefuses : Bytes → ℕ → Scan (Bytes × Bytes) → Type 0
ReadsOrRefuses text o r =
    (r ≡ failed (make_error_code parse_error_headers) o)
    ⊎ ((h : Bytes × Bytes) × (o' : ℕ) × (r ≡ got h o') × (o + 2 ≤ o') × (o' ≤ length text))

header_fields-ReadsOrRefuses :
    (text : Bytes) (o : ℕ) (end colon : Option ℕ)
    → ((n : ℕ) → end ≡ some n → (o ≤ n) × (n + 2 ≤ length text))
    → ((n : ℕ) → colon ≡ some n → (o ≤ n) × (n + 1 ≤ length text))
    → ReadsOrRefuses text o (header_fields text o end colon)
unfolding header_fields
header_fields-ReadsOrRefuses text o none colon he hc = inl refl
header_fields-ReadsOrRefuses text o (some e) none he hc = inl refl
header_fields-ReadsOrRefuses text o (some e) (some c) he hc = elim (Bool-cases (ltb e c)) [
  | inl early ↦ inl (rw early)
  | inr late ↦
      let (name, named) =
        substr_in_range text o (sub64 c o) (omega (arith, (hc c refl).1, (hc c refl).0)) in
      let (value, valued) =
        substr_in_range text (c + 2) (sub64 e (c + 2)) (ground (arith, (he e refl).1)) in
      inr (
        (name, value),
        e + 2,
        rw (late, named, valued),
        omega (arith, (he e refl).0),
        (he e refl).1,
      )
]

try_get_header-ReadsOrRefuses :
    (text : Bytes) (o : ℕ) → ReadsOrRefuses text o (try_get_header text o)
unfolding try_get_header
try_get_header-ReadsOrRefuses text o =
    header_fields-ReadsOrRefuses text o (find crlf text o) (find (b':' ∷ []) text o)
      (λ n. find_bounds crlf text o n) (λ n. find_bounds (b':' ∷ []) text o n)

-- The loop's result: a map whose keys ascend and an offset not before the first one, or the error
-- for headers.
abbrev pub EndsWell : ℕ → Scan HeaderMap → Type 0
EndsWell o (got headers o') = IsSorted headers × (o ≤ o')
EndsWell o (failed e o') = (e ≡ make_error_code parse_error_headers) × (o ≤ o')
EndsWell o thrown = ⊥
EndsWell o out_of_fuel = ⊥

EndsWell-le : (r : Scan HeaderMap) (o o' : ℕ) → o ≤ o' → EndsWell o' r → EndsWell o r
EndsWell-le (got headers n) o o' h w = (w.0, omega arith)
EndsWell-le (failed e n) o o' h w = (w.0, omega arith)
EndsWell-le thrown o o' h w = w
EndsWell-le out_of_fuel o o' h w = w

headers_loop-EndsWell :
    (fuel : ℕ) (text : Bytes) (result : HeaderMap) (o : ℕ)
    → length text - o < fuel
    → IsSorted result
    → EndsWell o (headers_loop fuel text result o)
unfolding headers_loop
headers_loop-EndsWell zero text result o enough s = absurd (omega arith)
headers_loop-EndsWell (suc fuel) text result o enough s = elim (Bool-cases (leb (length text) o)) [
  | inl done ↦ rw done (s, omega arith)
  | inr more ↦
      let cut = substr_from_in_range text o (ground arith) in
      elim (Bool-cases (starts_with crlf (drop o text))) [
        | inl blank ↦ rw (more, cut, blank) (s, omega arith)
        | inr line ↦ elim (try_get_header-ReadsOrRefuses text o) [
          | inl refused ↦ rw (more, cut, line, refused) (refl, omega arith)
          | inr (h, o', read, behind, inside) ↦
              rw (more, cut, line, read)
                (EndsWell-le _ o o' (omega arith) (
                  headers_loop-EndsWell fuel text (insert_or_assign h.0 h.1 result) o'
                    (ground arith) (insert_or_assign-IsSorted h.0 h.1 result s)))
        ]
      ]
]

-- `try_get_headers` ends, with the fuel that the model gives it, on every text and at every offset;
-- it throws nothing, and gives a map whose keys ascend or the error for headers, at an offset that
-- is not before the first one.
pub try_get_headers-EndsWell : (text : Bytes) (o : ℕ) → EndsWell o (try_get_headers text o)
unfolding try_get_headers
try_get_headers-EndsWell text o =
    headers_loop-EndsWell (suc (length text)) text [] o (omega arith) tt
