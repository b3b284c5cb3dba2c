-- ===== src/Http/Accepted.antt =====
-- What the headers are that the parsers of shared/src/http.cpp accept: headers that can stand on a
-- line, and as long as what was read, unless a line ends right behind its colon.
pub mod Loop
pub mod Tokens
use pine_http.Prelude.{
  ℕ, zero, suc, ◌+◌, ◌-◌, ◌^◌, ◌≤◌, ◌<◌, ◌≡◌, ◌≢◌, refl, sym, ap, ◌∙◌, subst, true, false, List, [],
  ◌∷◌, ◌++◌, Option, none, some, arith, length, leb, ltb, ◌==◌, take, drop, length-take_full,
  length-append, length-drop, le→leb, le→ltb_false, inl, inr, Bool-cases, Option-cases, All,
}
use pine_http.Text.{Bytes, starts_with, find_first, find, substr, substr_from}
use pine_http.Text.Find.{Free}
use pine_http.Text.Bounds.{find_bounds, substr_from_in_range}
use pine_http.OrderedMap.{insert_or_assign}
use pine_http.Http.{crlf}
use pine_http.Http.Scan.{Scan, got, failed, thrown, next-eq-got}
use pine_http.Http.Utils.{
  sub64, HeaderMap, header_fields, try_get_header, headers_loop, try_get_headers,
}
use pine_http.Http.Print.{header_line, header_lines}
use pine_http.Http.Lines.{
  OnLine, take-OnLine, find_first-drop, find_first-starts_with, find_first-none_nowhere,
}
use pine_http.Http.Stages.{find_first-take}
use pine_http.Http.Headers.{IsHeader, length-header_line}

-- A line end right behind a colon.
abbrev pub empty_value : Bytes
empty_value = b':' ∷ crlf

pub find-first :
    (p text : Bytes) (o n : ℕ)
    → find p text o ≡ some n
    → (o ≤ n) × (find_first p (drop o text) ≡ some (n - o))
unfolding find
find-first p text o n h = ground arith

-- The text between two offsets.
pub substr-between :
    (text : Bytes) (o n : ℕ)
    → o ≤ n
    → n ≤ length text
    → length text < 2 ^ 64
    → substr text o (sub64 n o) ≡ some (take (n - o) (drop o text))
unfolding substr
substr-between text o n h within fits =
    rw (le→leb o (length text) (omega arith)) (ap (λ k. some (take k (drop o text))) (omega arith))

drop-nil : (n : ℕ) → drop {A = ℕ} n [] ≡ []
drop-nil zero = refl
drop-nil (suc n) = refl

pub drop-drop : (i o : ℕ) (text : Bytes) → drop i (drop o text) ≡ drop (o + i) text
drop-drop i zero text = ap (λ k. drop k text) (omega arith)
drop-drop i (suc o) [] = drop-nil i ∙ sym (drop-nil (suc o + i))
drop-drop i (suc o) (c ∷ text) =
    drop-drop i o text ∙ ap (λ k. drop k (c ∷ text)) {x = suc (o + i)} (omega arith)

-- The text from a colon to the first line end behind it.
colon-crlf : (s : Bytes) → starts_with (b':' ∷ []) s ≡ true → starts_with crlf s ≢ true
unfolding starts_with
colon-crlf [] h e = ground arith
colon-crlf (c ∷ s) h e = ground arith

colon-empty_value :
    (s : Bytes)
    → starts_with (b':' ∷ []) s ≡ true
    → starts_with crlf (drop 1 s) ≡ true
    → starts_with empty_value s ≡ true
unfolding starts_with
colon-empty_value [] h e = ground arith
colon-empty_value (c ∷ s) h e = ground arith

-- Between the colon and the line end stands at least one byte.
colon-lt :
    (s : Bytes) (i j : ℕ)
    → find_first empty_value s ≡ none
    → find_first (b':' ∷ []) s ≡ some i
    → find_first crlf s ≡ some j
    → i ≤ j
    → i + 2 ≤ j
colon-lt s i j whole colon line_end le = elim (Bool-cases (leb (i + 2) j)) [
  | inl far ↦ ground arith
  | inr near ↦ elim (Bool-cases (i == j)) [
    | inl same ↦ absurd (
        colon-crlf (drop i s) at_colon
          (subst (λ k. starts_with crlf (drop k s) ≡ true) (ground arith) at_line_end))
    | inr next_to ↦ absurd (
        find_first-none_nowhere empty_value s i whole (
          colon-empty_value (drop i s) at_colon (
            subst (λ r. starts_with crlf r ≡ true)
              (ap (λ k. drop k s) (ground arith) ∙ sym (drop-drop 1 i s)) at_line_end)))
  ]
]
  where
    at_colon : starts_with (b':' ∷ []) (drop i s) ≡ true
    at_colon = find_first-starts_with (b':' ∷ []) s i colon

    at_line_end : starts_with crlf (drop j s) ≡ true
    at_line_end = find_first-starts_with crlf s j line_end

find_first-behind :
    (p text : Bytes) (n : ℕ) → find_first p text ≡ none → find_first p (drop n text) ≡ none
unfolding find_first
find_first-behind p text zero h = h
find_first-behind p [] (suc n) h = h
find_first-behind p (c ∷ text) (suc n) h = find_first-behind p text n (ground arith)

-- The header up to its line end, if the two places are as they should be.
header_fields-read :
    (text : Bytes) (o e c : ℕ)
    → length text < 2 ^ 64
    → e + 2 ≤ length text
    → o ≤ c
    → c + 2 ≤ e
    → header_fields text o (some e) (some c)
      ≡ got (take (c - o) (drop o text), take (e - (c + 2)) (drop (c + 2) text)) (e + 2)
unfolding header_fields
header_fields-read text o e c fits within oc ce = rw (
  le→ltb_false e c (omega arith),
  substr-between text o c oc (omega arith) fits,
  substr-between text (c + 2) e ce (omega arith) fits,
)

pub got_injective : {A : Type 0} (a b : A) (m n : ℕ) → got a m ≡ got b n → (a ≡ b) × (m ≡ n)
got_injective a b m n h = (cc, cc)

-- A text in which no line ends right behind a colon.
module _ (text : Bytes) (fits : length text < 2 ^ 64)
    (whole : find_first empty_value text ≡ none) where
  -- The header between the places of its line end and of its colon.
  fields-IsHeader :
      (o e c : ℕ)
      → find crlf text o ≡ some e
      → find (b':' ∷ []) text o ≡ some c
      → c ≤ e
      → (h : Bytes × Bytes) × (header_fields text o (some e) (some c) ≡ got h (e + 2))
        × IsHeader h
        × (e + 2 ≡ o + length (header_line h.0 h.1))
        × (e + 2 ≤ length text)
  fields-IsHeader o e c line_end colon le = (
    (take (c - o) (drop o text), take (e - (c + 2)) (drop (c + 2) text)),
    header_fields-read text o e c fits within oc ce,
    record {
      no_colon = find_first-take b':' (drop o text) (c - o) (find-first _ text o c colon).1;
      name_on_line =
          take-OnLine (drop o text) (e - o) (c - o) (find-first crlf text o e line_end).1
            (omega arith);
      value_on_line =
          subst (λ r. OnLine (take (e - (c + 2)) r)) behind
            (take-OnLine (drop (c + 2 - o) (drop o text)) (e - o - (c + 2 - o)) (e - (c + 2))
              (find_first-drop crlf (drop o text) (e - o) (c + 2 - o)
                (find-first crlf text o e line_end).1 (omega (arith, oc, ce)))
              (omega (arith, oc, ce)));
    },
    omega (
      arith,
      oc,
      ce,
      within,
      length-header_line (take (c - o) (drop o text)) (take (e - (c + 2)) (drop (c + 2) text)),
      length-take_full (c - o) (drop o text) (omega (arith, oc, ce, within, length-drop o text)),
      length-take_full (e - (c + 2)) (drop (c + 2) text)
          (omega (arith, ce, within, length-drop (c + 2) text)),
    ),
    within,
  )
    where
      oc : o ≤ c
      oc = (find-first (b':' ∷ []) text o c colon).0

      within : e + 2 ≤ length text
      within = (find_bounds crlf text o e line_end).1

      ce : c + 2 ≤ e
      ce = omega (
        arith,
        oc,
        colon-lt (drop o text) (c - o) (e - o) (find_first-behind empty_value text o whole)
            (find-first (b':' ∷ []) text o c colon).1 (find-first crlf text o e line_end).1
            (omega arith),
      )

      behind : drop (c + 2 - o) (drop o text) ≡ drop (c + 2) text
      behind = drop-drop (c + 2 - o) o text ∙ ap (λ k. drop k text) (omega (arith, oc))

  fields-got :
      (o : ℕ) (h : Bytes × Bytes) (o' : ℕ) (end colon : Option ℕ)
      → find crlf text o ≡ end
      → find (b':' ∷ []) text o ≡ colon
      → header_fields text o end colon ≡ got h o'
      → IsHeader h × (o' ≡ o + length (header_line h.0 h.1)) × (o' ≤ length text)
  unfolding header_fields
  fields-got o h o' none colon line_end at_colon read = cc
  fields-got o h o' (some e) none line_end at_colon read = cc
  fields-got o h o' (some e) (some c) line_end at_colon read = elim (Bool-cases (ltb e c)) [
    | inl early ↦ cc (rw early at read)
    | inr late ↦
        let (h', read', ok, size, inside) =
          fields-IsHeader o e c line_end at_colon (ground arith) in
        let (same, end_same) = got_injective h h' o' (e + 2) (sym read ∙ read') in
        (
          subst IsHeader (sym same) ok,
          end_same ∙ size ∙ ap (λ k. o + length (header_line k.0 k.1)) (sym same),
          omega (arith, end_same, inside),
        )
  ]

  -- A header that is read can stand on a line, and takes up as many bytes as its printed line, within
  -- the text.
  pub try_get_header-IsHeader :
      (o : ℕ) (h : Bytes × Bytes) (o' : ℕ)
      → try_get_header text o ≡ got h o'
      → IsHeader h × (o' ≡ o + length (header_line h.0 h.1)) × (o' ≤ length text)
  unfolding try_get_header
  try_get_header-IsHeader o h o' read =
      fields-got o h o' (find crlf text o) (find (b':' ∷ []) text o) refl refl read
