-- ===== src/Http/Grammar/Reading.antt =====
-- `try_get_header` (shared/src/http.cpp) reads the lines of the description, and no others.
use pine_http.Prelude.{
  ℕ, zero, suc, ◌+◌, ◌-◌, ◌^◌, ◌≤◌, ◌<◌, ◌≡◌, ◌≢◌, refl, sym, ap, ◌∙◌, subst, false, [], ◌∷◌, ◌++◌,
  Option, some, none, arith, length, take, drop, length-append, append_assoc, length-drop, ltb, inl,
  inr, Bool-cases,
}
use pine_http.Text.{Bytes, starts_with, find_first}
use pine_http.Text.Cursor.{At, At-skip, At-drop}
use pine_http.Http.{crlf}
use pine_http.Http.Lines.{OnLine, OnLine-not_empty, take-OnLine}
use pine_http.Http.Scan.{got}
use pine_http.Http.Stages.{starts_with-split}
use pine_http.Http.Utils.{header_fields, try_get_header}
use pine_http.Http.Headers.{try_get_header-filled}
use pine_http.Http.Accepted.{find-first, got_injective}
use pine_http.Http.EmptyValue.{try_get_header_empty_value}
use pine_http.Http.Grammar.{Line, filled, bare}

-- A line is read as it stands.
pub Line-try_get_header :
    {s rest : Bytes} {header : Bytes × Bytes} {text : Bytes} {o : ℕ}
    → Line s header rest
    → length text < 2 ^ 64
    → At text s o
    → (o' : ℕ) × (try_get_header text o ≡ got header o') × At text rest o'
Line-try_get_header {text = text} {o} (filled name c value rest no_colon on_line ok) fits p = (
  _,
  try_get_header-filled name c value rest no_colon on_line ok fits p,
  At-skip crlf (
      At-skip (name ++ (b':' ∷ c ∷ value))
        (subst (λ r. At text r o) (sym (append_assoc name (b':' ∷ c ∷ value) (crlf ++ rest))) p)),
)
Line-try_get_header (bare name rest no_colon on_line) fits p = (
  _,
  try_get_header_empty_value name rest no_colon on_line fits p,
  At-skip (b':' ∷ crlf) (At-skip name p),
)

-- What is found stands between what is before and behind it.
find_first-split :
    (d : ℕ) (ps s : Bytes) (n : ℕ)
    → find_first (d ∷ ps) s ≡ some n
    → (rest : Bytes) × (s ≡ take n s ++ ((d ∷ ps) ++ rest))
unfolding find_first starts_with
find_first-split d ps [] n h = cc
find_first-split d ps (c ∷ s) zero h = starts_with-split (d ∷ ps) (c ∷ s) (ground arith)
find_first-split d ps (c ∷ s) (suc n) h =
    let (rest, e) = find_first-split d ps s n (ground arith) in (rest, ap (λ t. c ∷ t) e)

OnLine-onto :
    (x : ℕ) (name rest : Bytes)
    → starts_with crlf (x ∷ (name ++ rest)) ≡ false
    → OnLine name
    → OnLine (x ∷ name)
unfolding find_first starts_with
OnLine-onto x [] rest not_end h = ground arith
OnLine-onto x (y ∷ name) rest not_end h = ground arith

-- A byte in front of a line goes to its name.
Line-onto :
    (x : ℕ) {s rest : Bytes} {header : Bytes × Bytes}
    → x ≢ b':'
    → starts_with crlf (x ∷ s) ≡ false
    → Line s header rest
    → (h : Bytes × Bytes) × Line (x ∷ s) h rest
Line-onto x other not_end (filled name c value rest no_colon on_line ok) =
    (_, filled (x ∷ name) c value rest (other, no_colon) (OnLine-onto x name _ not_end on_line) ok)
Line-onto x other not_end (bare name rest no_colon on_line) =
    (_, bare (x ∷ name) rest (other, no_colon) (OnLine-onto x name _ not_end on_line))

-- What stands behind a colon, up to the line end.
value-Line :
    (s : Bytes) (k : ℕ)
    → find_first crlf s ≡ some k
    → (h : Bytes × Bytes) × (rest : Bytes) × Line (b':' ∷ s) h rest
unfolding find_first starts_with
value-Line [] k found = cc
value-Line (c ∷ s) zero found =
    let (rest, splits) = starts_with-split crlf (c ∷ s) (ground arith) in
    (
      _,
      rest,
      subst (λ t. Line (b':' ∷ t) ([], b'\n' ∷ rest) rest) (sym splits) (bare [] rest tt refl),
    )
value-Line (c ∷ s) (suc k) found =
    let (rest, splits) = find_first-split b'\r' (b'\n' ∷ []) (c ∷ s) (suc k) found in
    (
      _,
      rest,
      subst (λ t. Line (b':' ∷ t) ([], take k s) rest) (sym splits)
          (filled [] c (take k s) rest tt refl
            (take-OnLine (c ∷ s) (suc k) (suc k) found (omega arith))),
    )

-- Where the first colon stands before the first line end, there is a line.
colon-Line :
    (s : Bytes) (i j : ℕ)
    → find_first (b':' ∷ []) s ≡ some i
    → find_first crlf s ≡ some j
    → i ≤ j
    → (h : Bytes × Bytes) × (rest : Bytes) × Line s h rest
unfolding find_first starts_with
colon-Line [] i j colon line_end le = cc
colon-Line (x ∷ s) zero zero colon line_end le = absurd (ground arith)
colon-Line (x ∷ s) zero (suc j) colon line_end le =
    let (h, rest, l) = value-Line s j (ground arith) in
    let is_colon : b':' ≡ x = ground arith in (h, rest, subst (λ c. Line (c ∷ s) h rest) is_colon l)
colon-Line (x ∷ s) (suc i) zero colon line_end le = absurd (omega arith)
colon-Line (x ∷ s) (suc i) (suc j) colon line_end le =
    let (h, rest, l) = colon-Line s i j (ground arith) (ground arith) (omega arith) in
    let (h', l') = Line-onto x (λ e. ground arith) (ground arith) l in (h', rest, l')

header_fields-colon :
    (text : Bytes) (o : ℕ) (h : Bytes × Bytes) (o' : ℕ) (end colon : Option ℕ)
    → header_fields text o end colon ≡ got h o'
    → (e : ℕ) × (c : ℕ) × (end ≡ some e) × (colon ≡ some c) × (c ≤ e)
unfolding header_fields
header_fields-colon text o h o' none colon read = cc
header_fields-colon text o h o' (some e) none read = cc
header_fields-colon text o h o' (some e) (some c) read = elim (Bool-cases (ltb e c)) [
  | inl early ↦ cc (rw early at read)
  | inr late ↦ (e, c, refl, refl, ground arith)
]

-- A header that is read is that of a line.
pub try_get_header-Line :
    (text : Bytes) (o : ℕ) (h : Bytes × Bytes) (o' : ℕ)
    → length text < 2 ^ 64
    → o ≤ length text
    → try_get_header text o ≡ got h o'
    → (rest : Bytes) × Line (drop o text) h rest × At text rest o'
unfolding try_get_header
try_get_header-Line text o h o' fits within read =
    let (e, c, line_end, colon, le) = header_fields-colon text o h o' _ _ read in
    let (o≤c, colon_at) = find-first (b':' ∷ []) text o c colon in
    let (o≤e, end_at) = find-first crlf text o e line_end in
    let (h', rest, l) = colon-Line (drop o text) (c - o) (e - o) colon_at end_at (omega arith) in
    let (n, read', p) = Line-try_get_header l fits (At-drop text o within) in
    let (same, end) = got_injective h' h n o' (sym read' ∙ read) in
    (rest, subst (λ k. Line (drop o text) k rest) same l, subst (At text rest) end p)

-- A line is longer than what is behind it.
pub Line-length :
    {s rest : Bytes} {header : Bytes × Bytes} → Line s header rest → length rest + 2 ≤ length s
Line-length (filled name c value rest no_colon on_line ok) = omega (
  arith,
  length-append name (b':' ∷ c ∷ (value ++ (crlf ++ rest))),
  length-append value (crlf ++ rest),
)
Line-length (bare name rest no_colon on_line) =
    omega (arith, length-append name (b':' ∷ (crlf ++ rest)))

name-not_blank :
    (name rest : Bytes) → OnLine name → starts_with crlf (name ++ (b':' ∷ rest)) ≡ false
unfolding starts_with
name-not_blank [] rest h = refl
name-not_blank (x ∷ name) rest h = OnLine-not_empty x name rest b':' h (λ e. ground arith)

-- A line does not start with a line end.
pub Line-not_blank :
    {s rest : Bytes} {header : Bytes × Bytes} → Line s header rest → starts_with crlf s ≡ false
Line-not_blank (filled name c value rest no_colon on_line ok) = name-not_blank name _ on_line
Line-not_blank (bare name rest no_colon on_line) = name-not_blank name _ on_line

-- A cursor before what is left, if something is left.
pub drop-At : (text s : Bytes) (o : ℕ) → drop o text ≡ s → 0 < length s → At text s o
drop-At text s o at some' =
    subst (λ r. At text r o) at (At-drop text o (omega (arith, length-drop o text, ap length at)))
