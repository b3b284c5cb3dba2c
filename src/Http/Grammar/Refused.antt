-- ===== src/Http/Grammar/Refused.antt =====
-- The texts that the parsers of shared/src/http.cpp refuse.
use pine_http.Prelude.{
  ℕ, ◌^◌, ◌<◌, ◌≡◌, ◌≢◌, refl, ap, ◌∙◌, ◌⊎◌, inl, inr, List, [], ◌∷◌, ◌++◌, arith, length, drop,
  Bool-cases, ◌==◌, All,
}
use pine_http.Text.{Bytes, starts_with}
use pine_http.Text.Find.{Free, starts_with-append}
use pine_http.Text.Cursor.{At, At-substr_from}
use pine_http.Errors.{Error, make_error_code, parse_error_headers}
use pine_http.Http.Scan.{Scan, got, failed, thrown, out_of_fuel}
use pine_http.Http.Stages.{starts_with-split}
use pine_http.Http.Safety.{EndsWell, try_get_headers-EndsWell}
use pine_http.Http.Utils.{HeaderMap, try_get_token, try_get_headers}
use pine_http.Http.Grammar.{Lines}
use pine_http.Http.Grammar.Loop.{try_get_headers-Lines, Lines-try_get_headers}

-- The text starts with none of the names of a table.
abbrev pub Unnamed : {A : Type 0} → Bytes → List (A × Bytes) → Type 0
Unnamed s = All (λ entry. (rest : Bytes) → s ≢ entry.1 ++ rest)

-- A token is refused where none of the names stands.
pub try_get_token-Unnamed :
    {A : Type 0} (table : List (A × Bytes)) (e : Error) {text s : Bytes} {o : ℕ}
    → At text s o
    → Unnamed s table
    → try_get_token table e text o ≡ failed (make_error_code e) o
unfolding try_get_token
try_get_token-Unnamed [] e p h = refl
try_get_token-Unnamed ((a, t) ∷ table) e {s = s} p h = elim (Bool-cases (starts_with t s)) [
  | inl here ↦ let (rest, splits) = starts_with-split t s here in absurd (h.0 rest splits)
  | inr there ↦ rw (At-substr_from p, there) (try_get_token-Unnamed table e p h.1)
]

-- A text starts with a name of the table, or with none.
pub named-or_not :
    {A : Type 0} (name : A → Bytes) (table : List (A × Bytes)) (s : Bytes)
    → All (λ entry. entry.1 ≡ name entry.0) table
    → ((a : A) × (rest : Bytes) × (s ≡ name a ++ rest)) ⊎ Unnamed s table
unfolding starts_with
named-or_not name [] s named = inr tt
named-or_not name ((a, t) ∷ table) s named = elim (Bool-cases (starts_with t s)) [
  | inl here ↦
      let (rest, splits) = starts_with-split t s here in
      inl (a, rest, splits ∙ ap (λ x. x ++ rest) named.0)
  | inr there ↦ elim (named-or_not name table s named.1) [
    | inl found ↦ inl found
    | inr none' ↦ inr (λ rest e. cc (starts_with-append t rest), none')
  ]
]

-- A text holds a space, or none.
pub space-or_not :
    (s : Bytes)
    → ((path : Bytes) × (rest : Bytes) × Free b' ' path × (s ≡ path ++ ((b' ' ∷ []) ++ rest)))
      ⊎ Free b' ' s
space-or_not [] = inr tt
space-or_not (c ∷ s) = elim (Bool-cases (c == b' ')) [
  | inl space ↦ inl ([], s, tt, ground arith)
  | inr other ↦ elim (space-or_not s) [
    | inl (path, rest, free, splits) ↦
        inl (c ∷ path, rest, (λ e. ground arith, free), ap (λ t. c ∷ t) splits)
    | inr free ↦ inr (λ e. ground arith, free)
  ]
]

-- Where no lines stand, `try_get_headers` refuses the text.
module _ (text : Bytes) (fits : length text < 2 ^ 64) (o : ℕ) where
  headers-cases :
      (r : Scan HeaderMap)
      → try_get_headers text o ≡ r
      → EndsWell o r
      → ((lines : HeaderMap) × (body : Bytes) × Lines (drop o text) lines body)
        ⊎ ((n : ℕ) × (try_get_headers text o ≡ failed (make_error_code parse_error_headers) n))
  headers-cases (got m n) e w =
      let (lines, ls, same) = try_get_headers-Lines text fits o m n e in inl (lines, _, ls)
  headers-cases (failed e n) at w = inr (n, at ∙ ap (λ x. failed x n) w.0)
  headers-cases thrown e w = absurd w
  headers-cases out_of_fuel e w = absurd w

  -- There are lines, or the text is refused.
  pub Lines-or_not :
      ((lines : HeaderMap) × (body : Bytes) × Lines (drop o text) lines body)
      ⊎ ((n : ℕ) × (try_get_headers text o ≡ failed (make_error_code parse_error_headers) n))
  Lines-or_not = headers-cases (try_get_headers text o) refl (try_get_headers-EndsWell text o)

-- A text starts with lines, or with none.
pub Lines-cases :
    (s : Bytes)
    → length s < 2 ^ 64
    → ((lines : HeaderMap) × (body : Bytes) × Lines s lines body)
      ⊎ ((lines : HeaderMap) (body : Bytes) → ¬ Lines s lines body)
Lines-cases s fits = elim (Lines-or_not s fits 0) [
  | inl found ↦ inl found
  | inr (n, refused) ↦ inr λ lines body ls. cc ((Lines-try_get_headers s fits 0 ls refl).1, refused)
]
