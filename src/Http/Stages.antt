-- ===== src/Http/Stages.antt =====
-- What each parser promises of its result, on every text: a postcondition for each way to end.
use mathlib.Core.Option
use pine_http.Prelude.{
  ℕ, zero, suc, ◌+◌, ◌^◌, ◌≤◌, ◌<◌, ◌≡◌, refl, ◌⊎◌, inl, inr, List, [], ◌∷◌, ◌++◌, none, some, true,
  arith, length, ◌==◌, drop, take, Bool-cases, Option-cases, All, ap, ◌∙◌, length-drop, le→leb,
  ==_iff,
}
use pine_http.Text.{Bytes, starts_with, find_first, find, substr, at}
use pine_http.Text.Find.{Free}
use pine_http.Text.Bounds.{find_bounds, substr_from_in_range, starts_with-le}
use pine_http.OrderedMap.{IsSorted}
use pine_http.Errors.{
  Error, ErrorCode, make_error_code, parse_error_method, parse_error_uri, parse_error_version,
  parse_error_headers, parse_error_status,
}
use pine_http.Http.Scan.{Scan, Scanner, got, failed, thrown, out_of_fuel, next}
use pine_http.Http.Utils.{sub64, HeaderMap, try_get_token, try_get_headers, uri_to, try_get_uri}
use pine_http.Http.Safety.{EndsWell, try_get_headers-EndsWell}

-- The errors with which a message can be refused.
abbrev pub IsParseError : ErrorCode → Type 0
IsParseError e =
    (e ≡ make_error_code parse_error_method)
    ⊎ ((e ≡ make_error_code parse_error_uri)
        ⊎ ((e ≡ make_error_code parse_error_version)
            ⊎ ((e ≡ make_error_code parse_error_headers)
                ⊎ (e ≡ make_error_code parse_error_status))))

-- `P` holds of a value and its offset, an error is one of the above, `T` holds if it throws, and
-- the fuel suffices.
abbrev pub Post : {A : Type 0} → (A → ℕ → Type 0) → Type 0 → Scan A → Type 0
Post P T (got a o) = P a o
Post P T (failed e o) = IsParseError e
Post P T thrown = T
Post P T out_of_fuel = ⊥

pub next-Post :
    {A B : Type 0} (P : A → ℕ → Type 0) (Q : B → ℕ → Type 0) (T : Type 0) (m : Scan A)
    (f : A → Scanner B)
    → Post P T m
    → ((a : A) (o : ℕ) → P a o → Post Q T (f a o))
    → Post Q T (next m f)
next-Post P Q T (got a o) f h k = k a o h
next-Post P Q T (failed e o) f h k = h
next-Post P Q T thrown f h k = h
next-Post P Q T out_of_fuel f h k = h

pub Post-weaken :
    {A : Type 0} (P : A → ℕ → Type 0) {T T' : Type 0} (m : Scan A)
    → (T → T')
    → Post P T m
    → Post P T' m
Post-weaken P (got a o) g h = h
Post-weaken P (failed e o) g h = h
Post-weaken P thrown g h = g h
Post-weaken P out_of_fuel g h = h

-- A token is read at an offset within the text, and the new offset is within it too.
pub try_get_token-Post :
    {A : Type 0} (table : List (A × Bytes)) (e : Error) (text : Bytes) (o : ℕ)
    → o ≤ length text
    → IsParseError (make_error_code e)
    → Post (λ a o'. o' ≤ length text) ⊥ (try_get_token table e text o)
unfolding try_get_token
try_get_token-Post [] e text o h p = p
try_get_token-Post ((a, t) ∷ table) e text o h p = elim (Bool-cases (starts_with t (drop o text))) [
  | inl yes' ↦
      rw (substr_from_in_range text o h, yes')
        (omega (arith, starts_with-le t (drop o text) yes', length-drop o text))
  | inr no' ↦ rw (substr_from_in_range text o h, no') (try_get_token-Post table e text o h p)
]

pub try_get_headers-Post :
    (text : Bytes) (o : ℕ) → Post (λ h o'. IsSorted h) ⊥ (try_get_headers text o)
try_get_headers-Post text o = from (try_get_headers text o) (try_get_headers-EndsWell text o)
  where
    from : (r : Scan HeaderMap) → EndsWell o r → Post (λ h o'. IsSorted h) ⊥ r
    from (got h o') w = w.0
    from (failed e o') w = inr (inr (inr (inl w.0)))
    from thrown w = w
    from out_of_fuel w = w

-- A URI as the parser accepts it.
abbrev pub IsUri : Bytes → Type 0
IsUri [] = ⊥
IsUri (c ∷ path) = (c ≡ b'/') × Free b' ' path

-- What stands before a byte that is found holds none of it.
pub find_first-take :
    (c : ℕ) (text : Bytes) (n : ℕ) → find_first (c ∷ []) text ≡ some n → Free c (take n text)
unfolding find_first starts_with
find_first-take c [] n h = cc
find_first-take c (x ∷ text) zero h = tt
find_first-take c (x ∷ text) (suc n) h = ground (arith, find_first-take c text n)

pub at-drop :
    (text : Bytes) (o c : ℕ) → at text o ≡ some c → (rest : Bytes) × (drop o text ≡ c ∷ rest)
unfolding at
at-drop [] o c h = cc
at-drop (x ∷ text) zero c h = (text, ground arith)
at-drop (x ∷ text) (suc o) c h = at-drop text o c h

at-none : (text : Bytes) (o : ℕ) → at text o ≡ none → length text ≤ o
unfolding at
at-none [] o h = omega arith
at-none (x ∷ text) zero h = cc
at-none (x ∷ text) (suc o) h = omega (arith, at-none text o h)

IsUri-take :
    (rest : Bytes) (n : ℕ)
    → find_first (b' ' ∷ []) (b'/' ∷ rest) ≡ some n
    → IsUri (take n (b'/' ∷ rest))
unfolding find_first starts_with
IsUri-take rest zero h = ground arith
IsUri-take rest (suc n) h = (refl, ground (arith, find_first-take b' ' rest n))

substr-take :
    (text : Bytes) (o n : ℕ)
    → o + n ≤ length text
    → length text < 2 ^ 64
    → substr text o (sub64 (o + n) o) ≡ some (take n (drop o text))
unfolding substr
substr-take text o n h fits =
    rw (le→leb o (length text) (omega arith)) (ap (λ k. some (take k (drop o text))) (omega arith))

at-lt : (text : Bytes) (o c : ℕ) → at text o ≡ some c → o < length text
unfolding at
at-lt [] o c h = cc
at-lt (x ∷ text) zero c h = omega arith
at-lt (x ∷ text) (suc o) c h = omega (arith, at-lt text o c h)

find-drop :
    (p text : Bytes) (o : ℕ)
    → o ≤ length text
    → find p text o ≡ Option.map (λ n. o + n) (find_first p (drop o text))
unfolding find
find-drop p text o h = rw (le→leb o (length text) h)

abbrev ReadsUri : Bytes → ℕ → Scan Bytes → Type 0
ReadsUri text o = Post (λ u o'. IsUri u × (o' + 1 ≤ length text)) (length text ≤ o)

uri_to-ReadsUri :
    (text rest : Bytes) (o : ℕ)
    → length text < 2 ^ 64
    → o < length text
    → drop o text ≡ b'/' ∷ rest
    → ReadsUri text o (uri_to text o (find (b' ' ∷ []) text o))
unfolding uri_to
uri_to-ReadsUri text rest o fits inside slash =
    elim (Option-cases (find_first (b' ' ∷ []) (b'/' ∷ rest))) [
      | inl nowhere ↦
          rw (find-drop (b' ' ∷ []) text o (omega arith), slash, nowhere) (inr (inl refl))
      | inr (n, found) ↦
          let placed : find (b' ' ∷ []) text o ≡ some (o + n) =
            rw (find-drop (b' ' ∷ []) text o (omega arith), slash, found) in
          let within = (find_bounds (b' ' ∷ []) text o (o + n) placed).1 in
          rw (placed, substr-take text o n (omega arith) fits, slash)
            (IsUri-take rest n found, within)
    ]

-- A URI is read up to a space within the text. It throws only where nothing is left to read.
pub try_get_uri-ReadsUri :
    (text : Bytes) (o : ℕ) → length text < 2 ^ 64 → ReadsUri text o (try_get_uri text o)
unfolding try_get_uri
try_get_uri-ReadsUri text o fits = elim (Option-cases (at text o)) [
  | inl past ↦ rw past (at-none text o past)
  | inr (c, here) ↦ elim (Bool-cases (c == b'/')) [
    | inr other ↦ rw (here, other) (inr (inl refl))
    | inl slash ↦
        let (rest, cut) = at-drop text o c here in
        rw (here, slash)
          (uri_to-ReadsUri text rest o fits (at-lt text o c here)
            (cut ∙ ap (λ x. x ∷ rest) ((==_iff c b'/').0 slash)))
  ]
]

pub starts_with-split :
    (p text : Bytes) → starts_with p text ≡ true → (rest : Bytes) × (text ≡ p ++ rest)
unfolding starts_with
starts_with-split [] text h = (text, refl)
starts_with-split (c ∷ p) [] h = cc
starts_with-split (c ∷ p) (d ∷ text) h =
    let (rest, e) = starts_with-split p text (ground arith) in (rest, ground arith)

-- A token at the start of the text: the text begins with its name.
abbrev pub Begins : {A : Type 0} → (A → Bytes) → Bytes → A → ℕ → Type 0
Begins name text a o = (rest : Bytes) × (text ≡ name a ++ rest) × (o ≡ length (name a))

pub try_get_token-Begins :
    {A : Type 0} (name : A → Bytes) (table : List (A × Bytes)) (e : Error) (text : Bytes)
    → All (λ entry. entry.1 ≡ name entry.0) table
    → IsParseError (make_error_code e)
    → Post (Begins name text) ⊥ (try_get_token table e text 0)
unfolding try_get_token
try_get_token-Begins name [] e text named p = p
try_get_token-Begins name ((a, t) ∷ table) e text named p = elim (Bool-cases (starts_with t text)) [
  | inl here ↦
      let (rest, splits) = starts_with-split t text here in
      rw (substr_from_in_range text 0 (omega arith), here)
        (rest, splits ∙ ap (λ x. x ++ rest) named.0, omega (arith, ap length named.0))
  | inr there ↦
      rw (substr_from_in_range text 0 (omega arith), there)
        (try_get_token-Begins name table e text named.1 p)
]
