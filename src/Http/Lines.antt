-- ===== src/Http/Lines.antt =====
-- Texts without a line end (carriage return and line feed), and where the first line end stands.
use pine_http.Prelude.{
  inl, inr, Bool-cases, ltb, ◌+◌, ◌/◌, ◌%◌, ℕ, zero, suc, ◌-◌, ◌≤◌, ◌≡◌, ◌≢◌, refl, true, false, [],
  ◌∷◌, ◌++◌, none, some, arith, length, take, drop,
}
use pine_http.Text.{Bytes, decimal_onto, to_decimal, starts_with, find_first}
use pine_http.Http.{crlf}

-- No line end stands in the text.
abbrev pub OnLine : Bytes → Type 0
OnLine text = find_first crlf text ≡ none

-- The first line end behind such a text is the one that follows it.
pub find_first-OnLine :
    (line tail : Bytes)
    → OnLine line
    → find_first crlf (line ++ (crlf ++ tail)) ≡ some (length line)
unfolding find_first starts_with
find_first-OnLine [] tail h = refl
find_first-OnLine (c ∷ []) tail h = ground arith
find_first-OnLine (c ∷ d ∷ line) tail h = ground (arith, find_first-OnLine (d ∷ line) tail)

pub OnLine-append :
    (line : Bytes) (c : ℕ) (rest : Bytes)
    → OnLine line
    → c ≢ b'\n'
    → OnLine (c ∷ rest)
    → OnLine (line ++ (c ∷ rest))
unfolding find_first starts_with
OnLine-append [] c rest h not_feed h' = h'
OnLine-append (a ∷ []) c rest h not_feed h' = ground arith
OnLine-append (a ∷ b ∷ line) c rest h not_feed h' = ground (arith, OnLine-append (b ∷ line) c rest)

pub OnLine-not_empty :
    (c : ℕ) (line rest : Bytes) (d : ℕ)
    → OnLine (c ∷ line)
    → d ≢ b'\n'
    → starts_with crlf ((c ∷ line) ++ (d ∷ rest)) ≡ false
unfolding find_first starts_with
OnLine-not_empty c [] rest d h not_feed = ground arith
OnLine-not_empty c (b ∷ line) rest d h not_feed = ground arith

-- What stands before the first line end holds none.
pub take-OnLine :
    (text : Bytes) (n k : ℕ) → find_first crlf text ≡ some n → k ≤ n → OnLine (take k text)
unfolding find_first starts_with
take-OnLine [] n k h le = ground arith
take-OnLine (c ∷ text) n zero h le = ground arith
take-OnLine (c ∷ []) n (suc k) h le = ground arith
take-OnLine (c ∷ d ∷ text) n (suc zero) h le = ground arith
take-OnLine (c ∷ d ∷ text) n (suc (suc k)) h le =
    ground (arith, take-OnLine (d ∷ text) (n - 1) (suc k))

-- The first occurrence, from a place before it.
pub find_first-drop :
    (p text : Bytes) (n k : ℕ)
    → find_first p text ≡ some n
    → k ≤ n
    → find_first p (drop k text) ≡ some (n - k)
unfolding find_first
find_first-drop p text n zero h le = ground arith
find_first-drop p [] n (suc k) h le = ground arith
find_first-drop p (c ∷ text) n (suc k) h le = ground (arith, find_first-drop p text (n - 1) k)

-- The pattern stands where it is found.
pub find_first-starts_with :
    (p text : Bytes) (n : ℕ) → find_first p text ≡ some n → starts_with p (drop n text) ≡ true
unfolding find_first
find_first-starts_with p [] n h = ground arith
find_first-starts_with p (c ∷ text) zero h = ground arith
find_first-starts_with p (c ∷ text) (suc n) h = ground (arith, find_first-starts_with p text n)

-- A pattern that is not found stands nowhere.
pub find_first-none_nowhere :
    (p text : Bytes) (n : ℕ) → find_first p text ≡ none → starts_with p (drop n text) ≢ true
unfolding find_first
find_first-none_nowhere p [] zero h e = ground arith
find_first-none_nowhere p [] (suc n) h e = ground arith
find_first-none_nowhere p (c ∷ text) zero h e = ground arith
find_first-none_nowhere p (c ∷ text) (suc n) h e = ground (arith, find_first-none_nowhere p text n)

OnLine-cons : (c : ℕ) (text : Bytes) → c ≢ b'\r' → OnLine text → OnLine (c ∷ text)
unfolding find_first starts_with
OnLine-cons c text other h = ground arith

-- Digits make no line end.
decimal_onto-OnLine : (fuel n : ℕ) (out : Bytes) → OnLine out → OnLine (decimal_onto fuel n out)
unfolding decimal_onto
decimal_onto-OnLine zero n out h = h
decimal_onto-OnLine (suc fuel) n out h = elim (Bool-cases (ltb n 10)) [
  | inl last ↦ rw last (OnLine-cons (b'0' + n) out (λ e. omega arith) h)
  | inr more ↦ rw more (
      decimal_onto-OnLine fuel (n / 10) ((b'0' + n % 10) ∷ out)
        (OnLine-cons (b'0' + n % 10) out (λ e. omega arith) h))
]

pub to_decimal-OnLine : (n : ℕ) → OnLine (to_decimal n)
unfolding to_decimal find_first starts_with
to_decimal-OnLine n = decimal_onto-OnLine 20 n [] refl
