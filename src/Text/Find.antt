-- ===== src/Text/Find.antt =====
-- Lemmas on `find`: where a text holds its first separator.
use mathlib.Core.Option
use pine_http.Prelude.{
  Bool, not, ◌&&◌, ◌==◌, ℕ, ◌+◌, ◌≢◌, ◌≡◌, refl, true, [], ◌∷◌, ◌++◌, none, some, arith, ap, ◌∙◌,
  length, length-append, drop-append, All,
}
use pine_http.Text.{Bytes, starts_with, find_first, find}

-- None of the bytes is `c`.
abbrev pub Free : ℕ → Bytes → Type 0
Free c = All (λ x. x ≢ c)

-- The same as a test, for texts that are written out.
abbrev pub free_of : ℕ → Bytes → Bool
free_of c [] = true
free_of c (x ∷ xs) = not (x == c) && free_of c xs

pub free_of-Free : (c : ℕ) (xs : Bytes) → free_of c xs ≡ true → Free c xs
free_of-Free c [] h = tt
free_of-Free c (x ∷ xs) h = (ground arith, free_of-Free c xs (ground arith))

pub starts_with-append : (p rest : Bytes) → starts_with p (p ++ rest) ≡ true
unfolding starts_with
starts_with-append [] rest = refl
starts_with-append (c ∷ p) rest = ground (arith, starts_with-append p rest)

-- A text free of the pattern's first byte hides no occurrence before its end.
pub find_first-Free :
    (c : ℕ) (ps pre rest : Bytes)
    → Free c pre
    → find_first (c ∷ ps) (pre ++ ((c ∷ ps) ++ rest)) ≡ some (length pre)
unfolding find_first starts_with
find_first-Free c ps [] rest h = ground (arith, starts_with-append ps rest)
find_first-Free c ps (x ∷ pre) rest h = ground (arith, find_first-Free c ps pre rest h.1)

pub find_first-none : (c : ℕ) (ps text : Bytes) → Free c text → find_first (c ∷ ps) text ≡ none
unfolding find_first starts_with
find_first-none c ps [] h = refl
find_first-none c ps (x ∷ text) h = ground (arith, find_first-none c ps text h.1)

-- `find` from the end of a part that has been read looks at what follows alone.
pub find-append :
    (pattern pre rest : Bytes)
    → find pattern (pre ++ rest) (length pre)
      ≡ Option.map (λ n. length pre + n) (find_first pattern rest)
unfolding find
find-append pattern pre rest = ground (arith, length-append pre rest, drop-append pre rest)

find-Free :
    (c : ℕ) (ps pre mid rest : Bytes)
    → Free c mid
    → find (c ∷ ps) (pre ++ (mid ++ ((c ∷ ps) ++ rest))) (length pre)
      ≡ some (length pre + length mid)
find-Free c ps pre mid rest h =
    find-append (c ∷ ps) pre _
    ∙ ap (Option.map (λ n. length pre + n)) (find_first-Free c ps mid rest h)
