-- ===== src/Text/Bounds.antt =====
-- Where `find` can point to, and when `substr` does not throw.
use pine_http.Prelude.{
  ℕ, ◌+◌, ◌≤◌, ◌≡◌, [], ◌∷◌, some, none, ◌<◌, arith, length, take, min, drop, length-drop, zero,
  suc, true, ◌-◌,
}
use pine_http.Text.{Bytes, starts_with, find_first, find, substr, substr_from}

pub starts_with-le : (p text : Bytes) → starts_with p text ≡ true → length p ≤ length text
unfolding starts_with
starts_with-le [] text h = omega arith
starts_with-le (c ∷ p) [] h = cc
starts_with-le (c ∷ p) (d ∷ text) h = ground (arith, starts_with-le p text)

find_first-le : (p text : Bytes) (n : ℕ) → find_first p text ≡ some n → n + length p ≤ length text
unfolding find_first
find_first-le p [] n h = ground (arith, starts_with-le p [])
find_first-le p (c ∷ text) zero h = ground (arith, starts_with-le p (c ∷ text))
find_first-le p (c ∷ text) (suc n) h = ground (arith, find_first-le p text n)

-- An occurrence lies at or behind `pos`, and within the text.
pub find_bounds :
    (p text : Bytes) (pos n : ℕ)
    → find p text pos ≡ some n
    → (pos ≤ n) × (n + length p ≤ length text)
unfolding find
find_bounds p text pos n h =
    ground (arith, length-drop pos text, find_first-le p (drop pos text) (n - pos))

pub substr_in_range :
    (text : Bytes) (pos count : ℕ)
    → pos ≤ length text
    → (s : Bytes) × (substr text pos count ≡ some s)
unfolding substr
substr_in_range text pos count h =
    (take (min count (length text - pos)) (drop pos text), ground arith)

pub substr_from_in_range :
    (text : Bytes) (pos : ℕ) → pos ≤ length text → substr_from text pos ≡ some (drop pos text)
unfolding substr_from
substr_from_in_range text pos h = ground arith

pub substr_from_beyond : (text : Bytes) (pos : ℕ) → length text < pos → substr_from text pos ≡ none
unfolding substr_from
substr_from_beyond text pos h = ground arith
