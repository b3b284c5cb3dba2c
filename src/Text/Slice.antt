-- ===== src/Text/Slice.antt =====
-- Lemmas on `substr` and `at` at the end of a part that has been read.
use pine_http.Prelude.{
  ℕ, ◌≤◌, ◌≡◌, refl, [], ◌∷◌, ◌++◌, some, arith, ap, ◌∙◌, min, length, take, length-append,
  drop-append, take-append, take-all,
}
use pine_http.Text.{Bytes, substr, substr_from, at}

pub substr_from-append : (pre rest : Bytes) → substr_from (pre ++ rest) (length pre) ≡ some rest
unfolding substr_from
substr_from-append pre rest = ground (arith, length-append pre rest, drop-append pre rest)

take-min : (mid rest : Bytes) → take (min (length mid) (length (mid ++ rest))) (mid ++ rest) ≡ mid
take-min mid rest =
    ap (λ n. take n (mid ++ rest)) (omega (arith, length-append mid rest)) ∙ take-append mid rest

pub substr-append :
    (pre mid rest : Bytes) → substr (pre ++ (mid ++ rest)) (length pre) (length mid) ≡ some mid
unfolding substr
substr-append pre mid rest =
    ground
      (arith, length-append pre (mid ++ rest), drop-append pre (mid ++ rest), take-min mid rest)

-- A count past the end takes all that is left.
pub substr-all :
    (pre rest : Bytes) (count : ℕ)
    → length rest ≤ count
    → substr (pre ++ rest) (length pre) count ≡ some rest
unfolding substr
substr-all pre rest count h =
    ground (arith, length-append pre rest, drop-append pre rest, take-all (length rest) rest)

pub at-append : (pre : Bytes) (c : ℕ) (rest : Bytes) → at (pre ++ (c ∷ rest)) (length pre) ≡ some c
unfolding at
at-append [] c rest = refl
at-append (x ∷ pre) c rest = at-append pre c rest
