-- ===== src/Text/Decimal.antt =====
-- The digits that `std::to_string` writes, read back.
use pine_http.Prelude.{
  ℕ, zero, suc, ◌+◌, ◌*◌, ◌-◌, ◌/◌, ◌%◌, ◌^◌, ◌<◌, ◌≡◌, ap, ◌∙◌, [], ◌∷◌, arith, ltb, Bool-cases,
  inl, inr,
}
use pine_http.Text.{Bytes, decimal_onto, to_decimal}

-- The number that some digits go on to write, behind those of `n`.
abbrev pub read_from : ℕ → Bytes → ℕ
read_from n [] = n
read_from n (digit ∷ digits) = read_from (n * 10 + (digit - b'0')) digits

abbrev pub read_decimal : Bytes → ℕ
read_decimal digits = read_from 0 digits

-- Enough fuel writes all the digits.
decimal_onto-read_from :
    (fuel n : ℕ) (out : Bytes)
    → n < 10 ^ fuel
    → read_from 0 (decimal_onto fuel n out) ≡ read_from n out
unfolding decimal_onto
decimal_onto-read_from zero n out h = ap (λ k. read_from k out) (omega arith)
decimal_onto-read_from (suc fuel) n out h = elim (Bool-cases (ltb n 10)) [
  | inl last ↦ rw last (ap (λ k. read_from k out) (omega arith))
  | inr more ↦ rw more (
      decimal_onto-read_from fuel (n / 10) ((b'0' + n % 10) ∷ out) (omega arith)
      ∙ ap (λ k. read_from k out) (omega arith))
]

pub read_decimal-to_decimal : (n : ℕ) → n < 2 ^ 64 → read_decimal (to_decimal n) ≡ n
unfolding to_decimal
read_decimal-to_decimal n h = decimal_onto-read_from 20 n [] (omega arith)
