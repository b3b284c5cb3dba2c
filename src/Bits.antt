-- ===== src/Bits.antt =====
-- Laws of the bit operations at variables, from the digits that they are defined by: a mask of ones
-- is a remainder, and `|` of numbers that share no digit is a sum.
use Prim.Native.Nat.{bit_and, bit_or, digits, bitwise, bit_and-bitwise, bit_or-bitwise, max}
use native.Mathlib.Nat.{pow-succ', div-add-mod', mod-lt}
use pine_http.Prelude.{
  ℕ, zero, suc, ◌+◌, ◌-◌, ◌*◌, ◌/◌, ◌%◌, ◌^◌, ◌≤◌, ◌<◌, ◌≡◌, refl, ap, sym, ◌∙◌, min, arith,
}

-- One digit at a time, for any operation on digits. More fuel than the first number changes nothing.
module _ (last : ℕ → ℕ) (op : ℕ → ℕ → ℕ) where
  digits-bitwise : (n x y : ℕ) (m : ℕ) → x ≤ n → x ≤ m → digits last op n x y ≡ digits last op m x y
  digits-bitwise n zero y m _ _ = at_zero n ∙ sym (at_zero m)
    where
      at_zero : (k : ℕ) → digits last op k 0 y ≡ last y
      at_zero zero = refl
      at_zero (suc k) = refl
  digits-bitwise zero (suc x) y m small _ = elim small [ ]
  digits-bitwise (suc n) (suc x) y zero _ small = elim small [ ]
  digits-bitwise (suc n) (suc x) y (suc m) h h' =
      ap (λ high. high * 2 + op (suc x % 2) (y % 2))
        (digits-bitwise n (suc x / 2) (y / 2) m (omega arith) (omega arith))

  bitwise-halves :
      (x y : ℕ)
      → bitwise last op (suc x) y ≡ bitwise last op (suc x / 2) (y / 2) * 2 + op (suc x % 2) (y % 2)
  bitwise-halves x y =
      ap (λ high. high * 2 + op (suc x % 2) (y % 2))
        (digits-bitwise x (suc x / 2) (y / 2) (suc x / 2) (omega arith) (omega arith))

bit_and-halves : (x y : ℕ) → bit_and x y ≡ bit_and (x / 2) (y / 2) * 2 + min (x % 2) (y % 2)
bit_and-halves zero y = omega (arith, bit_and-bitwise 0 y, bit_and-bitwise 0 (y / 2))
bit_and-halves (suc x) y = omega (
  arith,
  bitwise-halves (λ _. 0) min x y,
  bit_and-bitwise (suc x) y,
  bit_and-bitwise (suc x / 2) (y / 2),
)

bit_or-halves : (x y : ℕ) → bit_or x y ≡ bit_or (x / 2) (y / 2) * 2 + max (x % 2) (y % 2)
bit_or-halves zero y = omega (arith, bit_or-bitwise 0 y, bit_or-bitwise 0 (y / 2))
bit_or-halves (suc x) y = omega (
  arith,
  bitwise-halves (λ b. b) max x y,
  bit_or-bitwise (suc x) y,
  bit_or-bitwise (suc x / 2) (y / 2),
)

-- The bound serves the induction alone.
bit_and-none : (bound x : ℕ) → x ≤ bound → bit_and x 0 ≡ 0
bit_and-none bound zero h = refl
bit_and-none zero (suc x) h = elim h [ ]
bit_and-none (suc bound) (suc x) h =
    omega (arith, bit_and-halves (suc x) 0, bit_and-none bound (suc x / 2) (omega arith))

bit_or-none : (bound x : ℕ) → x ≤ bound → bit_or x 0 ≡ x
bit_or-none bound zero h = refl
bit_or-none zero (suc x) h = elim h [ ]
bit_or-none (suc bound) (suc x) h =
    omega (arith, bit_or-halves (suc x) 0, bit_or-none bound (suc x / 2) (omega arith))

shifted : (k x : ℕ) → x * 2 ^ suc k ≡ 2 * (x * 2 ^ k)
shifted k x = omega (arith, ap (λ (p : ℕ). x * p) (pow-succ' 2 k))

pow-pos : (k : ℕ) → 0 < 2 ^ k
pow-pos zero = omega arith
pow-pos (suc k) = omega (arith, pow-succ' 2 k, pow-pos k)

bit_and-low : (k q r : ℕ) → r < 2 ^ k → bit_and (q * 2 ^ k + r) (2 ^ k - 1) ≡ r
bit_and-low zero q r h = bit_and-none (q * 1 + r) (q * 1 + r) (omega arith) ∙ omega arith
bit_and-low (suc k) q r h =
    bit_and-halves (q * 2 ^ suc k + r) (2 ^ suc k - 1)
    ∙ rw (high, mask)
        (omega (arith, bit_and-low k q (r / 2) (omega (arith, half)), half, pow-pos k, shifted k q))
  where
    half : 2 ^ suc k ≡ 2 * 2 ^ k
    half = pow-succ' 2 k

    high : (q * 2 ^ suc k + r) / 2 ≡ q * 2 ^ k + r / 2
    high = omega (arith, shifted k q)

    mask : (2 ^ suc k - 1) / 2 ≡ 2 ^ k - 1
    mask = omega (arith, half, pow-pos k)

-- `x & (2^k - 1)` keeps the k lowest digits.
pub bit_and-mask : (k x : ℕ) → bit_and x (2 ^ k - 1) ≡ x % 2 ^ k
bit_and-mask k x =
    ap (λ y. bit_and y (2 ^ k - 1)) (sym (div-add-mod' x (2 ^ k)))
    ∙ bit_and-low k (x / 2 ^ k) (x % 2 ^ k) (mod-lt x (pow-pos k))

-- `(x << k) | y` is a sum where y has k digits at most.
pub bit_or-shift : (k x y : ℕ) → y < 2 ^ k → bit_or (x * 2 ^ k) y ≡ x * 2 ^ k + y
bit_or-shift zero x zero h = bit_or-none (x * 1) (x * 1) (omega arith) ∙ omega arith
bit_or-shift zero x (suc y) h = absurd (omega arith)
bit_or-shift (suc k) x y h =
    bit_or-halves (x * 2 ^ suc k) y
    ∙ rw halved
        (omega (arith, bit_or-shift k x (y / 2) (omega (arith, pow-succ' 2 k)), shifted k x))
  where
    halved : (x * 2 ^ suc k) / 2 ≡ x * 2 ^ k
    halved = omega (arith, shifted k x)
