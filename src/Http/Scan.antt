-- ===== src/Http/Scan.antt =====
-- How a parser of shared/src/http.cpp ends. It takes its `size_t& offset` as an argument, and its
-- result holds the value that the offset has afterwards.
use pine_http.Prelude.{ℕ, ◌+◌, Option, none, some, ◌≡◌, refl}
use pine_http.Errors.{ErrorCode}

pub data Scan {ℓ} (A : Type ℓ) : Type ℓ where
  got : A → ℕ → Scan A  -- a value, and the new offset
  failed : ErrorCode → ℕ → Scan A  -- an unexpected value, and the new offset
  thrown : Scan A  -- an exception std::out_of_range leaves the function
  out_of_fuel : Scan A  -- the model's loop has used up its rounds

-- A parser, applied to the request, as a function of the offset.
abbrev pub Scanner {ℓ} : Type ℓ → Type ℓ
Scanner A = ℕ → Scan A

abbrev pub next {ℓ κ} : {A : Type ℓ} {B : Type κ} → Scan A → (A → Scanner B) → Scan B
next (got a offset) f = f a offset
next (failed e offset) f = failed e offset
next thrown f = thrown
next out_of_fuel f = out_of_fuel

-- `if (!result) return make_unexpected(result.error());`, then the rest with the value.
infixl 5 ◌>>=◌ ◌>>◌
abbrev pub ◌>>=◌ {ℓ κ} : {A : Type ℓ} {B : Type κ} → Scanner A → (A → Scanner B) → Scanner B
◌>>=◌ m f offset = next (m offset) f

abbrev pub ◌>>◌ {ℓ} : {B : Type ℓ} → Scanner (Unit {0}) → Scanner B → Scanner B
m >> k = m >>= λ _. k

abbrev pub pure {ℓ} : {A : Type ℓ} → A → Scanner A
pure = got

-- `offset += n;`
abbrev pub advance : ℕ → Scanner (Unit {0})
advance n offset = got tt (offset + n)

-- A call of the standard library that may throw.
abbrev pub or_throw {ℓ κ} : {A : Type ℓ} {B : Type κ} → Option A → (A → Scan B) → Scan B
or_throw none k = thrown
or_throw (some a) k = k a

-- What the caller of `parse` sees; the offset is a local variable there.
pub data Outcome {ℓ} (A : Type ℓ) : Type ℓ where
  value : A → Outcome A
  unexpected : ErrorCode → Outcome A
  raised : Outcome A
  unfinished : Outcome A

abbrev pub outcome {ℓ} : {A : Type ℓ} → Scan A → Outcome A
outcome (got a offset) = value a
outcome (failed e offset) = unexpected e
outcome thrown = raised
outcome out_of_fuel = unfinished

-- Inversion of a chain that succeeds.
pub next-eq-got {ℓ κ} :
    {A : Type ℓ} {B : Type κ} (m : Scan A) (f : A → Scanner B) {b : B} {n : ℕ}
    → next m f ≡ got b n
    → (a : A) × (o : ℕ) × (m ≡ got a o) × (f a o ≡ got b n)
next-eq-got (got a o) f h = (a, o, refl, h)
next-eq-got (failed e o) f h = cc
next-eq-got thrown f h = cc
next-eq-got out_of_fuel f h = cc

-- The same for use in a longer chain: what follows from its parts follows.
pub next-got_elim {ℓ κ μ} :
    {A : Type ℓ} {B : Type κ} {Q : Type μ} (m : Scan A) (f : A → Scanner B) {b : B} {n : ℕ}
    → next m f ≡ got b n
    → ((a : A) (o : ℕ) → m ≡ got a o → f a o ≡ got b n → Q)
    → Q
next-got_elim (got a o) f h k = k a o refl h
next-got_elim (failed e o) f h k = cc
next-got_elim thrown f h k = cc
next-got_elim out_of_fuel f h k = cc

pub outcome-eq-value {ℓ} :
    {A : Type ℓ} (m : Scan A) {a : A} → outcome m ≡ value a → (n : ℕ) × (m ≡ got a n)
outcome-eq-value (got a o) h = (o, cc)
outcome-eq-value (failed e o) h = cc
outcome-eq-value thrown h = cc
outcome-eq-value out_of_fuel h = cc
