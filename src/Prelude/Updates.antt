-- ===== src/Prelude/Updates.antt =====
-- Functions of the numbers, changed at one number.
use Prim.Native.Nat.{ℕ}
use mathlib.Core.Path.{◌≡◌, refl}
use mathlib.Core.Logic.{◌≢◌, inl, inr}
use pine_http.Prelude.Tests.{◌==◌, if◌then◌else◌, Bool-cases, ==_iff}

abbrev pub put {ℓ} : {A : Type ℓ} → (ℕ → A) → ℕ → A → ℕ → A
put f t a j = if t == j then a else f j

-- What holds of the new value at the number, and of the old ones elsewhere, holds of all.
pub put-cases {ℓ κ} :
    {X : Type ℓ} (Q : X → Type κ) (f : ℕ → X) (t : ℕ) (x : X) (i : ℕ)
    → (t ≡ i → Q x)
    → (t ≢ i → Q (f i))
    → Q (put f t x i)
put-cases Q f t x i here there = elim (Bool-cases (t == i)) [
  | inl same ↦ rw same (here ((==_iff t i).0 same))
  | inr other ↦ rw other (there (λ same. cc (other, (==_iff t i).1 same)))
]

pub put-elim {ℓ κ} :
    {X : Type ℓ} (Q : X → Type κ) (f : ℕ → X) (t : ℕ) (x : X) (i : ℕ)
    → (t ≡ i → Q x)
    → Q (f i)
    → Q (put f t x i)
put-elim Q f t x i here there = put-cases Q f t x i here (λ other. there)

pub put-same {ℓ} : {X : Type ℓ} (f : ℕ → X) (t : ℕ) (x : X) → put f t x t ≡ x
put-same f t x = rw ((==_iff t t).1 refl) refl
