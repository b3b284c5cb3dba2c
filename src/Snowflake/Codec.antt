-- ===== src/Snowflake/Codec.antt =====
-- The identifier and its fields determine one another.
use Prim.Native.Nat.{bit_or}
use pine_http.Prelude.{
  ℕ, ◌+◌, ◌*◌, ◌/◌, ◌%◌, ◌^◌, ◌<◌, ◌≡◌, ◌↔◌, ◌≢◌, Bool, not, refl, sym, ap, ◌∙◌, true, false, arith,
  ==_iff,
}
use pine_http.Bits.{bit_and-mask, bit_or-shift}
use pine_http.Snowflake.{
  Snowflake, IsPacked, from_id, to_id, equal_to, differs_from, equal_to_id, differs_from_id,
}

-- The fields that `snowflake(id)` stores, as digits of the identifier.
from_id-fields :
    (id : ℕ)
    → id < 2 ^ 64
    → from_id id ≡ record {
      timestamp = id / 2 ^ 22;
      worker_id = id / 2 ^ 17 % 2 ^ 5;
      process_id = id / 2 ^ 12 % 2 ^ 5;
      sequence = id % 2 ^ 12;
    }
unfolding from_id
from_id-fields id h =
    ground (arith, bit_and-mask 5 (id / 2 ^ 17), bit_and-mask 5 (id / 2 ^ 12), bit_and-mask 12 id)

-- Every field stays within its bits.
pub from_id-IsPacked : (id : ℕ) → IsPacked (from_id id)
unfolding from_id
from_id-IsPacked id = omega arith

pub to_id-sum :
    (s : Snowflake)
    → IsPacked s
    → to_id s ≡ s.timestamp * 2 ^ 22 + s.worker_id * 2 ^ 17 + s.process_id * 2 ^ 12 + s.sequence
unfolding to_id
to_id-sum s p =
    rw (top, with_worker, with_process)
      (ap (λ high. bit_or high s.sequence) (omega arith)
        ∙ bit_or-shift 12 (s.timestamp * 2 ^ 10 + s.worker_id * 2 ^ 5 + s.process_id) s.sequence
            p.sequence_bits
        ∙ omega arith)
  where
    top : s.timestamp * 2 ^ 22 % 2 ^ 64 ≡ s.timestamp * 2 ^ 22
    top = omega (arith, p.timestamp_bits)

    with_worker :
        bit_or (s.timestamp * 2 ^ 22) (s.worker_id * 2 ^ 17)
        ≡ (s.timestamp * 2 ^ 5 + s.worker_id) * 2 ^ 17
    with_worker =
        bit_or-shift 22 s.timestamp (s.worker_id * 2 ^ 17) (omega (arith, p.worker_bits))
        ∙ omega arith

    with_process :
        bit_or ((s.timestamp * 2 ^ 5 + s.worker_id) * 2 ^ 17) (s.process_id * 2 ^ 12)
        ≡ (s.timestamp * 2 ^ 5 + s.worker_id) * 2 ^ 17 + s.process_id * 2 ^ 12
    with_process =
        bit_or-shift 17 (s.timestamp * 2 ^ 5 + s.worker_id) (s.process_id * 2 ^ 12)
          (omega (arith, p.process_bits))

to_id-lt : (s : Snowflake) → IsPacked s → to_id s < 2 ^ 64
to_id-lt s p =
    omega (arith, to_id-sum s p, p.timestamp_bits, p.worker_bits, p.process_bits, p.sequence_bits)

-- A 64-bit identifier is read back from its fields, which stay within their bits.
pub to_id-from_id : (id : ℕ) → id < 2 ^ 64 → (to_id (from_id id) ≡ id) × IsPacked (from_id id)
to_id-from_id id h = (
  to_id-sum (from_id id) (from_id-IsPacked id) ∙ rw (from_id-fields id h) (omega arith),
  from_id-IsPacked id,
)

-- Fields within their bits are read back from the identifier, which has 64 bits.
pub from_id-to_id : (s : Snowflake) → IsPacked s → (from_id (to_id s) ≡ s) × (to_id s < 2 ^ 64)
from_id-to_id s p = (
  from_id-fields (to_id s) (to_id-lt s p)
      ∙ rw (to_id-sum s p)
          (ground (arith, p.timestamp_bits, p.worker_bits, p.process_bits, p.sequence_bits)),
  to_id-lt s p,
)

equal_to_iff : (s t : Snowflake) → (equal_to s t ≡ true) ↔ (s ≡ t)
unfolding equal_to
equal_to_iff s t = ground arith

to_id_injective : (s t : Snowflake) → IsPacked s → IsPacked t → to_id s ≡ to_id t → s ≡ t
to_id_injective s t p q e = sym (from_id-to_id s p).0 ∙ ap from_id e ∙ (from_id-to_id t q).0

not_iff : (b : Bool) (P : Type 0) → ((b ≡ true) ↔ P) → ((not b ≡ true) ↔ (¬ P))
not_iff true P h = (λ e. absurd (cc e), λ np. absurd (np (h.0 refl)))
not_iff false P h = (λ e pf. cc (h.1 pf), λ np. refl)

differs_from-not : (s t : Snowflake) → differs_from s t ≡ not (equal_to s t)
unfolding differs_from
differs_from-not s t = refl

differs_from_id-not : (s : Snowflake) (id : ℕ) → differs_from_id s id ≡ not (equal_to_id s id)
unfolding differs_from_id
differs_from_id-not s id = refl

equal_to_id_iff : (s : Snowflake) (id : ℕ) → (equal_to_id s id ≡ true) ↔ (to_id s ≡ id)
unfolding equal_to_id
equal_to_id_iff s id = ==_iff (to_id s) id

-- Of two packed snowflakes, `==` tells exactly whether their identifiers are equal, `!=` whether
-- they differ, and the comparisons with an identifier agree.
pub equal_to-to_id :
    (s t : Snowflake)
    → IsPacked s
    → IsPacked t
    → ((equal_to s t ≡ true) ↔ (to_id s ≡ to_id t))
      × ((differs_from s t ≡ true) ↔ (to_id s ≢ to_id t))
      × ((equal_to_id s (to_id t) ≡ true) ↔ (to_id s ≡ to_id t))
      × ((differs_from_id s (to_id t) ≡ true) ↔ (to_id s ≢ to_id t))
equal_to-to_id s t p q = (
  same,
  rw differs_from-not (not_iff (equal_to s t) _ same),
  equal_to_id_iff s (to_id t),
  rw differs_from_id-not (not_iff (equal_to_id s (to_id t)) _ (equal_to_id_iff s (to_id t))),
)
  where
    same : (equal_to s t ≡ true) ↔ (to_id s ≡ to_id t)
    same = (
      λ h. ap to_id ((equal_to_iff s t).0 h),
      λ e. (equal_to_iff s t).1 (to_id_injective s t p q e),
    )
