-- ===== src/Snowflake/Generation.antt =====
-- The identifiers that `snowflake()` makes. The static member `last_millisecond` is 0 for the whole
-- run: nothing in the sources assigns it.
use pine_http.Prelude.{ℕ, ◌*◌, ◌<◌, ◌∙◌, ◌%◌, ◌^◌, ◌≡◌, ◌≢◌, ◌↔◌, arith}
use pine_http.Snowflake.{Snowflake, IsPacked, generate, to_id}
use pine_http.Snowflake.Codec.{to_id-sum}

pub generate-IsPacked : (last now garbage : ℕ) → IsPacked (generate last now garbage)
unfolding generate
generate-IsPacked last now garbage = ground arith

abbrev stamped : ℕ → Snowflake
stamped t = record { timestamp = t; worker_id = 0; process_id = 0; sequence = 0 }

generate-stamped :
    (now garbage : ℕ) → now % 2 ^ 42 ≢ 0 → generate 0 now garbage ≡ stamped (now % 2 ^ 42)
unfolding generate
generate-stamped now garbage h = ground arith

to_id-stamped : (t : ℕ) → t < 2 ^ 42 → to_id (stamped t) ≡ t * 2 ^ 22
to_id-stamped t h = to_id-sum (stamped t) (ground arith) ∙ omega arith

generate-milliseconds :
    (now garbage : ℕ) → now % 2 ^ 42 ≢ 0 → to_id (generate 0 now garbage) ≡ now % 2 ^ 42 * 2 ^ 22
generate-milliseconds now garbage h =
    rw (generate-stamped now garbage h) (to_id-stamped (now % 2 ^ 42) (omega arith))

-- With `last_millisecond` at 0, as it stays, two generated identifiers are equal exactly if the
-- clock gave the same millisecond, modulo 2 ^ 42, provided that neither is 0: the sequence number
-- does not tell them apart. And one is below the other exactly if its millisecond, modulo 2 ^ 42, is.
pub generate-to_id :
    (now later garbage garbage' : ℕ)
    → now % 2 ^ 42 ≢ 0
    → later % 2 ^ 42 ≢ 0
    → ((to_id (generate 0 now garbage) ≡ to_id (generate 0 later garbage'))
        ↔ (now % 2 ^ 42 ≡ later % 2 ^ 42))
      × ((to_id (generate 0 now garbage) < to_id (generate 0 later garbage'))
          ↔ (now % 2 ^ 42 < later % 2 ^ 42))
generate-to_id now later garbage garbage' h h' = (
  (λ e. omega (arith, at_now, at_later), λ e. omega (arith, at_now, at_later)),
  (λ e. omega (arith, at_now, at_later), λ e. omega (arith, at_now, at_later)),
)
  where
    at_now : to_id (generate 0 now garbage) ≡ now % 2 ^ 42 * 2 ^ 22
    at_now = generate-milliseconds now garbage h

    at_later : to_id (generate 0 later garbage') ≡ later % 2 ^ 42 * 2 ^ 22
    at_later = generate-milliseconds later garbage' h'
