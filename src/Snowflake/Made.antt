-- ===== src/Snowflake/Made.antt =====
-- The snowflakes that the operations of shared/src/snowflake.cpp make.
use pine_http.Prelude.{ℕ, ◌^◌, ◌<◌, ◌≡◌}
use pine_http.Snowflake.{Snowflake, IsPacked, generate, from_id, assign, to_id}
use pine_http.Snowflake.Codec.{from_id-IsPacked, from_id-to_id}
use pine_http.Snowflake.Generation.{generate-IsPacked}

-- A snowflake that is generated, read from an identifier, or assigned one.
pub data Made : Snowflake → Type 0 where
  generates : (last_millisecond now garbage : ℕ) → Made (generate last_millisecond now garbage)
  reads : (id : ℕ) → Made (from_id id)
  assigns : {s : Snowflake} → Made s → (id : ℕ) → Made (assign s id)

Made-fields : {s : Snowflake} → Made s → IsPacked s
unfolding assign
Made-fields (generates last now garbage) = generate-IsPacked last now garbage
Made-fields (reads id) = from_id-IsPacked id
Made-fields (assigns m id) = from_id-IsPacked id

-- Every snowflake that the program can make, generated at any clock and from whatever its field held
-- before, read from any identifier, or assigned one: its fields stay within their bits, its
-- identifier has 64 bits, and the snowflake is read back from it.
pub Made-IsPacked :
    {s : Snowflake} → Made s → IsPacked s × (to_id s < 2 ^ 64) × (from_id (to_id s) ≡ s)
Made-IsPacked {s} m =
    let packed = Made-fields m in
    let (read, small) = from_id-to_id s packed in (packed, small, read)
