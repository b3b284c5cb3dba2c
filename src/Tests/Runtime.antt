-- ===== src/Tests/Runtime.antt =====
-- Runs of identifiers, operations and the thread pool.
use pine_http.Prelude.{◌^◌, ◌%◌, ◌<◌, ◌≡◌, ◌≢◌, ◌↔◌, refl, true, arith}
use pine_http.Snowflake.{
  Snowflake, IsPacked, generate, from_id, to_id, equal_to, differs_from, equal_to_id,
  differs_from_id,
}
use pine_http.Snowflake.Codec.{to_id-from_id, equal_to-to_id}
use pine_http.Snowflake.Made.{generates, Made-IsPacked}
use pine_http.Snowflake.Generation.{generate-to_id}

abbrev stamp : Snowflake
stamp = record { timestamp = 5; worker_id = 1; process_id = 2; sequence = 3 }

stamp-IsPacked : IsPacked stamp
stamp-IsPacked = record {
  timestamp_bits = omega arith;
  worker_bits = omega arith;
  process_bits = omega arith;
  sequence_bits = omega arith;
}

to_id-stamp : to_id stamp ≡ 21110787
unfolding to_id
to_id-stamp = refl

to_id-from_id_example : (to_id (from_id 21110787) ≡ 21110787) × IsPacked (from_id 21110787)
to_id-from_id_example = to_id-from_id 21110787 (omega arith)

Made-IsPacked_example :
    IsPacked (generate 0 1700000000000 7)
    × (to_id (generate 0 1700000000000 7) < 2 ^ 64)
    × (from_id (to_id (generate 0 1700000000000 7)) ≡ generate 0 1700000000000 7)
Made-IsPacked_example = Made-IsPacked (generates 0 1700000000000 7)

equal_to-to_id_example :
    ((equal_to stamp stamp ≡ true) ↔ (to_id stamp ≡ to_id stamp))
    × ((differs_from stamp stamp ≡ true) ↔ (to_id stamp ≢ to_id stamp))
    × ((equal_to_id stamp (to_id stamp) ≡ true) ↔ (to_id stamp ≡ to_id stamp))
    × ((differs_from_id stamp (to_id stamp) ≡ true) ↔ (to_id stamp ≢ to_id stamp))
equal_to-to_id_example = equal_to-to_id stamp stamp stamp-IsPacked stamp-IsPacked

generate-to_id_example :
    ((to_id (generate 0 1700000000000 7) ≡ to_id (generate 0 1700000000001 9))
      ↔ (1700000000000 % 2 ^ 42 ≡ 1700000000001 % 2 ^ 42))
    × ((to_id (generate 0 1700000000000 7) < to_id (generate 0 1700000000001 9))
        ↔ (1700000000000 % 2 ^ 42 < 1700000000001 % 2 ^ 42))
generate-to_id_example = generate-to_id 1700000000000 1700000000001 7 9 (omega arith) (omega arith)
