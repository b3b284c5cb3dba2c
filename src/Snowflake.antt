-- ===== src/Snowflake.antt =====
-- shared/include/snowflake.h and shared/src/snowflake.cpp: identifiers of 64 bits in four bit
-- fields. The clock is an argument; a field that the constructor reads before it is set is an
-- argument too.
pub mod Codec
pub mod Generation
pub mod Made
use Prim.Native.Nat.{bit_and, bit_or}
use pine_http.Prelude.{ℕ, ◌+◌, ◌*◌, ◌/◌, ◌%◌, ◌^◌, ◌<◌, Bool, ◌&&◌, not, ◌==◌, if◌then◌else◌}

-- `struct snowflake`
pub record Snowflake : Type 0 where
  pub timestamp : ℕ  -- 42 bits
  pub worker_id : ℕ  -- 5 bits
  pub process_id : ℕ  -- 5 bits
  pub sequence : ℕ  -- 12 bits

-- `snowflake()`. `now` is the clock in milliseconds, `last_millisecond` the static member, and
-- `garbage` what the field `sequence` holds before it is set.
unfoldable pub generate : (last_millisecond now garbage : ℕ) → Snowflake
generate last_millisecond now garbage = record {
  timestamp = now % 2 ^ 42;
  worker_id = 0;
  process_id = 0;
  sequence = if last_millisecond == now % 2 ^ 42 then (garbage + 1) % 2 ^ 12 else 0;
}

-- `snowflake(id)`: the last operation of each line is the store into the bit field.
unfoldable pub from_id : ℕ → Snowflake
from_id id = record {
  timestamp = id / 2 ^ 22 % 2 ^ 42;
  worker_id = bit_and (id / 2 ^ 17) 0x1F % 2 ^ 5;
  process_id = bit_and (id / 2 ^ 12) 0x1F % 2 ^ 5;
  sequence = bit_and id 0xFFF % 2 ^ 12;
}

-- `operator=(id)`
unfoldable pub assign : Snowflake → ℕ → Snowflake
assign s id = from_id id

-- `operator uint64_t()`
unfoldable pub to_id : Snowflake → ℕ
to_id s =
    bit_or
      (bit_or (bit_or (s.timestamp * 2 ^ 22 % 2 ^ 64) (s.worker_id * 2 ^ 17))
        (s.process_id * 2 ^ 12))
      s.sequence

-- `operator==(snowflake)`
unfoldable pub equal_to : Snowflake → Snowflake → Bool
equal_to s other =
    s.timestamp == other.timestamp
    && s.worker_id == other.worker_id
    && s.process_id == other.process_id
    && s.sequence == other.sequence

-- `operator!=(snowflake)`
unfoldable pub differs_from : Snowflake → Snowflake → Bool
unfolding equal_to
differs_from s other = not (equal_to s other)

-- `operator==(uint64_t)`
unfoldable pub equal_to_id : Snowflake → ℕ → Bool
unfolding to_id
equal_to_id s other = to_id s == other

-- `operator!=(uint64_t)`
unfoldable pub differs_from_id : Snowflake → ℕ → Bool
unfolding equal_to_id
differs_from_id s other = not (equal_to_id s other)

-- The fields hold no more than their bits.
pub record IsPacked (s : Snowflake) : Type 0 where
  pub timestamp_bits : s.timestamp < 2 ^ 42
  pub worker_bits : s.worker_id < 2 ^ 5
  pub process_bits : s.process_id < 2 ^ 5
  pub sequence_bits : s.sequence < 2 ^ 12
