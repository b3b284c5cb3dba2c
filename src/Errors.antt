-- ===== src/Errors.antt =====
-- shared/include/error.h: the errors of the library and their texts, as values of std::error_code.
-- `Expected` is std::expected, whose implementation (shared/include/expected.h) is a third party's.
use Prim.Native.String.{String}
use pine_http.Prelude.{ℕ, zero, suc}

-- `enum class error`
pub data Error : Type 0 where
  success parse_error_method parse_error_uri parse_error_version : Error
  parse_error_headers parse_error_body parse_error_status client_not_found : Error

-- The integer of an enumerator: `static_cast<int>(e)`.
unfoldable pub error_value : Error → ℕ
error_value success = 0
error_value parse_error_method = 1
error_value parse_error_uri = 2
error_value parse_error_version = 3
error_value parse_error_headers = 4
error_value parse_error_body = 5
error_value parse_error_status = 6
error_value client_not_found = 7

-- The category of an error code: the library's own, std::generic_category, std::system_category.
pub data Category : Type 0 where
  pine generic system : Category

-- `std::error_code`
pub record ErrorCode : Type 0 where
  pub code : ℕ
  pub category : Category

-- `make_error_code(error)`
unfoldable pub make_error_code : Error → ErrorCode
unfolding error_value
make_error_code e = record { code = error_value e; category = pine }

-- `std::make_error_code(std::errc)`
abbrev pub make_errc : ℕ → ErrorCode
make_errc n = record { code = n; category = generic }

-- The enumerators of std::errc that the sources name, by their numbers in the Windows runtime.
abbrev pub connection_reset : ℕ
connection_reset = 108

abbrev pub message_size : ℕ
message_size = 115

abbrev pub operation_canceled : ℕ
operation_canceled = 105

-- The error code that stands for no error, `std::error_code{}`.
abbrev pub no_error : ErrorCode
no_error = record { code = 0; category = system }

-- `error_category::message`
unfoldable pub message : ℕ → String
message zero = "Success"
message (suc zero) = "Parse error: method"
message (suc (suc zero)) = "Parse error: URI"
message (suc (suc (suc zero))) = "Parse error: version"
message (suc (suc (suc (suc zero)))) = "Parse error: headers"
message (suc (suc (suc (suc (suc zero))))) = "Parse error: body"
message (suc (suc (suc (suc (suc (suc zero)))))) = "Parse error: status"
message _ = "Unknown"

-- `std::expected<A, std::error_code>`
pub data Expected {ℓ} (A : Type ℓ) : Type ℓ where
  value : A → Expected A
  unexpected : ErrorCode → Expected A
