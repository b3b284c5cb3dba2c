-- ===== src/Http.antt =====
-- shared/include/http.h: methods, status codes, versions and their texts. The parsers of http.cpp
-- are in Utils, over the outcomes of Scan.
pub mod Scan
pub mod Utils
pub mod Print
pub mod Tokens
pub mod Headers
pub mod Safety
pub mod Stages
pub mod EmptyValue
pub mod Grammar
pub mod Lines
pub mod Accepted
use pine_http.Prelude.{ℕ, List, [], ◌∷◌, ◌++◌}
use pine_http.Text.{Bytes, codes, to_decimal}

-- `enum class http_method`
pub data HttpMethod : Type 0 where
  get head post : HttpMethod

-- `enum class http_status`
pub data HttpStatus : Type 0 where
  ok bad_request not_found internal_server_error : HttpStatus

-- `enum class http_version`
pub data HttpVersion : Type 0 where
  http_1_1 : HttpVersion

-- `http_method_strings.at(method)`: every method has an entry, so `at` does not throw.
unfoldable pub method_string : HttpMethod → Bytes
method_string get = codes "GET"
method_string head = codes "HEAD"
method_string post = codes "POST"

-- `http_method_strings`, in the order of its iteration.
abbrev pub http_method_strings : List (HttpMethod × Bytes)
http_method_strings =
    (get, method_string get) ∷ (head, method_string head) ∷ (post, method_string post) ∷ []

-- `static_cast<int>(status)`
unfoldable pub status_code : HttpStatus → ℕ
status_code ok = 200
status_code bad_request = 400
status_code not_found = 404
status_code internal_server_error = 500

-- `http_status_strings.at(status)`
unfoldable pub status_string : HttpStatus → Bytes
status_string ok = codes "OK"
status_string bad_request = codes "Bad Request"
status_string not_found = codes "Not Found"
status_string internal_server_error = codes "Internal Server Error"

-- `std::format("{} {}", std::to_string(static_cast<int>(status)), status_string)`
unfoldable pub status_text : HttpStatus → Bytes
unfolding status_code status_string to_decimal
status_text s = to_decimal (status_code s) ++ (b' ' ∷ status_string s)

-- `http_status_strings`, in the order of its iteration, each entry with its code in front as
-- `try_get_status` compares it.
abbrev pub http_status_strings : List (HttpStatus × Bytes)
http_status_strings =
    (ok, status_text ok)
    ∷ (bad_request, status_text bad_request)
    ∷ (not_found, status_text not_found)
    ∷ (internal_server_error, status_text internal_server_error)
    ∷ []

-- `http_version_strings.at(version)`
unfoldable pub version_string : HttpVersion → Bytes
version_string http_1_1 = codes "HTTP/1.1"

-- `http_version_strings`
abbrev pub http_version_strings : List (HttpVersion × Bytes)
http_version_strings = (http_1_1, version_string http_1_1) ∷ []

-- `crlf`
abbrev pub crlf : Bytes
crlf = b'\r' ∷ b'\n' ∷ []
