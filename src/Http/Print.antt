-- ===== src/Http/Print.antt =====
-- The loop over the headers that `http_request::to_string` (shared/src/http_request.cpp) and
-- `http_response::to_string` (shared/src/http_response.cpp) have in common.
use pine_http.Prelude.{[], ◌∷◌, ◌++◌}
use pine_http.Text.{Bytes}
use pine_http.Http.{crlf}
use pine_http.Http.Utils.{HeaderMap}

-- `name + ": " + value + crlf`
abbrev pub header_line : Bytes → Bytes → Bytes
header_line name value = name ++ (b':' ∷ b' ' ∷ (value ++ crlf))

unfoldable pub header_lines : HeaderMap → Bytes
header_lines [] = []
header_lines ((name, value) ∷ headers) = header_line name value ++ header_lines headers
