-- ===== src/Wsa.antt =====
-- shared/include/wsa.h and shared/src/wsa.cpp: the calls of the Windows socket library, wrapped. What
-- a call of the library returns, and the code that `WSAGetLastError` gives behind it, are arguments.
use pine_http.Prelude.{ℕ, Bool, List, [], ◌∷◌, ◌==◌, if◌then◌else◌}
use pine_http.Errors.{system, Expected, value, unexpected, make_errc}
use pine_http.Coroutine.{Void}
use pine_http.Connection.{invalid_socket, SocketCall, closesocket, wsa_cleanup}

-- `initialize_wsa()`, by the return of `WSAStartup`.
unfoldable pub initialize_wsa : ℕ → Expected Void
initialize_wsa result = if result == 0 then value tt else unexpected (make_errc result)

-- `cleanup_wsa()`: the calls that it makes. Nothing in the library calls it.
unfoldable cleanup_wsa : List SocketCall
cleanup_wsa = wsa_cleanup ∷ []

-- `get_address_info(node, service)`, by the return of `getaddrinfo` and the address that it stores.
unfoldable pub get_address_info : ℕ → ℕ → Expected ℕ
get_address_info error address = if error == 0 then value address else unexpected (make_errc error)

-- `create_socket(address_info)`, by the return of `socket`.
unfoldable pub create_socket : ℕ → ℕ → Expected ℕ
create_socket socket last_error =
    if socket == invalid_socket then unexpected (make_errc last_error) else value socket

-- `bind_socket`, by whether `bind` returned SOCKET_ERROR.
unfoldable pub bind_socket : Bool → ℕ → Expected Void
bind_socket failed last_error = if failed then unexpected (make_errc last_error) else value tt

-- `listen_socket`, by whether `listen` returned SOCKET_ERROR.
unfoldable pub listen_socket : Bool → ℕ → Expected Void
listen_socket failed last_error = if failed then unexpected (make_errc last_error) else value tt

-- `accept_socket`, by the return of `accept`.
unfoldable pub accept_socket : ℕ → ℕ → Expected ℕ
accept_socket socket last_error =
    if socket == invalid_socket then unexpected (make_errc last_error) else value socket

-- `connect_socket`, by whether `connect` returned SOCKET_ERROR. The error is a std::system_error,
-- which holds a code of the system category.
unfoldable pub connect_socket : Bool → ℕ → Expected Void
connect_socket failed last_error =
    if failed then unexpected (record { code = last_error; category = system }) else value tt

-- `close_socket(socket)`
unfoldable pub close_socket : ℕ → List SocketCall
close_socket socket = closesocket socket ∷ []
