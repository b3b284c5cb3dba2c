-- ===== src/Connection.antt =====
-- shared/include/connection.h and shared/src/connection.cpp: a connection over a socket. What
-- `recv`, `send` and the clock give is an argument; the calls that change the socket are listed.
pub mod Receiving
pub mod Pieces
pub mod Segments
pub mod Sequence
pub mod Sending
use pine_http.Prelude.{
  ℕ, zero, suc, ◌+◌, ◌-◌, ◌^◌, ◌%◌, Bool, true, false, List, [], ◌∷◌, ◌++◌, Option, none, some, ltb,
  ◌==◌, if◌then◌else◌, length,
}
use pine_http.Text.{Bytes}
use pine_http.Errors.{
  ErrorCode, Expected, make_error_code, make_errc, success, connection_reset, message_size,
}
use pine_http.Coroutine.{Body, returns_value, returns_error, hangs, Void}
use pine_http.Snowflake.{Snowflake}

-- `INVALID_SOCKET`, all ones.
abbrev pub invalid_socket : ℕ
invalid_socket = 2 ^ 64 - 1

-- `class connection`
pub record Connection : Type 0 where
  pub id : Snowflake
  pub socket : ℕ

-- `connection(socket, id)`
unfoldable pub make_connection : ℕ → Snowflake → Connection
make_connection s i = record { id = i; socket = s }

-- A return of `recv`: the bytes that it wrote to the buffer (none once the peer has closed), or
-- SOCKET_ERROR with the code of `WSAGetLastError`.
pub data Recv : Type 0 where
  received : Bytes → Recv
  recv_error : ℕ → Recv

-- The size of the buffer, `chunk_size`.
abbrev pub chunk_size : ℕ
chunk_size = 1024

-- The loop of `receive_raw_message`, over the returns of `recv` in their order. Behind the last one
-- the call waits.
unfoldable pub receive_loop : Bytes → List Recv → Body Bytes
receive_loop message [] = hangs
receive_loop message (recv_error code ∷ later) = returns_error (make_errc code)
receive_loop message (received bytes ∷ later) =
    let rest = receive_loop (message ++ bytes) later in
    if length bytes == 0
    then returns_error (make_errc connection_reset)
    else if ltb (length bytes) chunk_size
    then returns_value (message ++ bytes)
    else rest

unfoldable pub receive_raw_message : List Recv → Body Bytes
unfolding receive_loop
receive_raw_message = receive_loop []

-- What one call of `receive_raw_message` leaves of the returns of `recv`, for the next call.
unfoldable pub receive_rest : List Recv → List Recv
receive_rest [] = []
receive_rest (recv_error code ∷ later) = later
receive_rest (received bytes ∷ later) =
    let rest = receive_rest later in if ltb (length bytes) chunk_size then later else rest

-- So many calls of `receive_raw_message`, one after the other, and what they leave.
unfoldable pub receive_times : ℕ → List Recv → List (Body Bytes) × List Recv
unfolding receive_raw_message receive_rest
receive_times zero incoming = ([], incoming)
receive_times (suc n) incoming =
    let (messages, left) = receive_times n (receive_rest incoming) in
    (receive_raw_message incoming ∷ messages, left)

-- A return of `send`: the number of bytes that it took, or SOCKET_ERROR with its code.
pub data Send : Type 0 where
  sent : ℕ → Send
  send_error : ℕ → Send

-- `static_cast<int>(raw_message.size())`, the length with which `send` is called: the low 32 bits;
-- `none` stands for a negative number.
unfoldable pub send_length : ℕ → Option ℕ
send_length size = if ltb (size % 2 ^ 32) (2 ^ 31) then some (size % 2 ^ 32) else none

-- `send_raw_message`. For an empty message `send` is not called.
unfoldable pub send_raw_message : Bytes → Send → Body Void
send_raw_message [] outcome = returns_error (make_error_code success)
send_raw_message (c ∷ cs) (send_error code) = returns_error (make_errc code)
send_raw_message (c ∷ cs) (sent n) =
    if n == length (c ∷ cs)
    then returns_error (make_error_code success)
    else returns_error (make_errc message_size)

-- The calls of `close`.
pub data SocketCall : Type 0 where
  shutdown closesocket : ℕ → SocketCall
  wsa_cleanup : SocketCall

-- `close()`: the connection afterwards, and the calls that it made.
unfoldable pub close : Connection → Connection × List SocketCall
close c = (record c { socket = invalid_socket }, shutdown c.socket ∷ closesocket c.socket ∷ [])
