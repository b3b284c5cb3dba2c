-- ===== src/ServerConnection.antt =====
-- server/include/server_connection.h and server/src/server_connection.cpp: the server's side of a
-- connection. The part of each coroutine behind its `co_await` is a function of what it awaits.
pub mod Requests
pub mod Loop
use pine_http.Prelude.{ℕ, Bool, true, false, List, [], ◌∷◌, map}
use pine_http.Text.{Bytes}
use pine_http.Errors.{Expected, value, unexpected, make_error_code, success}
use pine_http.Http.Scan.{Outcome}
use pine_http.HttpRequest.{HttpRequest}
use pine_http.HttpRequest
use pine_http.HttpResponse.{HttpResponse}
use pine_http.HttpResponse
use pine_http.Snowflake.{Snowflake}
use pine_http.Coroutine.{
  Body, returns_value, returns_error, throws, hangs, Resumption, resumes, raises, blocks, Void,
  await_call, then_body,
}
use pine_http.Connection.{
  Connection, make_connection, Recv, Send, receive_raw_message, send_raw_message,
}

-- `class server_connection`
pub record ServerConnection : Type 0 where
  pub connection : Connection
  pub is_connected : Bool

-- `server_connection(socket)`: the base class takes a new identifier.
unfoldable pub make_server_connection : ℕ → Snowflake → ServerConnection
unfolding make_connection
make_server_connection socket id = record {
  connection = make_connection socket id;
  is_connected = true;
}

-- What `receive_request` returns for what the parser gives.
unfoldable pub request_body : Outcome HttpRequest → Body HttpRequest
request_body (Outcome.value r) = returns_value r
request_body (Outcome.unexpected e) = returns_error e
request_body Outcome.raised = throws
request_body Outcome.unfinished = hangs

-- `receive_request`, behind its `co_await`.
unfoldable pub parse_received : Expected Bytes → Body HttpRequest
unfolding request_body
parse_received (unexpected e) = returns_error e
parse_received (value text) = request_body (HttpRequest.parse text)

-- `receive_request()`
unfoldable pub receive_request : List Recv → Body HttpRequest
unfolding await_call then_body
receive_request incoming = then_body (await_call (receive_raw_message incoming)) parse_received

-- `send_response`, behind its `co_await`.
unfoldable pub report_sent : Expected Void → Body Void
report_sent (unexpected e) = returns_error e
report_sent (value _) = returns_error (make_error_code success)

-- `send_response(response)`
unfoldable pub send_response : HttpResponse → Send → Body Void
unfolding await_call then_body
send_response response sending =
    then_body (await_call (send_raw_message (HttpResponse.to_string response) sending)) report_sent

-- The loop of `start`, over what its `co_await`s of `receive_request` give; behind the last of them
-- it waits. The result holds `is_connected` too.
unfoldable pub start_loop : List (Resumption HttpRequest) → Bool × Body Void
start_loop [] = (true, hangs)
start_loop (resumes (value request) ∷ later) = start_loop later
start_loop (resumes (unexpected e) ∷ later) = (false, returns_error e)
start_loop (raises e ∷ later) = (true, throws)
start_loop (blocks ∷ later) = (true, hangs)

-- `start()`
unfoldable pub start :
    ServerConnection → List (Resumption HttpRequest) → ServerConnection × Body Void
unfolding start_loop
start c awaited = (record c { is_connected = (start_loop awaited).0 }, (start_loop awaited).1)

-- `start()`, over what arrives while it awaits each of its calls of `receive_request`.
unfoldable pub start_on : ServerConnection → List (List Recv) → ServerConnection × Body Void
unfolding start receive_request await_call
start_on c arrivals = start c (map (λ incoming. await_call (receive_request incoming)) arrivals)
