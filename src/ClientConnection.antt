-- ===== src/ClientConnection.antt =====
-- client/include/client_connection.h and client/src/client_connection.cpp: the client's side of a
-- connection. The part of each coroutine behind its `co_await` is a function of what it awaits.
pub mod Responses
use pine_http.Prelude.{ℕ, zero, suc, Bool, true, false, List, [], ◌∷◌, Option, none, some}
use pine_http.Text.{Bytes}
use pine_http.Errors.{Expected, value, unexpected, no_error}
use pine_http.Http.Scan.{Outcome}
use pine_http.HttpRequest.{HttpRequest}
use pine_http.HttpRequest
use pine_http.HttpResponse.{HttpResponse}
use pine_http.HttpResponse
use pine_http.Snowflake.{Snowflake}
use pine_http.Coroutine.{
  Body, returns_expected, returns_error, throws, hangs, Resumption, resumes, raises, blocks, Void,
  await_call, then_body,
}
use pine_http.Connection.{
  Connection, make_connection, Recv, Send, receive_raw_message, send_raw_message, close, SocketCall,
}

-- `class client_connection`, of which the code uses the base class alone.
abbrev pub ClientConnection : Type 0
ClientConnection = Connection

-- `client_connection(socket)`: the base class takes a new identifier.
unfoldable pub make_client_connection : ℕ → Snowflake → ClientConnection
unfolding make_connection
make_client_connection = make_connection

-- `connect(host, port)` calls itself first. The fuel bounds how deep the calls are; `none` is a call
-- that has not returned at that depth.
unfoldable pub connect : ℕ → (host : Bytes) (port : ℕ) → Option Bool
connect zero host port = none
connect (suc depth) host port = elim (connect depth host port) [
  | none ↦ none
  | some false ↦ some false
  | some true ↦ some true
]

-- `disconnect()`
unfoldable pub disconnect : ClientConnection → ClientConnection × List SocketCall
unfolding close
disconnect c = close c

-- `listen()`, over what its `co_await`s of `receive_raw_message` give; behind the last it waits.
unfoldable pub listen : List (Resumption Bytes) → Body Void
listen [] = hangs
listen (resumes (value message) ∷ later) = listen later
listen (resumes (unexpected e) ∷ later) = returns_error e
listen (raises e ∷ later) = throws
listen (blocks ∷ later) = hangs

-- What `receive_response` returns for what the parser gives.
unfoldable pub response_body : Outcome HttpResponse → Body HttpResponse
response_body (Outcome.value r) = returns_expected (value r)
response_body (Outcome.unexpected e) = returns_expected (unexpected e)
response_body Outcome.raised = throws
response_body Outcome.unfinished = hangs

-- `receive_response`, behind its `co_await`.
unfoldable pub parse_received : Expected Bytes → Body HttpResponse
unfolding response_body
parse_received (unexpected e) = returns_error e
parse_received (value text) = response_body (HttpResponse.parse text)

-- `receive_response()`
unfoldable pub receive_response : List Recv → Body HttpResponse
unfolding await_call then_body
receive_response incoming = then_body (await_call (receive_raw_message incoming)) parse_received

-- `send_request`, behind its `co_await`: `co_return {}` returns the error code of no error.
unfoldable pub report_sent : Expected Void → Body Void
report_sent (unexpected e) = returns_error e
report_sent (value _) = returns_error no_error

-- `send_request(request)`
unfoldable pub send_request : HttpRequest → Send → Body Void
unfolding await_call then_body
send_request request sending =
    then_body (await_call (send_raw_message (HttpRequest.to_string request) sending)) report_sent
