-- ===== src/Exchange.antt =====
-- The four operations that carry a message between client/src/client_connection.cpp and
-- server/src/server_connection.cpp, as their callers see them.
use pine_http.Prelude.{◌≡◌, ◌≢◌, List}
use pine_http.Errors.{unexpected, make_errc, operation_canceled}
use pine_http.Coroutine.{Body, Resumption, resumes, throws, hangs, call, await_resume}
use pine_http.Coroutine.Await.{then_body-await_call}
use pine_http.Connection.{Recv, Send, receive_raw_message, send_raw_message}
use pine_http.Connection.Sending.{send_raw_message-ends}
use pine_http.HttpRequest.{HttpRequest}
use pine_http.HttpRequest
use pine_http.HttpResponse.{HttpResponse}
use pine_http.HttpResponse
use pine_http.ServerConnection.{send_response, receive_request}
use pine_http.ServerConnection
use pine_http.ServerConnection.Requests.{receive_request-throws}
use pine_http.ClientConnection.{send_request, receive_response}
use pine_http.ClientConnection
use pine_http.ClientConnection.Responses.{receive_response-throws}

-- What one who waits for a cancelled operation is told.
abbrev pub canceled : {A : Type 0} → Resumption A
canceled = resumes (unexpected (make_errc operation_canceled))

throws-canceled : {A : Type 0} (b : Body A) → b ≡ throws → await_resume (call b) ≡ canceled
unfolding call await_resume
throws-canceled b e = rw e

send_request-throws :
    (request : HttpRequest) (sending : Send) → send_request request sending ≡ throws
unfolding send_request
send_request-throws request sending =
    (then_body-await_call (send_raw_message (HttpRequest.to_string request) sending)
        ClientConnection.report_sent).0
      (send_raw_message-ends _ sending)

send_response-throws :
    (response : HttpResponse) (sending : Send) → send_response response sending ≡ throws
unfolding send_response
send_response-throws response sending =
    (then_body-await_call (send_raw_message (HttpResponse.to_string response) sending)
        ServerConnection.report_sent).0
      (send_raw_message-ends _ sending)

-- Whatever `send` returns and whatever arrives, as long as it does not leave `recv` waiting: one who
-- takes the result of `send_request` or `receive_response` of the client, or of `receive_request` or
-- `send_response` of the server, is told that the operation was cancelled, also where the message has
-- been sent or received whole.
pub exchange-canceled :
    (request : HttpRequest) (response : HttpResponse) (sending : Send) (incoming : List Recv)
    → receive_raw_message incoming ≢ hangs
    → (await_resume (call (send_request request sending)) ≡ canceled)
      × (await_resume (call (receive_request incoming)) ≡ canceled)
      × (await_resume (call (send_response response sending)) ≡ canceled)
      × (await_resume (call (receive_response incoming)) ≡ canceled)
exchange-canceled request response sending incoming ends = (
  throws-canceled _ (send_request-throws request sending),
  throws-canceled _ ((receive_request-throws incoming).0 ends),
  throws-canceled _ (send_response-throws response sending),
  throws-canceled _ ((receive_response-throws incoming).0 ends),
)
