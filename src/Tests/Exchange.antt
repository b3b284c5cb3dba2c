-- ===== src/Tests/Exchange.antt =====
-- A request and a response that are sent and arrive whole.
use pine_http.Prelude.{[], ◌∷◌, ◌≡◌, ◌≢◌, List}
use pine_http.Http.{method_string, version_string}
use pine_http.Http.Print.{header_lines}
use pine_http.Coroutine.{hangs, call, await_resume}
use pine_http.Connection.{Recv, received, sent, receive_raw_message}
use pine_http.HttpRequest
use pine_http.ServerConnection.{send_response, receive_request}
use pine_http.ClientConnection.{send_request, receive_response}
use pine_http.Exchange.{canceled, exchange-canceled}
use pine_http.Tests.Requests.{asked}
use pine_http.Tests.Responses.{missing}

abbrev arrived : List Recv
arrived = received (HttpRequest.to_string asked) ∷ []

arrived-ends : receive_raw_message arrived ≢ hangs
unfolding receive_raw_message HttpRequest.to_string method_string version_string header_lines
arrived-ends e = cc

exchange-canceled_example :
    (await_resume (call (send_request asked (sent 55))) ≡ canceled)
    × (await_resume (call (receive_request arrived)) ≡ canceled)
    × (await_resume (call (send_response missing (sent 55))) ≡ canceled)
    × (await_resume (call (receive_response arrived)) ≡ canceled)
exchange-canceled_example = exchange-canceled asked missing (sent 55) arrived arrived-ends
