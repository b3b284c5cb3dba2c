-- ===== src/ClientConnection/Responses.antt =====
-- Responses that the client receives, and the calls that do not return.
use pine_http.Prelude.{
  ℕ, zero, suc, ◌%◌, ◌≡◌, ◌≢◌, refl, ap, List, [], ◌∷◌, ◌++◌, map, none, length,
}
use pine_http.Text.{Bytes}
use pine_http.Errors.{ErrorCode, value, unexpected}
use pine_http.Coroutine.{
  returns_value, returns_expected, returns_error, throws, hangs, Resumption, resumes,
}
use pine_http.Coroutine.Await.{then_body-await_call}
use pine_http.Connection.{Recv, chunk_size, receive_raw_message}
use pine_http.Connection.Receiving.{deliveries, receive_raw_message-deliveries}
use pine_http.HttpResponse.{HttpResponse, to_string}
use pine_http.HttpResponse.RoundTrip.{IsWritable, response-parse-to_string}
use pine_http.ClientConnection.{connect, listen, parse_received, response_body, receive_response}

-- The text of a response as in the round trip of the parser (IsWritable), of a length that is no
-- multiple of 1024, that arrives in full buffers and a short one, whatever follows, is put together
-- to one message; and the part of `receive_response` behind its `co_await` makes of that message
-- the same response.
pub receive_response-to_string :
    (r : HttpResponse) (later : List Recv)
    → IsWritable r
    → length (to_string r) % chunk_size ≢ 0
    → (message : Bytes) × (receive_raw_message (deliveries (to_string r) ++ later)
        ≡ returns_value message)
      × (parse_received (value message) ≡ returns_expected (value r))
unfolding parse_received
receive_response-to_string r later w h = (
  to_string r,
  receive_raw_message-deliveries (to_string r) later h,
  ap response_body (response-parse-to_string r w),
)

-- Whatever arrives, `receive_response` gives neither a response nor an error of its own: an exception ends it,
-- unless what arrives leaves `recv` waiting; then it waits too.
pub receive_response-throws :
    (incoming : List Recv)
    → (receive_raw_message incoming ≢ hangs → receive_response incoming ≡ throws)
      × (receive_raw_message incoming ≡ hangs → receive_response incoming ≡ hangs)
unfolding receive_response
receive_response-throws incoming =
    then_body-await_call (receive_raw_message incoming) parse_received

-- `connect` does not return, however deep its calls go.
pub connect-none : (depth : ℕ) (host : Bytes) (port : ℕ) → connect depth host port ≡ none
unfolding connect
connect-none zero host port = refl
connect-none (suc depth) host port = rw (connect-none depth host port)

-- `listen` takes any number of messages, and waits for the next. The first error ends it, and is
-- what it returns.
listen-messages :
    (messages : List Bytes) (e : ErrorCode) (later : List (Resumption Bytes))
    → (listen (map (λ m. resumes (value m)) messages) ≡ hangs)
      × (listen (map (λ m. resumes (value m)) messages ++ (resumes (unexpected e) ∷ later))
          ≡ returns_error e)
unfolding listen
listen-messages [] e later = (refl, refl)
listen-messages (m ∷ messages) e later = listen-messages messages e later
