-- ===== src/ServerConnection/Requests.antt =====
-- Requests that the server receives.
use pine_http.Prelude.{
  suc, [], ◌∷◌, map, refl, sym, ◌∙◌, ap₂, All, ◌%◌, ◌≡◌, ◌≢◌, ap, List, ◌++◌, length,
}
use pine_http.Text.{Bytes}
use pine_http.Errors.{value}
use pine_http.Coroutine.{returns_value, throws, hangs}
use pine_http.Coroutine.Await.{then_body-await_call}
use pine_http.Connection.{Recv, chunk_size, receive_raw_message, receive_times}
use pine_http.Connection.Segments.{joined, IsPiece, OnlyLastShort}
use pine_http.Connection.Sequence.{arriving, receive_times-messages}
use pine_http.Connection.Receiving.{deliveries, receive_raw_message-deliveries}
use pine_http.HttpRequest.{HttpRequest, to_string}
use pine_http.HttpRequest.RoundTrip.{IsWritable, request-parse-to_string}
use pine_http.ServerConnection.{parse_received, request_body, receive_request}

-- The text of a request as in the round trip of the parser (IsWritable), of a length that is no
-- multiple of 1024, that arrives in full buffers and a short one, whatever follows, is put together
-- to one message; and the part of `receive_request` behind its `co_await` makes of that message the
-- same request.
receive-to_string :
    (r : HttpRequest) (later : List Recv)
    → IsWritable r
    → length (to_string r) % chunk_size ≢ 0
    → (message : Bytes) × (receive_raw_message (deliveries (to_string r) ++ later)
        ≡ returns_value message)
      × (parse_received (value message) ≡ returns_value r)
unfolding parse_received
receive-to_string r later w h = (
  to_string r,
  receive_raw_message-deliveries (to_string r) later h,
  ap request_body (request-parse-to_string r w),
)

-- Whatever arrives, `receive_request` gives neither a request nor an error of its own: an exception ends it,
-- unless what arrives leaves `recv` waiting; then it waits too.
pub receive_request-throws :
    (incoming : List Recv)
    → (receive_raw_message incoming ≢ hangs → receive_request incoming ≡ throws)
      × (receive_raw_message incoming ≡ hangs → receive_request incoming ≡ hangs)
unfolding receive_request
receive_request-throws incoming = then_body-await_call (receive_raw_message incoming) parse_received

-- A request, and the pieces in which its text arrives: the request can be written, every piece but the
-- last fills the buffer, and the last does not.
pub record Carries (sent : HttpRequest × List Bytes) : Type 0 where
  pub writable : IsWritable sent.0
  pub is_cut : All IsPiece sent.1
  pub only_last : OnlyLastShort sent.1
  pub whole : joined sent.1 ≡ to_string sent.0

abbrev pub cuts : List (HttpRequest × List Bytes) → List (List Bytes)
cuts = map (λ s. s.1)

cuts-All :
    (P : List Bytes → Type 0) (sent : List (HttpRequest × List Bytes))
    → ((s : HttpRequest × List Bytes) → Carries s → P s.1)
    → All Carries sent
    → All P (cuts sent)
cuts-All P [] f h = tt
cuts-All P (s ∷ sent) f h = (f s h.0, cuts-All P sent f h.1)

cuts-joined :
    (sent : List (HttpRequest × List Bytes))
    → All Carries sent
    → map (λ pieces. returns_value (joined pieces)) (cuts sent)
      ≡ map (λ s. returns_value (to_string s.0)) sent
cuts-joined [] h = refl
cuts-joined (s ∷ sent) h = ap₂ (λ m ms. returns_value m ∷ ms) h.0.whole (cuts-joined sent h.1)

length-cuts : (sent : List (HttpRequest × List Bytes)) → length (cuts sent) ≡ length sent
length-cuts [] = refl
length-cuts (s ∷ sent) = ap suc (length-cuts sent)

texts-parse :
    (sent : List (HttpRequest × List Bytes))
    → All Carries sent
    → All (λ s. parse_received (value (to_string s.0)) ≡ returns_value s.0) sent
unfolding parse_received
texts-parse [] h = tt
texts-parse (s ∷ sent) h =
    (ap request_body (request-parse-to_string s.0 h.0.writable), texts-parse sent h.1)

-- Of requests as in the round trip of the parser (IsWritable) that arrive over one connection, one
-- after the other, each in pieces of which all but the last fill the buffer and the last does not: so
-- many calls of `receive_raw_message` return their texts in order, and leave what arrives behind
-- them; and the part of `receive_request` behind its `co_await` makes of each text the request again.
pub receive_times-Carries :
    (sent : List (HttpRequest × List Bytes)) (later : List Recv)
    → All Carries sent
    → (receive_times (length sent) (arriving (cuts sent) later)
        ≡ (map (λ s. returns_value (to_string s.0)) sent, later))
      × All (λ s. parse_received (value (to_string s.0)) ≡ returns_value s.0) sent
receive_times-Carries sent later h = (
  ap (λ n. receive_times n (arriving (cuts sent) later)) (sym (length-cuts sent))
      ∙ receive_times-messages (cuts sent) later (cuts-All (All IsPiece) sent (λ s c. c.is_cut) h)
          (cuts-All OnlyLastShort sent (λ s c. c.only_last) h)
      ∙ ap (λ ms. (ms, later)) (cuts-joined sent h),
  texts-parse sent h,
)
