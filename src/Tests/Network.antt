-- ===== src/Tests/Network.antt =====
-- Runs of connections, of the server and of the client.
use pine_http.Prelude.{
  ◌==◌, arith, map, ◌⊎◌, ◌<◌, ◌^◌, ◌↔◌, ℕ, ◌%◌, ◌≡◌, ◌≢◌, refl, true, false, List, [], ◌∷◌, ◌++◌,
  Option, none, some, length, All, if◌then◌else◌,
}
use pine_http.Text.{Bytes, codes}
use pine_http.Errors.{
  value, unexpected, make_errc, make_error_code, success, operation_canceled, ErrorCode,
}
use pine_http.IdMap.{find}
use pine_http.Http.{method_string, status_text, version_string}
use pine_http.Http.Print.{header_lines}
use pine_http.Snowflake.{Snowflake, to_id}
use pine_http.Coroutine.{
  returns_value, returns_expected, returns_error, hangs, call, await_resume, resumes, Operation,
  Void,
}
use pine_http.Connection.{
  received, chunk_size, Recv, receive_raw_message, receive_times, sent, send_length,
  send_raw_message,
}
use pine_http.Connection.Receiving.{deliveries}
use pine_http.Connection.Segments.{joined, OnlyLastShort, receive_raw_message-OnlyLastShort}
use pine_http.Connection.Pieces.{receive_raw_message-ending}
use pine_http.HttpRequest.{HttpRequest}
use pine_http.HttpRequest
use pine_http.HttpResponse.{HttpResponse}
use pine_http.HttpResponse
use pine_http.ServerConnection.{ServerConnection, make_server_connection, start_on}
use pine_http.ServerConnection
use pine_http.ServerConnection.Requests.{Carries, cuts, receive_times-Carries}
use pine_http.Connection.Sequence.{arriving}
use pine_http.ClientConnection
use pine_http.ClientConnection.{ClientConnection}
use pine_http.ClientConnection.Responses.{receive_response-to_string}
use pine_http.Server.{
  Server, make_server, Accept, returned, accept_loop, waits, waits_for_client, accept_client,
}
use pine_http.Server.Start.{Platform, failed, first_failure, attempts}
use pine_http.Server.Start
use pine_http.Server.Start.{start-first_failure}
use pine_http.Server.Accepting.{accept_loop-clients, HasEnded, has_entered}
use pine_http.Server.Serving.{accept_client-start_on}
use pine_http.Connection.Sending.{Obeys, send_raw_message-success}
use pine_http.Examples.{exits, server_main}
use pine_http.Examples.Runs.{server_main-exits}
use pine_http.Tests.Requests.{asked, asked-IsWritable}
use pine_http.Tests.Responses.{missing, missing-IsWritable}

-- Two requests over one connection, each in one piece.
abbrev requests_sent : List (HttpRequest × List Bytes)
requests_sent =
    (asked, HttpRequest.to_string asked ∷ []) ∷ (asked, HttpRequest.to_string asked ∷ []) ∷ []

asked-Carries : Carries (asked, HttpRequest.to_string asked ∷ [])
unfolding HttpRequest.to_string method_string version_string header_lines
asked-Carries = record {
  writable = asked-IsWritable;
  is_cut = ((omega arith, omega arith), tt);
  only_last = omega arith;
  whole = refl;
}

receive_times-Carries_example :
    (receive_times 2 (arriving (cuts requests_sent) [])
      ≡ (map (λ s. returns_value (HttpRequest.to_string s.0)) requests_sent, []))
    × All
        (λ s.
          ServerConnection.parse_received (value (HttpRequest.to_string s.0)) ≡ returns_value s.0)
        requests_sent
receive_times-Carries_example =
    receive_times-Carries requests_sent [] (asked-Carries, (asked-Carries, tt))

missing-length : length (HttpResponse.to_string missing) % chunk_size ≢ 0
unfolding HttpResponse.to_string status_text version_string header_lines
missing-length e = cc

receive_response-to_string_example :
    (message : Bytes) × (receive_raw_message (deliveries (HttpResponse.to_string missing) ++ [])
      ≡ returns_value message)
    × (ClientConnection.parse_received (value message) ≡ returns_expected (value missing))
receive_response-to_string_example =
    receive_response-to_string missing [] missing-IsWritable missing-length

abbrev id_of : ℕ → Snowflake
id_of n = record { timestamp = 1; worker_id = 0; process_id = 0; sequence = n }

abbrev peer : ServerConnection
peer = record { connection = record { id = id_of 3; socket = 9 }; is_connected = true }

abbrev server : Server
server = record (make_server (codes "8080")) { clients = (3, peer) ∷ [] }

abbrev idle : ℕ → Server → Option ServerConnection → Server
idle callback s client = s

-- The fourth call fails.
abbrev port_taken : Platform
port_taken = record {
  startup = 0;
  address_error = 0;
  address = 1;
  socket = 4;
  socket_error = 0;
  bind_failed = true;
  bind_error = 98;
  listen_failed = false;
  listen_error = 0;
}

start-first_failure_example :
    ((Start.start idle port_taken [] server).1 ≡ failed (make_errc 98))
    × ((Start.start idle port_taken [] server).0.is_listening ≡ false)
    × ((Start.start idle port_taken [] server).0.clients ≡ server.clients)
unfolding make_server
start-first_failure_example = start-first_failure idle port_taken [] server

abbrev arrivals : List Accept
arrivals = returned 9 0 (id_of 3) (call (returns_error (make_errc 5))) ∷ []

arrivals-HasEnded : All HasEnded arrivals
unfolding call await_resume
arrivals-HasEnded = ((make_errc 5, refl), tt)

abbrev on : Server
on = record server { is_listening = true }

accept_loop-clients_example :
    ((accept_loop idle arrivals on).1 ≡ waits)
    × ((k : ℕ)
        → find k (accept_loop idle arrivals on).0.clients
          ≡ (if has_entered k arrivals then none else find k on.clients))
accept_loop-clients_example =
    accept_loop-clients idle (λ callback s client. (refl, refl)) arrivals on refl arrivals-HasEnded

-- A message that arrives in two pieces, the first of them short.
receive_raw_message-ending_example :
    receive_raw_message (received (codes "GET ") ∷ received (codes "/") ∷ [])
    ≡ returns_value (codes "GET ")
receive_raw_message-ending_example =
    receive_raw_message-ending (received (codes "GET ") ∷ received (codes "/") ∷ [])

-- A cut text: neither side holds.
receive_raw_message-OnlyLastShort_example :
    (receive_raw_message (map received (codes "GET " ∷ codes "/" ∷ []))
      ≡ returns_value (joined (codes "GET " ∷ codes "/" ∷ [])))
    ↔ OnlyLastShort (codes "GET " ∷ codes "/" ∷ [])
receive_raw_message-OnlyLastShort_example =
    receive_raw_message-OnlyLastShort (codes "GET " ∷ codes "/" ∷ [])
      ((omega arith, omega arith), ((omega arith, omega arith), tt))

four-Obeys : Obeys (send_length 4) (sent 4)
unfolding send_length
four-Obeys = omega arith

send_raw_message-success_example :
    (send_raw_message (codes "GET ") (sent 4) ≡ returns_error (make_error_code success)) ↔ (
      (codes "GET " ≡ [])
      ⊎ ((sent 4 ≡ sent (length (codes "GET "))) × (length (codes "GET ") < 2 ^ 31)))
send_raw_message-success_example = send_raw_message-success (codes "GET ") (sent 4) four-Obeys

-- A client that sends one request, to a server without callbacks.
abbrev one_request : List Recv
one_request = received (HttpRequest.to_string asked) ∷ []

abbrev new_client : ServerConnection
new_client = make_server_connection 9 (id_of 3)

abbrev started : Operation Void
started = call (start_on new_client (one_request ∷ [])).1

accept_client-start_on_example :
    (receive_raw_message one_request ≡ hangs
      → ((accept_client idle (value 9) (id_of 3) started server).1 ≡ some waits_for_client)
        × ((k : ℕ)
            → find k (accept_client idle (value 9) (id_of 3) started server).0.clients
              ≡ (if k == to_id (id_of 3) then some new_client else find k server.clients)))
    × (receive_raw_message one_request ≢ hangs
        → (await_resume started ≡ resumes (unexpected (make_errc operation_canceled)))
          × ((accept_client idle (value 9) (id_of 3) started server).1 ≡ none)
          × ((k : ℕ)
              → find k (accept_client idle (value 9) (id_of 3) started server).0.clients
                ≡ (if k == to_id (id_of 3) then none else find k server.clients)))
accept_client-start_on_example =
    accept_client-start_on idle (λ callback s client. refl) 9 (id_of 3) one_request [] server

server_main-exits_example :
    (server_main idle port_taken [] ≡ exits 1)
    ↔ ((◌≡◌ {A = ℕ} 1 1) × ((e : ErrorCode) × (first_failure (attempts port_taken) ≡ some e)))
server_main-exits_example = server_main-exits idle port_taken [] 1
