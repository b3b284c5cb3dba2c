-- ===== src/Tests/Clients.antt =====
-- A run of the sections that touch the map of clients.
use pine_http.Prelude.{ℕ, ◌≡◌, refl, true, List, [], ◌∷◌, Option, none, arith}
use pine_http.Text.{codes}
use pine_http.Errors.{make_error_code, success, client_not_found}
use pine_http.IdMap.{find, insert, erase}
use pine_http.IdMap.Listing.{Lists}
use pine_http.Snowflake.{to_id}
use pine_http.Coroutine.{returns_error}
use pine_http.Connection.{SocketCall, shutdown, closesocket, invalid_socket, close}
use pine_http.ServerConnection.{ServerConnection}
use pine_http.Wsa.{close_socket}
use pine_http.Server.{Server, make_server, enter, disconnect_client, stop, close_all}
use pine_http.Server.Contract.{
  Seen, entered, disconnected, stopped, Trace, rests, enters, disconnects, stops, reorders,
  clients_after_all, PromisedAll, Trace-Promised,
}

abbrev with_id : ℕ → ℕ → ServerConnection
with_id n socket = record {
  connection = record {
    id = record { timestamp = 0; worker_id = 0; process_id = 0; sequence = n };
    socket = socket;
  };
  is_connected = true;
}

abbrev quiet : ℕ → Server → Option ServerConnection → Server
quiet callback s client = s

abbrev started : Server
started = make_server (codes "8080")

-- Two clients enter, the first is disconnected twice, and the server stops.
abbrev hung_up : List SocketCall
hung_up = shutdown 9 ∷ closesocket 9 ∷ []

abbrev at_stop : List SocketCall
at_stop = closesocket invalid_socket ∷ shutdown 8 ∷ closesocket 8 ∷ []

abbrev seen : List Seen
seen =
    entered (with_id 3 9)
    ∷ entered (with_id 4 8)
    ∷ disconnected 3 hung_up (returns_error (make_error_code success))
    ∷ disconnected 3 [] (returns_error (make_error_code client_not_found))
    ∷ stopped invalid_socket at_stop
    ∷ []

abbrev both : Server
both = enter quiet (with_id 4 8) (enter quiet (with_id 3 9) started)

-- Before that the map is iterated from the second client on.
abbrev turned : List (ℕ × ServerConnection)
turned = (4, with_id 4 8) ∷ (3, with_id 3 9) ∷ []

abbrev left : Server
left = (disconnect_client 3 (disconnect_client 3 (record both { clients = turned })).0).0

turned-same : (k : ℕ) → find k turned ≡ find k both.clients
unfolding find enter make_server insert to_id
turned-same k = ground arith

Trace-seen : Trace quiet started seen (stop left).0
unfolding enter make_server insert to_id disconnect_client find stop close_all close close_socket
    erase
Trace-seen = enters (with_id 3 9) (
    enters (with_id 4 8) (
      reorders turned (refl, (refl, tt)) turned-same (disconnects 3 (disconnects 3 (stops rests)))))

started-Lists : Lists (λ k. none) started.clients
unfolding make_server find
started-Lists = record { distinct = tt; held = λ k. refl }

Trace-Promised_example :
    PromisedAll (λ k. none) seen × Lists (clients_after_all (λ k. none) seen) (stop left).0.clients
Trace-Promised_example =
    Trace-Promised quiet (λ callback s client. refl) Trace-seen (λ k. none) started-Lists
