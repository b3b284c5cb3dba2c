-- ===== src/Tests/Sections.antt =====
-- Runs of the server's threads, access by access.
use pine_http.Prelude.{false, ◌∷◌, ℕ, refl, true, [], Option, put}
use pine_http.Text.{codes}
use pine_http.Errors.{make_error_code, client_not_found}
use pine_http.IdMap.{find, insert}
use pine_http.Coroutine.{Body, returns_error, Void}
use pine_http.Snowflake.{Snowflake, to_id}
use pine_http.ServerConnection.{ServerConnection, make_server_connection}
use pine_http.Connection.{closesocket, shutdown, invalid_socket, close}
use pine_http.Wsa.{close_socket}
use pine_http.Server.{Server, make_server}
use pine_http.Server.Sections.{
  Sections, stop_of, accepter, welcoming, outside, waiting, finding, leaving, finished, Calling,
  resting, set_clients, Accesses, begin, later, goes_on, accepts, locks, inserts, stops,
  closes_socket, sweeps, clears, Stopping, stopping, sweeping, over, calls, caller_locks, misses,
  caller_unlocks,
}
use pine_http.Server.Sockets.{HasClosed, Accesses-HasClosed}
use pine_http.Server.Exclusion.{Excludes, Accesses-Excludes}

abbrev idle_callback : ℕ → Server → Option ServerConnection → Server
idle_callback callback s client = s

abbrev guest_id : Snowflake
guest_id = record { timestamp = 1; worker_id = 0; process_id = 0; sequence = 3 }

abbrev guest : ServerConnection
guest = make_server_connection 9 guest_id

abbrev listening : Server
listening = record (make_server (codes "8080")) { is_listening = true }

abbrev missing_client : Body Void
missing_client = returns_error (make_error_code client_not_found)

-- The calls of `disconnect_client`: the first has returned, the second waits for the lock.
abbrev callers : ℕ → Calling
callers =
    put
      (put (put (put (put (λ j. outside) 0 (waiting 3)) 0 (finding 3)) 0 (leaving missing_client)) 0
        (finished missing_client))
      1 (waiting 3)

-- A client is served by then.
abbrev with_guest : Sections
with_guest = record {
  server = set_clients listening (insert (to_id guest_id) guest []);
  holder = accepter;
  accepting = welcoming guest [];
  callers = callers;
  stoppers = λ k. resting;
  socket_calls = [];
}

Accesses-with_guest : Accesses idle_callback with_guest
unfolding make_server find make_server_connection
Accesses-with_guest =
    later
      (later
        (later
          (later
            (later
              (later
                (later
                  (later (later (begin listening refl) (calls 0 3 refl))
                    (caller_locks 0 3 refl refl))
                  (misses 0 3 refl refl))
                (caller_unlocks 0 missing_client refl))
              (calls 1 3 refl))
            (goes_on refl refl))
          (accepts 9 guest_id refl))
        (locks guest refl refl))
      (inserts guest refl)

Accesses-Excludes_example : Excludes with_guest
Accesses-Excludes_example =
    Accesses-Excludes idle_callback (λ callback s client. refl) Accesses-with_guest

-- A client that enters behind the loop of `stop` and before the map is cleared: it is no longer in the
-- map, and its socket has not been closed.
abbrev stoppers : ℕ → Stopping
stoppers = put (put (put (λ k. resting) 0 stopping) 0 (sweeping [])) 0 over

abbrev guest_lost : Sections
guest_lost = record {
  server = record listening { is_listening = false };
  holder = accepter;
  accepting = welcoming guest [];
  callers = λ j. outside;
  stoppers = stoppers;
  socket_calls = (stop_of 0, closesocket invalid_socket) ∷ [];
}

Accesses-guest_lost : Accesses idle_callback guest_lost
unfolding make_server make_server_connection insert close_socket
Accesses-guest_lost =
    later
      (later
        (later
          (later
            (later
              (later (later (begin listening refl) (goes_on refl refl)) (accepts 9 guest_id refl))
              (stops 0 refl))
            (closes_socket 0 refl))
          (locks guest refl refl))
        (inserts guest refl))
      (clears 0 refl)

-- `stop` is called while the client is served, and closes two sockets.
abbrev guest_closed : Sections
guest_closed = record {
  server = record listening { is_listening = false; clients = insert (to_id guest_id) guest [] };
  holder = accepter;
  accepting = welcoming guest [];
  callers = λ j. outside;
  stoppers =
      put (put (put (λ k. resting) 0 stopping) 0 (sweeping (insert (to_id guest_id) guest []))) 0
        (sweeping []);
  socket_calls =
      (stop_of 0, closesocket invalid_socket)
      ∷ (stop_of 0, shutdown 9)
      ∷ (stop_of 0, closesocket 9)
      ∷ [];
}

Accesses-guest_closed : Accesses idle_callback guest_closed
unfolding make_server make_server_connection insert close_socket close to_id
Accesses-guest_closed =
    later
      (later
        (later
          (later
            (later
              (later (later (begin listening refl) (goes_on refl refl)) (accepts 9 guest_id refl))
              (locks guest refl refl))
            (inserts guest refl))
          (stops 0 refl))
        (closes_socket 0 refl))
      (sweeps 0 (to_id guest_id) guest [] refl)

Accesses-HasClosed_example : HasClosed guest_closed
Accesses-HasClosed_example =
    Accesses-HasClosed idle_callback (λ callback s client. refl) Accesses-guest_closed
