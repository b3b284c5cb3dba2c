-- ===== src/Server.antt =====
-- server/include/server.h and server/src/server.cpp: the server. What the socket library gives, the
-- clock's identifiers and the callbacks are arguments.
pub mod Start
pub mod Clients
pub mod Accepting
pub mod Callbacks
pub mod Serving
pub mod Sockets
pub mod Contract
pub mod Sections
pub mod Served
pub mod Exclusion
use pine_http.Prelude.{ℕ, Bool, true, false, List, [], ◌∷◌, ◌++◌, Option, none, some, if◌then◌else◌}
use pine_http.Text.{Bytes}
use pine_http.Errors.{
  ErrorCode, Expected, value, unexpected, make_error_code, success, client_not_found,
}
use pine_http.IdMap.{insert, find, erase}
use pine_http.Snowflake.{Snowflake, to_id}
use pine_http.Coroutine.{
  Body, returns_error, Operation, Resumption, resumes, raises, blocks, await_resume, Void,
}
use pine_http.Connection.{Connection, SocketCall, invalid_socket, close}
use pine_http.ServerConnection.{ServerConnection, make_server_connection}
use pine_http.Wsa.{
  initialize_wsa, get_address_info, create_socket, bind_socket, listen_socket, accept_socket,
  close_socket,
}

-- `class server`. A callback is a number; what it does is a parameter of the code that calls it.
pub record Server : Type 0 where
  pub port : Bytes
  pub server_socket : ℕ
  pub address_info : Option ℕ
  pub is_listening : Bool
  pub clients : List (ℕ × ServerConnection)
  pub on_connection_attempts_callbacks : List ℕ
  pub on_connection_failed_callbacks : List ℕ
  pub on_connection_callbacks : List ℕ
  pub on_ready_callbacks : List ℕ

-- `server(port)`
unfoldable pub make_server : Bytes → Server
make_server port = record {
  port = port;
  server_socket = invalid_socket;
  address_info = none;
  is_listening = false;
  clients = [];
  on_connection_attempts_callbacks = [];
  on_connection_failed_callbacks = [];
  on_connection_callbacks = [];
  on_ready_callbacks = [];
}

-- `on_connection_attempt(callback)`
unfoldable pub on_connection_attempt : Server → ℕ → Server
on_connection_attempt s callback = record s {
  on_connection_attempts_callbacks = s.on_connection_attempts_callbacks ++ (callback ∷ []);
}

-- `on_connection_failed(callback)`
unfoldable pub on_connection_failed : Server → ℕ → Server
on_connection_failed s callback = record s {
  on_connection_failed_callbacks = s.on_connection_failed_callbacks ++ (callback ∷ []);
}

-- `on_connection(callback)`
unfoldable pub on_connection : Server → ℕ → Server
on_connection s callback = record s {
  on_connection_callbacks = s.on_connection_callbacks ++ (callback ∷ []);
}

-- `on_ready(callback)`
unfoldable pub on_ready : Server → ℕ → Server
on_ready s callback = record s { on_ready_callbacks = s.on_ready_callbacks ++ (callback ∷ []) }

-- `disconnect_client(client_id)`: the server afterwards, the calls that it made on the client's
-- socket, and what it returns.
unfoldable pub disconnect_client : ℕ → Server → Server × List SocketCall × Body Void
unfolding close
disconnect_client client_id s = elim (find client_id s.clients) [
  | none ↦ (s, [], returns_error (make_error_code client_not_found))
  | some client ↦ (
    record s { clients = erase client_id s.clients },
    (close client.connection).1,
    returns_error (make_error_code success),
  )
]

-- The loop of `stop` over the clients.
unfoldable pub close_all : List (ℕ × ServerConnection) → List SocketCall
unfolding close
close_all [] = []
close_all ((id, client) ∷ clients) = (close client.connection).1 ++ close_all clients

-- `stop()`: the server afterwards, and the calls that it made. `address_info` still points to what
-- has been deleted, and the socket keeps its number.
unfoldable pub stop : Server → Server × List SocketCall
unfolding close_all
stop s = (
  record s { is_listening = false; clients = [] },
  close_socket s.server_socket ++ close_all s.clients,
)

-- What `accept` gives, and the operation that `client->start()` gives for the new client.
pub data Accept : Type 0 where
  returned : (socket last_error : ℕ) → Snowflake → Operation Void → Accept

-- How `accept_clients` stands: it has returned, it waits in `accept` or for a client to end, or an
-- exception has left it.
pub data Loop : Type 0 where
  returns waits waits_for_client excepts : Loop

-- The rest of the loop, unless a round has ended it.
abbrev pub go_on : Server × Option Loop → Server × Loop → Server × Loop
go_on (s, none) rest = rest
go_on (s, some ended) rest = (s, ended)

module _ (run : ℕ → Server → Option ServerConnection → Server) where
  -- `for (const auto& callback : callbacks) callback(*this, client);`
  unfoldable pub notify : List ℕ → Option ServerConnection → Server → Server
  notify [] client s = s
  notify (callback ∷ callbacks) client s = notify callbacks client (run callback s client)

  -- The section under the mutex, up to `client->start()`: the client enters the map.
  unfoldable pub enter : ServerConnection → Server → Server
  unfolding notify
  enter client s =
      let entered = record s { clients = insert (to_id client.connection.id) client s.clients } in
      notify entered.on_connection_callbacks (some client) entered

  -- A new client: the callbacks for an attempt, then its entry.
  unfoldable pub admit : ServerConnection → Server → Server
  unfolding notify enter
  admit client s = enter client (notify s.on_connection_attempts_callbacks (some client) s)

  -- Behind `client->start().await_resume()`.
  unfoldable pub after_start : ServerConnection → Server → Resumption Void → Server × Option Loop
  after_start client s (resumes (value _)) = (s, none)
  after_start client s (resumes (unexpected e)) =
      (record s { clients = erase (to_id client.connection.id) s.clients }, none)
  after_start client s (raises e) = (s, some excepts)
  after_start client s blocks = (s, some waits_for_client)

  -- One round of the loop of `accept_clients`: the server afterwards, and how the loop ends, if the
  -- round ends it.
  unfoldable pub accept_client :
      Expected ℕ → Snowflake → Operation Void → Server → Server × Option Loop
  unfolding notify admit after_start
  accept_client (unexpected e) id started s = (notify s.on_connection_failed_callbacks none s, none)
  accept_client (value socket) id started s =
      let client = make_server_connection socket id in
      after_start client (admit client s) (await_resume started)

  -- The loop of `accept_clients`, over what `accept` gives.
  unfoldable pub accept_loop : List Accept → Server → Server × Loop
  unfolding accept_client
  accept_loop [] s = if s.is_listening then (s, waits) else (s, returns)
  accept_loop (returned socket last_error id started ∷ later) s =
      let round = accept_client (accept_socket socket last_error) id started s in
      let rest = accept_loop later round.0 in
      if s.is_listening then go_on round rest else (s, returns)

  -- `accept_clients()`
  unfoldable pub accept_clients : List Accept → Server → Server × Loop
  unfolding accept_loop notify
  accept_clients accepts s = accept_loop accepts (notify s.on_ready_callbacks none s)
