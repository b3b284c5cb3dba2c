-- ===== src/Examples.antt =====
-- examples/server_example.cpp and examples/client_example.cpp: the two programs that use the library.
-- What they print is left out.
pub mod Runs
use pine_http.Prelude.{Bool, ℕ, true, false, List, Option}
use pine_http.Text.{codes}
use pine_http.ServerConnection.{ServerConnection}
use pine_http.Server.{Server, make_server, Accept, Loop, returns, waits, waits_for_client, excepts}
use pine_http.Server.Start.{Platform, start, Started, failed, accepting}
use pine_http.Client.{make_client, Use, connect}
use pine_http.Client

-- How a program ends: it returns from `main`, an exception leaves `main`, it does not return, or what
-- it does is undefined.
pub data Exit : Type 0 where
  exits : ℕ → Exit
  terminates runs_for_ever undefined : Exit

-- What `main` makes of how `start` stands.
unfoldable pub server_exit : Started → Exit
server_exit (failed e) = exits 1
server_exit (accepting returns) = exits 0
server_exit (accepting waits) = runs_for_ever
server_exit (accepting waits_for_client) = runs_for_ever
server_exit (accepting excepts) = terminates

-- `main` of the server example: a server on port 80, without callbacks.
unfoldable pub server_main :
    (ℕ → Server → Option ServerConnection → Server) → Platform → List Accept → Exit
unfolding make_server start server_exit
server_main run p accepts = server_exit (start run p accepts (make_server (codes "80"))).1

-- What `main` makes of the return of `connect`.
unfoldable pub client_exit : Use Bool → Exit
client_exit (Use.returns true) = exits 0
client_exit (Use.returns false) = exits 1
client_exit Use.runs_on = runs_for_ever
client_exit Use.undefined = undefined

-- `main` of the client example, for a depth of the calls of `client_connection::connect`.
unfoldable pub client_main : ℕ → Exit
unfolding connect client_exit
client_main depth = client_exit (connect depth (codes "localhost") 80 make_client)
