-- ===== src/Server/Clients.antt =====
-- The clients that `disconnect_client` and `stop` take from the server.
use pine_http.Prelude.{
  ℕ, ◌≡◌, refl, ap, false, List, [], ◌∷◌, none, some, Option, arith, ◌==◌, if◌then◌else◌,
  Option-cases, inl, inr, ◌∙◌,
}
use pine_http.Errors.{make_error_code, success, client_not_found}
use pine_http.IdMap.{find, find-erase}
use pine_http.Coroutine.{Body, returns_error, Void}
use pine_http.Connection.{shutdown, closesocket, wsa_cleanup, SocketCall}
use pine_http.ServerConnection.{ServerConnection}
use pine_http.Wsa.{close_socket}
use pine_http.Server.{Server, disconnect_client, stop, close_all}

-- What disconnecting does, by what the map holds for the identifier.
abbrev pub hang_up : Option ServerConnection → List SocketCall
hang_up none = []
hang_up (some client) =
    shutdown client.connection.socket ∷ closesocket client.connection.socket ∷ []

-- What `disconnect_client` answers, by what the map holds for the identifier.
abbrev pub answer : Option ServerConnection → Body Void
answer none = returns_error (make_error_code client_not_found)
answer (some client) = returns_error (make_error_code success)

-- Disconnecting a client that the server has shuts down and closes its socket, and returns the code
-- of success; for one that the server does not have, no socket is touched, and client_not_found is
-- returned. In both cases no client with the identifier is left in the map, and all others are.
pub disconnect_client-find :
    (id : ℕ) (s : Server)
    → ((disconnect_client id s).1 ≡ hang_up (find id s.clients))
      × ((disconnect_client id s).2 ≡ answer (find id s.clients))
      × ((other : ℕ)
          → find other (disconnect_client id s).0.clients
            ≡ (if other == id then none else find other s.clients))
unfolding disconnect_client
disconnect_client-find id s = elim (Option-cases (find id s.clients)) [
  | inl missing ↦ rw (missing, disconnect_client) (refl, refl, λ other. ground (arith, missing))
  | inr (client, here) ↦
      rw (here, disconnect_client) (refl, refl, λ other. find-erase other id s.clients)
]

missing-disconnect_client :
    (id : ℕ) (s : Server)
    → find id s.clients ≡ none
    → disconnect_client id s ≡ (s, [], returns_error (make_error_code client_not_found))
unfolding disconnect_client
missing-disconnect_client id s h = rw (h, disconnect_client)

-- Disconnecting a client twice: the second time it is not found, and no socket is touched.
disconnect_client-twice :
    (id : ℕ) (s : Server)
    → let t = (disconnect_client id s).0 in
      disconnect_client id t ≡ (t, [], returns_error (make_error_code client_not_found))
unfolding disconnect_client
disconnect_client-twice id s = missing-disconnect_client id (disconnect_client id s).0 gone
  where
    gone : find id (disconnect_client id s).0.clients ≡ none
    gone = (disconnect_client-find id s).2 id ∙ ground arith

-- The sockets of the clients, in the order of the map.
abbrev pub sockets : List (ℕ × ServerConnection) → List ℕ
sockets [] = []
sockets ((id, client) ∷ clients) = client.connection.socket ∷ sockets clients

-- The sockets that some calls close, in order.
abbrev pub closed : List SocketCall → List ℕ
closed [] = []
closed (shutdown socket ∷ calls) = closed calls
closed (wsa_cleanup ∷ calls) = closed calls
closed (closesocket socket ∷ calls) = socket ∷ closed calls

closed-close_all :
    (clients : List (ℕ × ServerConnection)) → closed (close_all clients) ≡ sockets clients
unfolding close_all
closed-close_all [] = refl
closed-close_all ((id, client) ∷ clients) =
    ap (λ l. client.connection.socket ∷ l) (closed-close_all clients)

-- `stop` closes the server's socket and then that of every client, each once; no client is left,
-- and the server does not listen.
pub stop-closed :
    (s : Server)
    → (closed (stop s).1 ≡ s.server_socket ∷ sockets s.clients)
      × ((stop s).0.clients ≡ [])
      × ((stop s).0.is_listening ≡ false)
unfolding stop close_socket
stop-closed s = (ap (λ l. s.server_socket ∷ l) (closed-close_all s.clients), refl, refl)
