-- ===== src/Server/Callbacks.antt =====
-- The callbacks of the server (server/src/server.cpp) and its map of clients.
use pine_http.Prelude.{ℕ, ◌≡◌, refl, ap, ◌∙◌, List, [], ◌∷◌, Option, some}
use pine_http.Errors.{make_error_code, client_not_found}
use pine_http.IdMap.{insert}
use pine_http.Snowflake.{to_id}
use pine_http.Coroutine.{Body, returns_error, Void}
use pine_http.ServerConnection.{ServerConnection}
use pine_http.Server.{Server, notify, enter, admit}

-- Callbacks that leave the map of clients alone.
abbrev pub KeepsClients : (ℕ → Server → Option ServerConnection → Server) → Type 0
KeepsClients run =
    (callback : ℕ) (s : Server) (client : Option ServerConnection)
    → (run callback s client).clients ≡ s.clients

-- The identifier under which a client is in the map.
abbrev pub key : ServerConnection → ℕ
key client = to_id client.connection.id

abbrev pub not_found : Body Void
not_found = returns_error (make_error_code client_not_found)

module _ (run : ℕ → Server → Option ServerConnection → Server) (keeps : KeepsClients run) where
  pub notify-clients :
      (callbacks : List ℕ) (client : Option ServerConnection) (s : Server)
      → (notify run callbacks client s).clients ≡ s.clients
  unfolding notify
  notify-clients [] client s = refl
  notify-clients (c ∷ cs) client s = notify-clients cs client (run c s client) ∙ keeps c s client

  pub enter-clients :
      (client : ServerConnection) (s : Server)
      → (enter run client s).clients ≡ insert (key client) client s.clients
  unfolding enter
  enter-clients client s =
      notify-clients s.on_connection_callbacks (some client)
        (record s { clients = insert (key client) client s.clients })

  pub admit-clients :
      (client : ServerConnection) (s : Server)
      → (admit run client s).clients ≡ insert (key client) client s.clients
  unfolding admit
  admit-clients client s =
      enter-clients client announced
      ∙ ap (insert (key client) client)
          (notify-clients s.on_connection_attempts_callbacks (some client) s)
    where
      announced : Server
      announced = notify run s.on_connection_attempts_callbacks (some client) s
