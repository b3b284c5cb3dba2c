-- ===== src/Server/Serving.antt =====
-- What becomes of a client that `accept_clients` (server/src/server.cpp) accepts, by what arrives from
-- it: the composition of `accept_clients`, `server_connection::start`, `receive_request`,
-- `receive_raw_message` and the operations that they await.
use pine_http.Prelude.{
  arith, ◌==◌, if◌then◌else◌, ◌∙◌, ℕ, ◌≡◌, ◌≢◌, refl, ap, List, ◌∷◌, Option, none, some,
}
use pine_http.Errors.{value, unexpected, make_errc, operation_canceled}
use pine_http.IdMap.{find, erase, find-insert, find-erase}
use pine_http.Server.Callbacks.{KeepsClients, admit-clients}
use pine_http.Snowflake.{Snowflake, to_id}
use pine_http.Coroutine.{
  throws, hangs, resumes, raises, blocks, await_call, await_resume, call, future_already_retrieved,
}
use pine_http.Coroutine.Await.{await_call-raises}
use pine_http.Connection.{Recv, receive_raw_message}
use pine_http.ServerConnection.{
  ServerConnection, make_server_connection, receive_request, start, start_loop, start_on,
}
use pine_http.ServerConnection.Requests.{receive_request-throws}
use pine_http.Server.{Server, waits_for_client, admit, accept_client}

-- `receive_request`, awaited: it raises, unless it waits.
await-receive_request :
    (incoming : List Recv)
    → (receive_raw_message incoming ≢ hangs
        → await_call (receive_request incoming) ≡ raises future_already_retrieved)
      × (receive_raw_message incoming ≡ hangs → await_call (receive_request incoming) ≡ blocks)
unfolding await_call
await-receive_request incoming = (
  λ ends.
      await_call-raises (receive_request incoming)
        (λ e. cc ((receive_request-throws incoming).0 ends)),
  λ waits. ap await_call ((receive_request-throws incoming).1 waits),
)

-- `start` of a connection to which something arrives: it does not come to a second request.
start_on-throws :
    (c : ServerConnection) (incoming : List Recv) (later : List (List Recv))
    → (receive_raw_message incoming ≢ hangs → (start_on c (incoming ∷ later)).1 ≡ throws)
      × (receive_raw_message incoming ≡ hangs → (start_on c (incoming ∷ later)).1 ≡ hangs)
unfolding start_on start start_loop
start_on-throws c incoming later = (
  λ ends. rw ((await-receive_request incoming).0 ends),
  λ waits. rw ((await-receive_request incoming).1 waits),
)

module _ (run : ℕ → Server → Option ServerConnection → Server) where
  -- Whatever the callbacks do.
  accept_client-admit :
      (socket : ℕ) (id : Snowflake) (incoming : List Recv) (later : List (List Recv)) (s : Server)
      → let client = make_server_connection socket id in
        let started = call (start_on client (incoming ∷ later)).1 in
        let round = accept_client run (value socket) id started s in
        (receive_raw_message incoming ≡ hangs → round ≡ (admit run client s, some waits_for_client))
        × (receive_raw_message incoming ≢ hangs
            → (await_resume started ≡ resumes (unexpected (make_errc operation_canceled)))
              × (round ≡ (
                record (admit run client s) {
                  clients = erase (to_id client.connection.id) (admit run client s).clients;
                },
                none,
              )))
  unfolding accept_client call await_resume
  accept_client-admit socket id incoming later s = (
    λ waits. rw ((start_on-throws _ incoming later).1 waits),
    λ ends. rw ((start_on-throws _ incoming later).0 ends) (refl, refl),
  )

  -- Whatever a new client sends, where the callbacks leave the map of clients alone: if it leaves
  -- `recv` waiting, `accept_clients` waits for this client for ever, with the client and those of
  -- before in the map. Otherwise the first `co_await` has thrown, the operation of `start` holds
  -- operation_canceled, and the loop goes on, with no client of this identifier, and those of the
  -- others of before, in the map. In neither case is a second request received.
  pub accept_client-start_on :
      (keeps : KeepsClients run) (socket : ℕ) (id : Snowflake) (incoming : List Recv)
      (later : List (List Recv)) (s : Server)
      → let client = make_server_connection socket id in
        let started = call (start_on client (incoming ∷ later)).1 in
        let round = accept_client run (value socket) id started s in
        (receive_raw_message incoming ≡ hangs
          → (round.1 ≡ some waits_for_client)
            × ((k : ℕ)
                → find k round.0.clients
                  ≡ (if k == to_id id then some client else find k s.clients)))
        × (receive_raw_message incoming ≢ hangs
            → (await_resume started ≡ resumes (unexpected (make_errc operation_canceled)))
              × (round.1 ≡ none)
              × ((k : ℕ)
                  → find k round.0.clients ≡ (if k == to_id id then none else find k s.clients)))
  unfolding make_server_connection
  accept_client-start_on keeps socket id incoming later s =
      let client = make_server_connection socket id in
      let (waiting, ending) = accept_client-admit socket id incoming later s in
      let entered : (k : ℕ)
          → find k (admit run client s).clients
            ≡ (if k == to_id id then some client else find k s.clients) =
        λ k.
          ap (find k) (admit-clients run keeps client s)
          ∙ find-insert k (to_id id) client s.clients in
      (
        λ waits. (
          ap (λ r. r.1) (waiting waits),
          λ k. ap (λ r. find k r.0.clients) (waiting waits) ∙ entered k,
        ),
        λ ends. (
          (ending ends).0,
          ap (λ r. r.1) (ending ends).1,
          λ k.
              ap (λ r. find k r.0.clients) (ending ends).1
              ∙ find-erase k (to_id id) (admit run client s).clients
              ∙ ground (arith, entered k),
        ),
      )
