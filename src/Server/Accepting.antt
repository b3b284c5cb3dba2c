-- ===== src/Server/Accepting.antt =====
-- What the loop of `accept_clients` (server/src/server.cpp) leaves behind.
use pine_http.Prelude.{
  ℕ, ◌≡◌, ◌≢◌, refl, sym, subst, ap, ◌∙◌, inl, inr, Bool, true, false, ◌&&◌, ◌||◌, not, List, [],
  ◌∷◌, Option, none, some, arith, ◌==◌, if◌then◌else◌, Bool-cases, All,
}
use pine_http.Errors.{ErrorCode, value, unexpected}
use pine_http.IdMap.{find, insert, erase, find-erase, find-insert}
use pine_http.Snowflake.{Snowflake, to_id}
use pine_http.Coroutine.{
  Body, returns_expected, returns_value, returns_error, throws, hangs, Operation, resumes, call,
  await_resume, Void,
}
use pine_http.Coroutine.Await.{IsVoid}
use pine_http.Connection.{invalid_socket}
use pine_http.ServerConnection.{ServerConnection, make_server_connection}
use pine_http.Wsa.{accept_socket}
use pine_http.Server.{
  Server, Accept, returned, Loop, returns, waits, admit, enter, notify, accept_client, accept_loop,
  go_on,
}
use pine_http.Server.Callbacks.{KeepsClients, key, notify-clients, admit-clients}

module _ (run : ℕ → Server → Option ServerConnection → Server) where
  -- Accepting a client, whatever the callbacks do: once `start` of the client has ended, by an
  -- error code or by an exception, the client, and no other, is taken from the map that admitting
  -- it has left, and the loop goes on.
  accept_client-IsVoid :
      (socket : ℕ) (id : Snowflake) (b : Body Void) (s : Server)
      → IsVoid b
      → b ≢ hangs
      → let client = make_server_connection socket id in
        let result = accept_client run (value socket) id (call b) s in
        (result.1 ≡ none)
        × ((other : ℕ)
            → find other result.0.clients ≡ (
                if other == to_id client.connection.id
                then none
                else find other (admit run client s).clients))
  unfolding accept_client call await_resume
  accept_client-IsVoid socket id (returns_expected r) s v ends = absurd v
  accept_client-IsVoid socket id (returns_value a) s v ends = absurd v
  accept_client-IsVoid socket id (returns_error e) s v ends = (refl, λ other. find-erase other _ _)
  accept_client-IsVoid socket id throws s v ends = (refl, λ other. find-erase other _ _)
  accept_client-IsVoid socket id hangs s v ends = absurd (ends refl)

-- The client's `start` has ended, as it does: by an error code.
abbrev pub HasEnded : Accept → Type 0
HasEnded (returned socket last_error id started) =
    (e : ErrorCode) × (await_resume started ≡ resumes (unexpected e))

-- Whether a client with the identifier `k` has been accepted.
abbrev pub has_entered : ℕ → List Accept → Bool
has_entered k [] = false
has_entered k (returned socket last_error id started ∷ later) =
    (not (socket == invalid_socket) && k == to_id id) || has_entered k later

go_on-none :
    (round : Server × Option Loop) (rest : Server × Loop) → round.1 ≡ none → go_on round rest ≡ rest
go_on-none (s, none) rest stays = refl
go_on-none (s, some ended) rest stays = cc

-- Callbacks that leave the map of clients alone, and do not stop the server.
abbrev pub KeepsServing : (ℕ → Server → Option ServerConnection → Server) → Type 0
KeepsServing run =
    (callback : ℕ) (s : Server) (client : Option ServerConnection)
    → ((run callback s client).clients ≡ s.clients)
      × ((run callback s client).is_listening ≡ s.is_listening)

module _ (run : ℕ → Server → Option ServerConnection → Server) (keeps : KeepsServing run) where
  keeps_clients : KeepsClients run
  keeps_clients callback s client = (keeps callback s client).0

  notify-is_listening :
      (callbacks : List ℕ) (client : Option ServerConnection) (s : Server)
      → (notify run callbacks client s).is_listening ≡ s.is_listening
  unfolding notify
  notify-is_listening [] client s = refl
  notify-is_listening (c ∷ cs) client s =
      notify-is_listening cs client (run c s client) ∙ (keeps c s client).1

  enter-is_listening :
      (client : ServerConnection) (s : Server) → (enter run client s).is_listening ≡ s.is_listening
  unfolding enter
  enter-is_listening client s =
      notify-is_listening s.on_connection_callbacks (some client)
        (record s { clients = insert (key client) client s.clients })

  admit-is_listening :
      (client : ServerConnection) (s : Server) → (admit run client s).is_listening ≡ s.is_listening
  unfolding admit
  admit-is_listening client s =
      enter-is_listening client (notify run s.on_connection_attempts_callbacks (some client) s)
      ∙ notify-is_listening s.on_connection_attempts_callbacks (some client) s

  -- A round in which the client's `start` ends, or `accept` fails.
  round-clients :
      (socket last_error : ℕ) (id : Snowflake) (started : Operation Void) (s : Server)
      → HasEnded (returned socket last_error id started)
      → let round = accept_client run (accept_socket socket last_error) id started s in
        (round.1 ≡ none)
        × (round.0.is_listening ≡ s.is_listening)
        × ((k : ℕ)
            → find k round.0.clients ≡ (
                if not (socket == invalid_socket) && k == to_id id then none else find k s.clients))
  unfolding accept_client accept_socket make_server_connection
  round-clients socket last_error id started s (e, ended) =
      elim (Bool-cases (socket == invalid_socket)) [
        | inl refused ↦ rw refused (
          refl,
          notify-is_listening s.on_connection_failed_callbacks none s,
          λ k.
              ap (find k)
                (notify-clients run keeps_clients s.on_connection_failed_callbacks none s),
        )
        | inr new ↦ rw (new, ended) (refl, admit-is_listening client s, left)
      ]
    where
      client : ServerConnection
      client = make_server_connection socket id

      left :
          (k : ℕ)
          → find k (erase (to_id id) (admit run client s).clients)
            ≡ (if k == to_id id then none else find k s.clients)
      left k =
          find-erase k (to_id id) (admit run client s).clients
          ∙ ground (
            arith,
            ap (find k) (admit-clients run keeps_clients client s),
            find-insert k (to_id id) client s.clients,
          )

  accept_loop-go_on :
      (socket last_error : ℕ) (id : Snowflake) (started : Operation Void) (later : List Accept)
      (s : Server)
      → let round = accept_client run (accept_socket socket last_error) id started s in
        s.is_listening ≡ true
        → round.1 ≡ none
        → accept_loop run (returned socket last_error id started ∷ later) s
          ≡ accept_loop run later round.0
  unfolding accept_loop
  accept_loop-go_on socket last_error id started later s on stays =
      let round = accept_client run (accept_socket socket last_error) id started s in
      let rest = accept_loop run later round.0 in
      ap (λ listening. if listening then go_on round rest else (s, returns)) on
      ∙ go_on-none round rest stays

  -- A listening server takes any number of clients, one after the other, each until its `start` has
  -- ended, and then waits for the next, if its callbacks leave the map of clients alone and do not
  -- stop it. Of the clients that it had before, it has left those whose identifier no accepted
  -- client had; of the accepted ones it has none.
  pub accept_loop-clients :
      (accepts : List Accept) (s : Server)
      → s.is_listening ≡ true
      → All HasEnded accepts
      → ((accept_loop run accepts s).1 ≡ waits)
        × ((k : ℕ)
            → find k (accept_loop run accepts s).0.clients
              ≡ (if has_entered k accepts then none else find k s.clients))
  unfolding accept_loop
  accept_loop-clients [] s on ended = rw on (refl, λ k. refl)
  accept_loop-clients (returned socket last_error id started ∷ later) s on (now, ended) =
      let round = accept_client run (accept_socket socket last_error) id started s in
      let (stays, still, clients) = round-clients socket last_error id started s now in
      let (loops, left) = accept_loop-clients later round.0 (still ∙ on) ended in
      subst
        (λ r.
          (r.1 ≡ waits)
          × ((k : ℕ)
              → find k r.0.clients ≡ (
                  if has_entered k (returned socket last_error id started ∷ later)
                  then none
                  else find k s.clients)))
        (sym (accept_loop-go_on socket last_error id started later s on stays))
        (loops, λ k. ground (arith, left k, clients k))
