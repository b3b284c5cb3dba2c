-- ===== src/Server/Start.antt =====
-- `server::start` (server/src/server.cpp): the steps that open the socket, and where they stop.
use pine_http.Prelude.{
  ℕ, ◌≡◌, Bool, not, true, Option, none, some, List, [], ◌∷◌, arith, ◌==◌, if◌then◌else◌,
}
use pine_http.Errors.{ErrorCode, Expected, value, unexpected, make_errc}
use pine_http.Connection.{invalid_socket}
use pine_http.ServerConnection.{ServerConnection}
use pine_http.Wsa.{initialize_wsa, get_address_info, create_socket, bind_socket, listen_socket}
use pine_http.Server.{Server, Accept, Loop, accept_clients}

-- What the socket library returns to the five calls, each with the code of its error.
pub record Platform : Type 0 where
  pub startup : ℕ
  pub address_error : ℕ
  pub address : ℕ
  pub socket : ℕ
  pub socket_error : ℕ
  pub bind_failed : Bool
  pub bind_error : ℕ
  pub listen_failed : Bool
  pub listen_error : ℕ

-- How `start` stands: it has returned an error, or it is in `accept_clients`.
pub data Started : Type 0 where
  failed : ErrorCode → Started
  accepting : Loop → Started

-- One step: an error ends `start`, with the server as it is by then.
abbrev step : {A : Type 0} → Expected A → Server → (A → Server × Started) → Server × Started
step (unexpected e) s next = (s, failed e)
step (value a) s next = next a

module _ (run : ℕ → Server → Option ServerConnection → Server) where
  unfoldable pub start : Platform → List Accept → Server → Server × Started
  unfolding initialize_wsa get_address_info create_socket bind_socket listen_socket
  start p accepts s = step (initialize_wsa p.startup) s λ _.
      step (get_address_info p.address_error p.address) s λ address.
        let s₁ = record s { address_info = some address } in
        step (create_socket p.socket p.socket_error) s₁ λ socket.
          let s₂ = record s₁ { server_socket = socket } in
          step (bind_socket p.bind_failed p.bind_error) s₂ λ _.
            step (listen_socket p.listen_failed p.listen_error) s₂ λ _.
              let result = accept_clients run accepts (record s₂ { is_listening = true }) in
              (result.0, accepting result.1)

-- The five calls in their order: whether each has failed, and its error.
abbrev pub attempts : Platform → List (Bool × ErrorCode)
attempts p =
    (not (p.startup == 0), make_errc p.startup)
    ∷ (not (p.address_error == 0), make_errc p.address_error)
    ∷ (p.socket == invalid_socket, make_errc p.socket_error)
    ∷ (p.bind_failed, make_errc p.bind_error)
    ∷ (p.listen_failed, make_errc p.listen_error)
    ∷ []

abbrev pub first_failure : List (Bool × ErrorCode) → Option ErrorCode
first_failure [] = none
first_failure ((failed', e) ∷ later) = if failed' then some e else first_failure later

-- The server with its socket open.
abbrev pub opened : Platform → Server → Server
opened p s = record s {
  address_info = some p.address;
  server_socket = p.socket;
  is_listening = true;
}

-- `start` returns the error of the first of the five calls that fails, and leaves the clients and
-- `is_listening` as they were. If none fails, it accepts clients on the open socket, and stands as
-- `accept_clients` leaves it.
pub start-first_failure :
    (run : ℕ → Server → Option ServerConnection → Server) (p : Platform) (accepts : List Accept)
    (s : Server)
    → let accepted = accept_clients run accepts (opened p s) in
      ((start run p accepts s).1
        ≡ elim (first_failure (attempts p)) [ some e ↦ failed e | none ↦ accepting accepted.1 ])
      × ((start run p accepts s).0.is_listening ≡ elim (first_failure (attempts p)) [
        | some e ↦ s.is_listening
        | none ↦ accepted.0.is_listening
      ])
      × ((start run p accepts s).0.clients
          ≡ elim (first_failure (attempts p)) [ some e ↦ s.clients | none ↦ accepted.0.clients ])
unfolding start
start-first_failure run p accepts s = (ground arith, ground arith, ground arith)
