-- ===== src/Examples/Runs.antt =====
-- How the two example programs end.
use pine_http.Prelude.{
  ℕ, ◌≡◌, ◌≢◌, ◌↔◌, refl, sym, subst, ap, ◌∙◌, List, [], ◌∷◌, Option, none, some, arith, true,
}
use pine_http.Errors.{ErrorCode, Expected, value, unexpected}
use pine_http.Snowflake.{Snowflake}
use pine_http.Coroutine.{Operation, Resumption, resumes, raises, blocks, await_resume, Void}
use pine_http.ServerConnection.{ServerConnection, make_server_connection}
use pine_http.Wsa.{accept_socket}
use pine_http.Server.{
  Server, make_server, Accept, returned, Loop, returns, waits, waits_for_client, excepts, notify,
  accept_client, accept_loop, accept_clients, after_start, go_on,
}
use pine_http.Server.Start.{
  Platform, first_failure, attempts, opened, start-first_failure, failed, accepting,
}
use pine_http.Text.{codes}
use pine_http.Examples.{exits, server_main, client_main, server_exit, client_exit, undefined}
use pine_http.Client.{connect}

-- A listening server with these clients, and with no callback that takes part in accepting them.
abbrev unobserved : Server → List (ℕ × ServerConnection) → Server
unobserved s m = record s {
  clients = m;
  is_listening = true;
  on_connection_attempts_callbacks = [];
  on_connection_failed_callbacks = [];
  on_connection_callbacks = [];
}

module _ (run : ℕ → Server → Option ServerConnection → Server) where
  -- A round of `accept_clients` without callbacks does not end the loop by a return.
  Stays : Server → Server × Option Loop → Type 0
  Stays s round =
      (m : List (ℕ × ServerConnection)) × (round.0 ≡ unobserved s m) × (round.1 ≢ some returns)

  after_start-Stays :
      (s : Server) (m : List (ℕ × ServerConnection)) (client : ServerConnection)
      (r : Resumption Void)
      → Stays s (after_start run client (unobserved s m) r)
  unfolding after_start Stays
  after_start-Stays s m client (resumes (value v)) = (m, refl, λ e. cc)
  after_start-Stays s m client (resumes (unexpected e)) = (_, refl, λ e. cc)
  after_start-Stays s m client (raises e) = (m, refl, λ e. cc)
  after_start-Stays s m client blocks = (m, refl, λ e. cc)

  accept_client-Stays :
      (s : Server) (m : List (ℕ × ServerConnection)) (socket : Expected ℕ) (id : Snowflake)
      (started : Operation Void)
      → Stays s (accept_client run socket id started (unobserved s m))
  unfolding accept_client Stays
  accept_client-Stays s m (unexpected e) id started = (m, refl, λ e. cc)
  accept_client-Stays s m (value socket) id started =
      after_start-Stays s _ (make_server_connection socket id) (await_resume started)

  -- The loop of a listening server without callbacks does not return.
  accept_loop-returns :
      (accepts : List Accept) (s : Server) (m : List (ℕ × ServerConnection))
      → (accept_loop run accepts (unobserved s m)).1 ≢ returns
  unfolding accept_loop Stays
  accept_loop-returns [] s m e = cc
  accept_loop-returns (returned socket last_error id started ∷ later) s m e =
      goes_on (accept_loop-returns later s)
        (accept_client run (accept_socket socket last_error) id started (unobserved s m))
        (accept_client-Stays s m (accept_socket socket last_error) id started) e
    where
      goes_on :
          ((m' : List (ℕ × ServerConnection))
            → (accept_loop run later (unobserved s m')).1 ≢ returns)
          → (round : Server × Option Loop) → Stays s round
          → (go_on round (accept_loop run later round.0)).1 ≡ returns
          → ⊥
      goes_on rest (t, none) (m', same, stays) e' =
          rest m' (ap (λ u. (accept_loop run later u).1) (sym same) ∙ e')
      goes_on rest (t, some ended) (m', same, stays) e' = stays (ap some e')

-- How `main` ends, by the first of the five calls that fails, if one does.
server_exit-exits :
    (code : ℕ) (failure : Option ErrorCode) (loop : Loop)
    → loop ≢ returns
    → (server_exit (elim failure [ some e ↦ failed e | none ↦ accepting loop ]) ≡ exits code)
      ↔ ((code ≡ 1) × ((e : ErrorCode) × (failure ≡ some e)))
unfolding server_exit
server_exit-exits code (some e) loop stays = (λ h. (ground arith, (e, refl)), λ h. ground arith)
server_exit-exits code none returns stays = absurd (stays refl)
server_exit-exits code none waits stays = (λ h. cc, λ h. cc)
server_exit-exits code none waits_for_client stays = (λ h. cc, λ h. cc)
server_exit-exits code none excepts stays = (λ h. cc, λ h. cc)

-- The server example returns from `main` exactly if one of the five calls that open its socket fails,
-- and then with 1: it never comes to the line that prints "Server started.".
pub server_main-exits :
    (run : ℕ → Server → Option ServerConnection → Server) (p : Platform) (accepts : List Accept)
    (code : ℕ)
    → (server_main run p accepts ≡ exits code)
      ↔ ((code ≡ 1) × ((e : ErrorCode) × (first_failure (attempts p) ≡ some e)))
unfolding server_main make_server accept_clients notify
server_main-exits run p accepts code =
    subst
      (λ st.
        (server_exit st ≡ exits code)
        ↔ ((code ≡ 1) × ((e : ErrorCode) × (first_failure (attempts p) ≡ some e))))
      (sym (start-first_failure run p accepts (make_server (codes "80"))).0)
      (server_exit-exits code (first_failure (attempts p)) _
        (accept_loop-returns run accepts (opened p (make_server (codes "80"))) []))

-- `main` of the client example is undefined from its first call on.
client_main-undefined : (depth : ℕ) → client_main depth ≡ undefined
unfolding client_main connect client_exit
client_main-undefined depth = refl
