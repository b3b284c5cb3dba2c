-- ===== src/Server/Sections.antt =====
-- The threads of the server (server/src/server.cpp), each access to what they share as a step of its
-- own: the sections of `accept_clients` and `disconnect_client` under
-- `mutate_clients_mutex`, and `stop`, which does not take it. `stop` goes on over the clients that
-- were in the map when its loop began.
use pine_http.Prelude.{ℕ, ◌≡◌, true, false, List, [], ◌∷◌, ◌++◌, Option, none, some, put, map}
use pine_http.Errors.{ErrorCode, unexpected, make_error_code, success, client_not_found}
use pine_http.IdMap.{find, insert, erase}
use pine_http.Snowflake.{Snowflake, to_id}
use pine_http.Connection.{SocketCall, close}
use pine_http.Coroutine.{Body, resumes, returns_error, Void}
use pine_http.ServerConnection.{ServerConnection, make_server_connection}
use pine_http.Wsa.{close_socket}
use pine_http.Server.{Server, after_start}

-- Who holds the mutex.
pub data Holder : Type 0 where
  nobody accepter : Holder
  caller : ℕ → Holder

-- Where `accept_clients` stands: at the head of its loop; in `accept`; at the callbacks that are left
-- of those for a failure, of those for an attempt, which come before the lock, and of those for a
-- connection, behind which `start` of the client runs; under the lock before the client is inserted;
-- under the lock when it has been erased; or it has returned.
pub data Accepting : Type 0 where
  at_head in_accept unlocking has_returned : Accepting
  failing : List ℕ → Accepting
  announcing welcoming : ServerConnection → List ℕ → Accepting
  inserting : ServerConnection → Accepting

-- Where a caller of `disconnect_client` stands: before the call, at the lock, before `find`, before
-- the client is closed, before it is erased, before the lock is left, or behind the call.
pub data Calling : Type 0 where
  outside : Calling
  waiting finding erasing : ℕ → Calling
  closing : ℕ → ServerConnection → Calling
  leaving finished : Body Void → Calling

-- Where a caller of `stop` stands: before the call, before the server's socket is closed, in the loop
-- over the clients, or behind the call.
pub data Stopping : Type 0 where
  resting stopping over : Stopping
  sweeping : List (ℕ × ServerConnection) → Stopping

-- A thread: the one that runs `accept_clients`, or one that calls `disconnect_client` or `stop`.
pub data Thread : Type 0 where
  accept_thread : Thread
  caller_of stop_of : ℕ → Thread

-- Calls that shut down and close sockets, with the thread that makes them.
abbrev pub made_by : Thread → List SocketCall → List (Thread × SocketCall)
made_by thread = map (λ call. (thread, call))

pub record Sections : Type 0 where
  pub server : Server
  pub holder : Holder
  pub accepting : Accepting
  pub callers : ℕ → Calling
  pub stoppers : ℕ → Stopping
  pub socket_calls : List (Thread × SocketCall)

abbrev pub set_clients : Server → List (ℕ × ServerConnection) → Server
set_clients s clients = record s { clients = clients }

module _ (run : ℕ → Server → Option ServerConnection → Server) where
  pub data Access (t : Sections) : Sections → Type 0 where
    goes_on :
        t.accepting ≡ at_head
        → t.server.is_listening ≡ true
        → Access t (record t { accepting = in_accept })
    leaves_loop :
        t.accepting ≡ at_head
        → t.server.is_listening ≡ false
        → Access t (record t { accepting = has_returned })
    refuses :
        t.accepting ≡ in_accept
        → Access t (record t { accepting = failing t.server.on_connection_failed_callbacks })
    tells_failure :
        (callback : ℕ) (callbacks : List ℕ)
        → t.accepting ≡ failing (callback ∷ callbacks)
        → Access t (record t { server = run callback t.server none; accepting = failing callbacks })
    continues : t.accepting ≡ failing [] → Access t (record t { accepting = at_head })
    accepts :
        (socket : ℕ) (id : Snowflake)
        → t.accepting ≡ in_accept
        → Access t (record t {
          accepting =
              announcing
                (make_server_connection socket id)
                t.server.on_connection_attempts_callbacks;
        })
    announces :
        (client : ServerConnection) (callback : ℕ) (callbacks : List ℕ)
        → t.accepting ≡ announcing client (callback ∷ callbacks)
        → Access t (record t {
          server = run callback t.server (some client);
          accepting = announcing client callbacks;
        })
    locks :
        (client : ServerConnection)
        → t.accepting ≡ announcing client []
        → t.holder ≡ nobody
        → Access t (record t { holder = accepter; accepting = inserting client })
    inserts :
        (client : ServerConnection)
        → t.accepting ≡ inserting client
        → Access t (record t {
          server =
              set_clients t.server (insert (to_id client.connection.id) client t.server.clients);
          accepting = welcoming client t.server.on_connection_callbacks;
        })
    welcomes :
        (client : ServerConnection) (callback : ℕ) (callbacks : List ℕ)
        → t.accepting ≡ welcoming client (callback ∷ callbacks)
        → Access t (record t {
          server = run callback t.server (some client);
          accepting = welcoming client callbacks;
        })
    -- `start` of the client has ended, by an error code as always.
    ends :
        (client : ServerConnection) (e : ErrorCode)
        → t.accepting ≡ welcoming client []
        → Access t (record t {
          server = (after_start run client t.server (resumes (unexpected e))).0;
          accepting = unlocking;
        })
    unlocks : t.accepting ≡ unlocking → Access t (record t { holder = nobody; accepting = at_head })
    calls :
        (j client_id : ℕ)
        → t.callers j ≡ outside
        → Access t (record t { callers = put t.callers j (waiting client_id) })
    caller_locks :
        (j client_id : ℕ)
        → t.callers j ≡ waiting client_id
        → t.holder ≡ nobody
        → Access t (record t { holder = caller j; callers = put t.callers j (finding client_id) })
    misses :
        (j client_id : ℕ)
        → t.callers j ≡ finding client_id
        → find client_id t.server.clients ≡ none
        → Access t (record t {
          callers = put t.callers j (leaving (returns_error (make_error_code client_not_found)));
        })
    finds :
        (j client_id : ℕ) (client : ServerConnection)
        → t.callers j ≡ finding client_id
        → find client_id t.server.clients ≡ some client
        → Access t (record t { callers = put t.callers j (closing client_id client) })
    closes :
        (j client_id : ℕ) (client : ServerConnection)
        → t.callers j ≡ closing client_id client
        → Access t (record t {
          callers = put t.callers j (erasing client_id);
          socket_calls = t.socket_calls ++ made_by (caller_of j) (close client.connection).1;
        })
    erases :
        (j client_id : ℕ)
        → t.callers j ≡ erasing client_id
        → Access t (record t {
          server = set_clients t.server (erase client_id t.server.clients);
          callers = put t.callers j (leaving (returns_error (make_error_code success)));
        })
    caller_unlocks :
        (j : ℕ) (result : Body Void)
        → t.callers j ≡ leaving result
        → Access t (record t { holder = nobody; callers = put t.callers j (finished result) })
    stops :
        (k : ℕ)
        → t.stoppers k ≡ resting
        → Access t (record t {
          server = record t.server { is_listening = false };
          stoppers = put t.stoppers k stopping;
        })
    closes_socket :
        (k : ℕ)
        → t.stoppers k ≡ stopping
        → Access t (record t {
          stoppers = put t.stoppers k (sweeping t.server.clients);
          socket_calls =
              t.socket_calls ++ made_by (stop_of k) (close_socket t.server.server_socket);
        })
    sweeps :
        (k id : ℕ) (client : ServerConnection) (rest : List (ℕ × ServerConnection))
        → t.stoppers k ≡ sweeping ((id, client) ∷ rest)
        → Access t (record t {
          stoppers = put t.stoppers k (sweeping rest);
          socket_calls = t.socket_calls ++ made_by (stop_of k) (close client.connection).1;
        })
    clears :
        (k : ℕ)
        → t.stoppers k ≡ sweeping []
        → Access t (record t { server = set_clients t.server []; stoppers = put t.stoppers k over })

  -- What is reached from a server without clients, with nobody under way.
  pub data Accesses : Sections → Type 0 where
    begin :
        (s : Server)
        → s.clients ≡ []
        → Accesses (record {
          server = s;
          holder = nobody;
          accepting = at_head;
          callers = λ j. outside;
          stoppers = λ k. resting;
          socket_calls = [];
        })
    later : {t u : Sections} → Accesses t → Access t u → Accesses u
