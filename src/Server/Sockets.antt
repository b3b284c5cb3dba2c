-- ===== src/Server/Sockets.antt =====
-- Which sockets the threads of the server (server/src/server.cpp) ever close.
use pine_http.Prelude.{
  ℕ, ◌+◌, ◌≤◌, ◌≡◌, refl, sym, ap, ◌∙◌, subst, Bool, true, false, List, [], ◌∷◌, ◌++◌, Option,
  arith, length, length-append, put, put-cases, ◌==◌, if◌then◌else◌, ==_iff, ne→==_false,
  Bool-cases, inl, inr,
}
use pine_http.Connection.{SocketCall, shutdown, closesocket, wsa_cleanup, close}
use pine_http.ServerConnection.{ServerConnection}
use pine_http.Wsa.{close_socket}
use pine_http.Server.{Server}
use pine_http.Server.Clients.{closed}
use pine_http.Server.Callbacks.{KeepsClients}
use pine_http.Server.Sections.{
  set_clients, Thread, accept_thread, caller_of, stop_of, made_by, Stopping, resting, stopping,
  sweeping, over, Sections, Access, closes, stops, closes_socket, sweeps, clears, Accesses, begin,
  later,
}
use pine_http.Server.Exclusion.{Answers, Excludes, Accesses-Excludes}
use pine_http.Server.Served.{Serves-few}

abbrev same : Thread → Thread → Bool
same accept_thread accept_thread = true
same (caller_of i) (caller_of j) = i == j
same (stop_of i) (stop_of j) = i == j
same _ _ = false

-- The calls that a thread has made.
abbrev pub calls_of : Thread → List (Thread × SocketCall) → List SocketCall
calls_of thread [] = []
calls_of thread ((maker, call) ∷ later_calls) =
    let rest = calls_of thread later_calls in if same thread maker then call ∷ rest else rest

calls_of-own :
    (thread : Thread) (before : List (Thread × SocketCall)) (made : List SocketCall)
    → same thread thread ≡ true
    → calls_of thread (before ++ made_by thread made) ≡ calls_of thread before ++ made
calls_of-own thread [] [] own = refl
calls_of-own thread [] (call ∷ made) own =
    rw own (ap (λ l. call ∷ l) (calls_of-own thread [] made own))
calls_of-own thread ((first, call) ∷ before) made own = elim (Bool-cases (same thread first)) [
  | inl yes' ↦ rw yes' (ap (λ l. call ∷ l) (calls_of-own thread before made own))
  | inr no' ↦ rw no' (calls_of-own thread before made own)
]

calls_of-other :
    (thread maker : Thread) (before : List (Thread × SocketCall)) (made : List SocketCall)
    → same thread maker ≡ false
    → calls_of thread (before ++ made_by maker made) ≡ calls_of thread before
calls_of-other thread maker [] [] other = refl
calls_of-other thread maker [] (call ∷ made) other =
    rw other (calls_of-other thread maker [] made other)
calls_of-other thread maker ((first, call) ∷ before) made other =
    elim (Bool-cases (same thread first)) [
      | inl yes' ↦ rw yes' (ap (λ l. call ∷ l) (calls_of-other thread maker before made other))
      | inr no' ↦ rw no' (calls_of-other thread maker before made other)
    ]

closed-append : (a b : List SocketCall) → closed (a ++ b) ≡ closed a ++ closed b
closed-append [] b = refl
closed-append (shutdown socket ∷ a) b = closed-append a b
closed-append (wsa_cleanup ∷ a) b = closed-append a b
closed-append (closesocket socket ∷ a) b = ap (λ l. socket ∷ l) (closed-append a b)

-- How many sockets a call of `stop` has closed, by where it stands.
abbrev pub Closes : List SocketCall → Stopping → Type 0
Closes made resting = made ≡ []
Closes made stopping = made ≡ []
Closes made (sweeping rest) = length (closed made) + length rest ≤ 2
Closes made over = length (closed made) ≤ 2

-- What the threads have done to the sockets: none but those that call `stop` has touched any.
pub record HasClosed (t : Sections) : Type 0 where
  pub by_stop : (k : ℕ) → Closes (calls_of (stop_of k) t.socket_calls) (t.stoppers k)
  pub by_callers : (j : ℕ) → calls_of (caller_of j) t.socket_calls ≡ []
  pub by_accept : calls_of accept_thread t.socket_calls ≡ []

module _ (t : Sections) (v : HasClosed t) where
  Closes-at :
      (k : ℕ) (w : Stopping) → t.stoppers k ≡ w → Closes (calls_of (stop_of k) t.socket_calls) w
  Closes-at k w e = subst (Closes (calls_of (stop_of k) t.socket_calls)) e (v.by_stop k)

  -- A call of `stop` goes on, and touches no socket.
  HasClosed-stopper :
      (k : ℕ) (w : Stopping)
      → Closes (calls_of (stop_of k) t.socket_calls) w
      → HasClosed (record t { stoppers = put t.stoppers k w })
  HasClosed-stopper k w c = record {
    by_stop = λ i.
        put-cases (Closes (calls_of (stop_of i) t.socket_calls)) t.stoppers k w i
          (λ is. subst (λ j. Closes (calls_of (stop_of j) t.socket_calls) w) is c)
          (λ other. v.by_stop i);
    by_callers = v.by_callers;
    by_accept = v.by_accept;
  }

  -- It makes these calls.
  HasClosed-calls :
      (k : ℕ) (w : Stopping) (made : List SocketCall)
      → Closes (calls_of (stop_of k) t.socket_calls ++ made) w
      → HasClosed (record t {
        stoppers = put t.stoppers k w;
        socket_calls = t.socket_calls ++ made_by (stop_of k) made;
      })
  HasClosed-calls k w made c = record {
    by_stop = λ i.
        put-cases (Closes (calls_of (stop_of i) (t.socket_calls ++ made_by (stop_of k) made)))
          t.stoppers k w i
          (λ is.
            subst
              (λ j. Closes (calls_of (stop_of j) (t.socket_calls ++ made_by (stop_of k) made)) w) is
              (subst (λ l. Closes l w)
                (sym (calls_of-own (stop_of k) t.socket_calls made ((==_iff k k).1 refl))) c))
          (λ other.
            subst (λ l. Closes l (t.stoppers i))
              (sym (
                calls_of-other (stop_of i) (stop_of k) t.socket_calls made
                  (ne→==_false i k (λ e. other (sym e)))))
              (v.by_stop i));
    by_callers =
        λ j. calls_of-other (caller_of j) (stop_of k) t.socket_calls made refl ∙ v.by_callers j;
    by_accept = calls_of-other accept_thread (stop_of k) t.socket_calls made refl ∙ v.by_accept;
  }

  HasClosed-server : (s : Server) → HasClosed (record t { server = s })
  HasClosed-server s = record {
    by_stop = v.by_stop;
    by_callers = v.by_callers;
    by_accept = v.by_accept;
  }

module _ (run : ℕ → Server → Option ServerConnection → Server) where
  Access-HasClosed : {t u : Sections} → Excludes t → Access run t u → HasClosed t → HasClosed u
  unfolding close close_socket
  Access-HasClosed {t} x (closes j id client e) v = absurd (subst (Answers t.holder j) e (x.1 j))
  Access-HasClosed {t} x (stops k e) v =
      HasClosed-stopper _ (HasClosed-server t v (record t.server { is_listening = false })) k
        stopping (Closes-at t v k resting e)
  Access-HasClosed {t} x (closes_socket k e) v =
      HasClosed-calls t v k (sweeping t.server.clients) (close_socket t.server.server_socket) (
        omega (
          arith,
          ap (λ l. length (closed (l ++ close_socket t.server.server_socket)))
              (Closes-at t v k stopping e),
          Serves-few t.stoppers t.server.clients t.holder t.accepting x.0,
        ))
  Access-HasClosed {t} x (sweeps k id client rest e) v =
      let made = calls_of (stop_of k) t.socket_calls in
      HasClosed-calls t v k (sweeping rest) (close client.connection).1 (
        omega (
          arith,
          Closes-at t v k (sweeping ((id, client) ∷ rest)) e,
          ap length (closed-append made (close client.connection).1),
          length-append (closed made) (closed (close client.connection).1),
        ))
  Access-HasClosed {t} x (clears k e) v =
      HasClosed-stopper _ (HasClosed-server t v (set_clients t.server [])) k over
        (omega (arith, Closes-at t v k (sweeping []) e))
  Access-HasClosed x other v = record {
    by_stop = v.by_stop;
    by_callers = v.by_callers;
    by_accept = v.by_accept;
  }

-- Of a server that starts without clients, whose callbacks leave its map of clients alone, at the
-- grain of single accesses, whatever its threads do and however many clients they accept: a call of
-- `stop` has closed no socket before it closes the server's, and two at most when it has ended;
-- `accept_clients` and the calls of `disconnect_client` shut down and close none.
pub Accesses-HasClosed :
    (run : ℕ → Server → Option ServerConnection → Server) (keeps : KeepsClients run) {t : Sections}
    → Accesses run t
    → HasClosed t
Accesses-HasClosed run keeps (begin s none') = record {
  by_stop = λ k. refl;
  by_callers = λ j. refl;
  by_accept = refl;
}
Accesses-HasClosed run keeps (later r a) =
    Access-HasClosed run (Accesses-Excludes run keeps r) a (Accesses-HasClosed run keeps r)
