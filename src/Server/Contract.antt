-- ===== src/Server/Contract.antt =====
-- The clients of the server as its caller sees them: a function of the identifiers, without the order
-- of the map. `Trace` runs the sections of server/src/server.cpp that touch the map; the map may be
-- iterated in another order after each of them.
use mathlib.Core.List.{Perm}
use mathlib.Core.List.Perm
use pine_http.Prelude.{
  ℕ, ◌≡◌, refl, sym, subst, List, [], ◌∷◌, Option, none, some, ◌==◌, if◌then◌else◌, map, ap, ◌∙◌,
  inl, inr, Option-cases,
}
use pine_http.Errors.{value, unexpected}
use pine_http.IdMap.{find, erase}
use pine_http.IdMap.Listing.{
  erase-missing, IsDistinct, Lists, Lists-insert, Lists-erase, Lists-Perm,
}
use pine_http.Coroutine.{Body, Resumption, resumes, raises, blocks, Void}
use pine_http.Connection.{SocketCall}
use pine_http.ServerConnection.{ServerConnection}
use pine_http.Server.{Server, notify, enter, after_start, disconnect_client, stop}
use pine_http.Server.Clients.{hang_up, answer, sockets, closed, disconnect_client-find, stop-closed}
use pine_http.Server.Callbacks.{KeepsClients, key, notify-clients, enter-clients}

-- What can be seen of a section: the client that enters or whose `start` ends, and what
-- `disconnect_client` and `stop` do to the sockets.
pub data Seen : Type 0 where
  entered : ServerConnection → Seen
  ended : ServerConnection → Resumption Void → Seen
  disconnected : ℕ → List SocketCall → Body Void → Seen
  stopped : ℕ → List SocketCall → Seen

module _ (run : ℕ → Server → Option ServerConnection → Server) where
  pub data Trace : Server → List Seen → Server → Type 0 where
    rests : {s : Server} → Trace s [] s
    notifies :
        {s u : Server} {seen : List Seen} (callbacks : List ℕ) (client : Option ServerConnection)
        → Trace (notify run callbacks client s) seen u
        → Trace s seen u
    enters :
        {s u : Server} {seen : List Seen} (client : ServerConnection)
        → Trace (enter run client s) seen u
        → Trace s (entered client ∷ seen) u
    ends :
        {s u : Server} {seen : List Seen} (client : ServerConnection) (result : Resumption Void)
        → Trace (after_start run client s result).0 seen u
        → Trace s (ended client result ∷ seen) u
    disconnects :
        {s u : Server} {seen : List Seen} (id : ℕ)
        → Trace (disconnect_client id s).0 seen u
        → Trace s (disconnected id (disconnect_client id s).1 (disconnect_client id s).2 ∷ seen) u
    stops :
        {s u : Server} {seen : List Seen}
        → Trace (stop s).0 seen u
        → Trace s (stopped s.server_socket (stop s).1 ∷ seen) u
    -- The map is iterated in another order from now on.
    reorders :
        {s u : Server} {seen : List Seen} (clients : List (ℕ × ServerConnection))
        → IsDistinct clients
        → ((k : ℕ) → find k clients ≡ find k s.clients)
        → Trace (record s { clients = clients }) seen u
        → Trace s seen u

abbrev pub Clients : Type 0
Clients = ℕ → Option ServerConnection

abbrev pub without : ℕ → Clients → Clients
without id f k = if k == id then none else f k

-- The clients that are there afterwards.
abbrev pub clients_after : Clients → Seen → Clients
clients_after f (entered client) = λ k. if k == key client then some client else f k
clients_after f (ended client (resumes (unexpected e))) = without (key client) f
clients_after f (ended client _) = f
clients_after f (disconnected id calls result) = without id f
clients_after f (stopped socket calls) = λ k. none

abbrev pub clients_after_all : Clients → List Seen → Clients
clients_after_all f [] = f
clients_after_all f (x ∷ seen) = clients_after_all (clients_after f x) seen

-- What is promised: `disconnect_client` hangs up on the client with the identifier, if it is there,
-- and `stop` closes the server's socket and those of the clients that are there, each once.
abbrev pub Promised : Clients → Seen → Type 0
Promised f (disconnected id calls result) = (calls ≡ hang_up (f id)) × (result ≡ answer (f id))
Promised f (stopped socket calls) =
    (m : List (ℕ × ServerConnection)) → Lists f m → Perm (closed calls) (socket ∷ sockets m)
Promised f _ = Unit

abbrev pub PromisedAll : Clients → List Seen → Type 0
PromisedAll f [] = Unit
PromisedAll f (x ∷ seen) = Promised f x × PromisedAll (clients_after f x) seen

sockets-map : (m : List (ℕ × ServerConnection)) → sockets m ≡ map (λ p. p.1.connection.socket) m
sockets-map [] = refl
sockets-map ((k, client) ∷ m) = ap (λ l. client.connection.socket ∷ l) (sockets-map m)

stop-Promised :
    (f : Clients) (s : Server)
    → Lists f s.clients
    → (m : List (ℕ × ServerConnection)) → Lists f m
    → Perm (closed (stop s).1) (s.server_socket ∷ sockets m)
stop-Promised f s l m l' =
    rw ((stop-closed s).0, sockets-map s.clients, sockets-map m)
      (Perm.cons s.server_socket (Perm.map _ (Lists-Perm f s.clients m l l')))

disconnect_client-clients :
    (id : ℕ) (s : Server) → (disconnect_client id s).0.clients ≡ erase id s.clients
unfolding disconnect_client
disconnect_client-clients id s = elim (Option-cases (find id s.clients)) [
  | inl missing ↦ rw (missing, disconnect_client) (sym (erase-missing id s.clients missing))
  | inr (client, here) ↦ rw (here, disconnect_client) refl
]

module _ (run : ℕ → Server → Option ServerConnection → Server) (keeps : KeepsClients run) where
  ends-Lists :
      (f : Clients) (s : Server) (client : ServerConnection) (result : Resumption Void)
      → Lists f s.clients
      → Lists (clients_after f (ended client result)) (after_start run client s result).0.clients
  unfolding after_start
  ends-Lists f s client (resumes (value _)) l = l
  ends-Lists f s client (resumes (unexpected e)) l = Lists-erase f s.clients (key client) l
  ends-Lists f s client (raises e) l = l
  ends-Lists f s client blocks l = l

  -- Of a server whose callbacks leave its map of clients alone, whatever sections run on it and in
  -- whatever order the map is iterated: `disconnect_client` closes the client with the identifier, if
  -- it is there by then, and tells whether it was; `stop` closes the server's socket and those of the
  -- clients that are there by then, each once; and the map lists at last the clients that have
  -- entered and have not ended, been disconnected, or been there at a `stop` since.
  pub Trace-Promised :
      {s u : Server} {seen : List Seen}
      → Trace run s seen u
      → (f : Clients) → Lists f s.clients
      → PromisedAll f seen × Lists (clients_after_all f seen) u.clients
  unfolding stop find
  Trace-Promised rests f l = (tt, l)
  Trace-Promised {s} (notifies callbacks client t) f l =
      Trace-Promised t f (subst (Lists f) (sym (notify-clients run keeps callbacks client s)) l)
  Trace-Promised {s} (enters client t) f l =
      let (p, r) = Trace-Promised t (clients_after f (entered client)) (
        subst (Lists _) (sym (enter-clients run keeps client s))
          (Lists-insert f s.clients (key client) client l)) in
      ((tt, p), r)
  Trace-Promised {s} (ends client result t) f l =
      let (p, r) =
        Trace-Promised t (clients_after f (ended client result)) (ends-Lists f s client result l) in
      ((tt, p), r)
  Trace-Promised {s} (disconnects id t) f l =
      let (p, r) =
        Trace-Promised t (without id f)
          (subst (Lists _) (sym (disconnect_client-clients id s)) (Lists-erase f s.clients id l)) in
      (
        (
          (
            (disconnect_client-find id s).0 ∙ ap hang_up (l.held id),
            (disconnect_client-find id s).1 ∙ ap answer (l.held id),
          ),
          p,
        ),
        r,
      )
  Trace-Promised {s} (stops t) f l =
      let (p, r) = Trace-Promised t (λ k. none) (record { distinct = tt; held = λ k. refl }) in
      ((stop-Promised f s l, p), r)
  Trace-Promised {s} (reorders clients d same t) f l =
      Trace-Promised t f (record { distinct = d; held = λ k. same k ∙ l.held k })
