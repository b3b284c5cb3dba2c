-- ===== src/Server/Exclusion.antt =====
-- What the mutex of the server (server/src/server.cpp) does at the grain of single accesses.
use pine_http.Prelude.{
  ℕ, ◌≡◌, ◌≢◌, ◌⊎◌, inl, inr, refl, sym, ap, ◌∙◌, subst, [], ◌∷◌, Option, none, some, put, put-elim,
  put-cases, put-same, arith,
}
use pine_http.IdMap.{find, insert}
use pine_http.ServerConnection.{ServerConnection}
use pine_http.Server.{Server, after_start}
use pine_http.Server.Callbacks.{KeepsClients, key, not_found}
use pine_http.Server.Sections.{
  Holder, nobody, accepter, caller, Accepting, at_head, in_accept, unlocking, failing, announcing,
  welcoming, inserting, Stopping, stopping, sweeping, over, Calling, outside, waiting, finding,
  erasing, closing, leaving, finished, Sections, Access, goes_on, leaves_loop, refuses,
  tells_failure, continues, accepts, announces, locks, inserts, welcomes, ends, unlocks, calls,
  caller_locks, misses, finds, closes, erases, caller_unlocks, stops, closes_socket, sweeps, clears,
  Accesses, begin, later,
}
use pine_http.Server.Served.{
  IsServed, Serves, Serves-empty, Serves-holder, Serves-stoppers, Serves-cleared, erase-IsServed,
  Cleared-put,
}

-- Who holds the mutex and what is returned, by where a caller of `disconnect_client` stands. None
-- comes to the call that closes a client.
abbrev pub Answers : Holder → ℕ → Calling → Type 0
Answers h j (finding id) = h ≡ caller j
Answers h j (closing id client) = ⊥
Answers h j (erasing id) = ⊥
Answers h j (leaving result) = (h ≡ caller j) × (result ≡ not_found)
Answers h j (finished result) = result ≡ not_found
Answers h j _ = Unit

Answers-holder :
    (h h' : Holder) (j : ℕ) (c : Calling) → h ≢ caller j → Answers h j c → Answers h' j c
Answers-holder h h' j (finding id) other v = absurd (other v)
Answers-holder h h' j (leaving result) other v = absurd (other v.0)
Answers-holder h h' j (closing id client) other v = v
Answers-holder h h' j (erasing id) other v = v
Answers-holder h h' j (finished result) other v = v
Answers-holder h h' j outside other v = v
Answers-holder h h' j (waiting id) other v = v

-- Who holds the mutex, what is in the map and what is returned, for all of the threads.
abbrev pub Excludes : Sections → Type 0
Excludes t =
    Serves t.holder t.stoppers t.server.clients t.accepting
    × ((j : ℕ) → Answers t.holder j (t.callers j))

module _ (run : ℕ → Server → Option ServerConnection → Server) (keeps : KeepsClients run)
    (t : Sections) (v : Excludes t) where
  at : (a : Accepting) → t.accepting ≡ a → Serves t.holder t.stoppers t.server.clients a
  at a e = subst (Serves t.holder t.stoppers t.server.clients) e v.0

  called : (j : ℕ) (c : Calling) → t.callers j ≡ c → Answers t.holder j c
  called j c e = subst (Answers t.holder j) e (v.1 j)

  -- A caller goes on, with the mutex as it was.
  Answers-put :
      (j : ℕ) (c : Calling)
      → Answers t.holder j c
      → (i : ℕ) → Answers t.holder i (put t.callers j c i)
  Answers-put j c a i =
      put-elim (Answers t.holder i) t.callers j c i
        (λ same. subst (λ k. Answers t.holder k c) same a) (v.1 i)

  -- A caller takes or leaves the mutex.
  Excludes-caller :
      (j : ℕ) (h : Holder) (c : Calling)
      → (t.holder ≡ nobody) ⊎ (t.holder ≡ caller j)
      → Answers h j c
      → Serves h t.stoppers t.server.clients t.accepting
        × ((i : ℕ) → Answers h i (put t.callers j c i))
  Excludes-caller j h c free a = (
    Serves-holder t.stoppers t.server.clients t.holder h t.accepting (λ e. ground arith) v.0,
    λ i.
        put-cases (Answers h i) t.callers j c i (λ same. subst (λ k. Answers h k c) same a)
          (λ other. Answers-holder t.holder h i (t.callers i) (λ e. ground arith) (v.1 i)),
  )

  -- A call of `stop` goes on, with the map as it was.
  stopper :
      (k : ℕ) (w : Stopping)
      → t.stoppers k ≢ over
      → Serves t.holder (put t.stoppers k w) t.server.clients t.accepting
        × ((j : ℕ) → Answers t.holder j (t.callers j))
  stopper k w yet = (
    Serves-stoppers t.stoppers t.server.clients t.holder (put t.stoppers k w) t.accepting
        (Cleared-put t.stoppers k w yet) v.0,
    v.1,
  )

  Access-Excludes : {u : Sections} → Access run t u → Excludes u
  unfolding insert find after_start
  Access-Excludes (goes_on e l) = (at at_head e, v.1)
  Access-Excludes (leaves_loop e l) = (at at_head e, v.1)
  Access-Excludes (refuses e) = (at in_accept e, v.1)
  Access-Excludes (tells_failure c cs e) = (keeps c t.server none ∙ at (failing (c ∷ cs)) e, v.1)
  Access-Excludes (continues e) = (at (failing []) e, v.1)
  Access-Excludes (accepts socket id e) = (at in_accept e, v.1)
  Access-Excludes (announces client c cs e) =
      (keeps c t.server (some client) ∙ at (announcing client (c ∷ cs)) e, v.1)
  Access-Excludes (locks client e free) = (
    (refl, at (announcing client []) e),
    λ j. Answers-holder t.holder accepter j (t.callers j) (λ x. cc) (v.1 j),
  )
  Access-Excludes (inserts client e) =
      let (held, empty) = at (inserting client) e in
      ((held, inl (ap (insert (key client) client) empty)), v.1)
  Access-Excludes (welcomes client c cs e) =
      let (held, few) = at (welcoming client (c ∷ cs)) e in
      ((held, subst (IsServed t.stoppers client) (sym (keeps c t.server (some client))) few), v.1)
  Access-Excludes (ends client x e) =
      let (held, few) = at (welcoming client []) e in
      ((held, erase-IsServed t.stoppers client t.server.clients few), v.1)
  Access-Excludes (unlocks e) =
      let (held, empty) = at unlocking e in
      (empty, λ j. Answers-holder t.holder nobody j (t.callers j) (λ x. cc) (v.1 j))
  Access-Excludes (calls j id e) = (v.0, Answers-put j (waiting id) tt)
  Access-Excludes (caller_locks j id e free) =
      Excludes-caller j (caller j) (finding id) (inl free) refl
  Access-Excludes (misses j id e missing) =
      (v.0, Answers-put j (leaving not_found) (called j (finding id) e, refl))
  Access-Excludes (finds j id client e found) =
      let held = called j (finding id) e in
      absurd (
        cc (
          found,
          ap (find id)
              (Serves-empty t.stoppers t.server.clients t.holder t.accepting (λ x. cc) v.0),
        ))
  Access-Excludes (closes j id client e) = absurd (called j (closing id client) e)
  Access-Excludes (erases j id e) = absurd (called j (erasing id) e)
  Access-Excludes (caller_unlocks j result e) =
      let (held, missing) = called j (leaving result) e in
      Excludes-caller j nobody (finished result) (inr held) missing
  Access-Excludes (stops k e) = stopper k stopping (λ x. cc)
  Access-Excludes (closes_socket k e) = stopper k (sweeping t.server.clients) (λ x. cc)
  Access-Excludes (sweeps k id client rest e) = stopper k (sweeping rest) (λ x. cc)
  Access-Excludes (clears k e) = (
    Serves-cleared t.stoppers t.server.clients t.holder (put t.stoppers k over) t.accepting
        (k, put-same t.stoppers k over) v.0,
    v.1,
  )

-- Of a server that starts without clients, whose callbacks leave its map of clients alone, at the
-- grain of single accesses, `stop` included: outside of its section `accept_clients` has left the map
-- empty; within it holds the mutex; before it inserts its client and behind its erasure the map is
-- empty, and in between the client, and no other, is in the map, or none is and some call of `stop` has
-- by then cleared the map and ended. A caller of `disconnect_client` within its section holds the mutex, finds no client, and
-- never comes to close one; and what the calls return is client_not_found.
pub Accesses-Excludes :
    (run : ℕ → Server → Option ServerConnection → Server) (keeps : KeepsClients run) {t : Sections}
    → Accesses run t
    → Excludes t
Accesses-Excludes run keeps (begin s none') = (none', λ j. tt)
Accesses-Excludes run keeps (later r a) =
    Access-Excludes run keeps _ (Accesses-Excludes run keeps r) a
