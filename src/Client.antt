-- ===== src/Client.antt =====
-- client/include/client.h and client/src/client.cpp: the client. It holds its connection by a
-- pointer that nothing in the sources ever sets.
use pine_http.Prelude.{ℕ, Bool, true, false, List, Option, none, some, ◌≡◌, refl}
use pine_http.Text.{Bytes}
use pine_http.Connection.{SocketCall}
use pine_http.ClientConnection.{ClientConnection}
use pine_http.ClientConnection

-- `class client`; `none` is the null pointer.
pub record Client : Type 0 where
  pub connection : Option ClientConnection

-- `client()`
abbrev pub make_client : Client
make_client = record { connection = none }

-- A call that uses the connection: it returns, it has not returned at this depth of calls, or it is
-- undefined because it reads through a null pointer.
pub data Use (A : Type 0) : Type 0 where
  returns : A → Use A
  runs_on : Use A
  undefined : Use A

-- `connect(host, port)`
unfoldable pub connect : ℕ → Bytes → ℕ → Client → Use Bool
connect depth host port c = elim c.connection [
  | none ↦ undefined
  | some connection ↦ elim (ClientConnection.connect depth host port) [
    | none ↦ runs_on
    | some false ↦ returns false
    | some true ↦ returns true
  ]
]

-- `disconnect()`: the client afterwards, and the calls that it made.
unfoldable pub disconnect : Client → Use (Client × List SocketCall)
disconnect c = elim c.connection [
  | none ↦ undefined
  | some connection ↦ returns (
    record { connection = some (ClientConnection.disconnect connection).0 },
    (ClientConnection.disconnect connection).1,
  )
]

-- On a client as it is made, `connect` and `disconnect` are undefined; and with any connection
-- `connect` does not return, however deep its calls go.
connect-undefined :
    (depth : ℕ) (host : Bytes) (port : ℕ)
    → (connect depth host port make_client ≡ undefined)
      × (disconnect make_client ≡ undefined)
      × ((connection : ClientConnection)
          → connect depth host port (record { connection = some connection }) ≡ runs_on)
unfolding connect disconnect
connect-undefined depth host port = (
  refl,
  refl,
  λ connection. rw (ClientConnection.Responses.connect-none depth host port, connect),
)
