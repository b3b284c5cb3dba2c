-- ===== src/ServerConnection/Loop.antt =====
-- How the loop of `start` ends.
use pine_http.Prelude.{
  ◌≡◌, refl, sym, ap, ◌∙◌, append-nil, Bool, true, false, List, [], ◌∷◌, ◌++◌, map,
}
use pine_http.Errors.{ErrorCode, value, unexpected}
use pine_http.HttpRequest.{HttpRequest}
use pine_http.Coroutine.{
  Body, returns_error, throws, hangs, Resumption, resumes, raises, blocks, FutureError, Void,
}
use pine_http.Coroutine.Await.{IsVoid}
use pine_http.ServerConnection.{ServerConnection, start_loop, start}

-- The results of receiving some requests.
abbrev requests : List HttpRequest → List (Resumption HttpRequest)
requests = map (λ r. resumes (value r))

start_loop-requests :
    (rs : List HttpRequest) (later : List (Resumption HttpRequest))
    → start_loop (requests rs ++ later) ≡ start_loop later
unfolding start_loop
start_loop-requests [] later = refl
start_loop-requests (r ∷ rs) later = start_loop-requests rs later

-- After any number of requests, `start` goes on: it waits for the next one, still connected. The
-- first error ends it, is what it returns, and marks the connection as closed. An exception ends it
-- too, but leaves the connection marked as open.
start-requests :
    (c : ServerConnection) (rs : List HttpRequest) (e : ErrorCode) (f : FutureError)
    (later : List (Resumption HttpRequest))
    → (start c (requests rs) ≡ (record c { is_connected = true }, hangs))
      × (start c (requests rs ++ (resumes (unexpected e) ∷ later))
          ≡ (record c { is_connected = false }, returns_error e))
      × (start c (requests rs ++ (raises f ∷ later)) ≡ (record c { is_connected = true }, throws))
unfolding start
start-requests c rs e f later = (
  ap after (ap start_loop (sym (append-nil (requests rs))) ∙ start_loop-requests rs []),
  ap after (start_loop-requests rs (resumes (unexpected e) ∷ later)),
  ap after (start_loop-requests rs (raises f ∷ later)),
)
  where
    after : Bool × Body Void → ServerConnection × Body Void
    after r = (record c { is_connected = r.0 }, r.1)

-- `start` never returns by success: its body is that of an operation without a value.
start-IsVoid :
    (c : ServerConnection) (awaited : List (Resumption HttpRequest)) → IsVoid (start c awaited).1
unfolding start
start-IsVoid c [] = tt
start-IsVoid c (resumes (value r) ∷ later) = start-IsVoid c later
start-IsVoid c (resumes (unexpected e) ∷ later) = tt
start-IsVoid c (raises f ∷ later) = tt
start-IsVoid c (blocks ∷ later) = tt
