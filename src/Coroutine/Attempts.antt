-- ===== src/Coroutine/Attempts.antt =====
-- What the calls of an operation leave of its promise and its flag.
use pine_http.Prelude.{◌≡◌, Bool, true, none, arith}
use pine_http.Coroutine.{
  Operation, done, get_future, await_ready, Body, returns_expected, returns_value, returns_error,
  throws, hangs, complete, unhandled_exception, set_value, return_expected, return_value,
  return_error,
}
use pine_http.Coroutine.Updates.{IsTold}

module _ {A : Type 0} (op o : Operation A) where
  pub get_future-taken :
      get_future op ≡ done o → (o.promise.retrieved ≡ true) × (o.promise.result ≡ op.promise.result)
  unfolding get_future
  get_future-taken h = ground arith

  pub await_ready-taken :
      (ready : Bool)
      → await_ready op ≡ done (ready, o)
      → (o.promise.retrieved ≡ true) × (o.promise.result ≡ op.promise.result)
  unfolding await_ready get_future
  await_ready-taken ready h = ground arith

  pub complete-retrieved :
      (b : Body A) → complete op b ≡ done o → o.promise.retrieved ≡ op.promise.retrieved
  unfolding complete return_expected return_value return_error unhandled_exception set_value
  complete-retrieved (returns_expected r) h = ground arith
  complete-retrieved (returns_value a) h = ground arith
  complete-retrieved (returns_error e) h = ground arith
  complete-retrieved throws h = ground arith
  complete-retrieved hangs h = ground arith

  pub complete-throws :
      op.promise.result ≡ none → complete op throws ≡ done o → IsTold o.promise.result
  unfolding complete unhandled_exception set_value
  complete-throws clear h = ground arith

  pub get_future-cancelled : get_future op ≡ done o → o.cancelled ≡ op.cancelled
  unfolding get_future
  get_future-cancelled h = ground arith

  pub await_ready-cancelled :
      (ready : Bool) → await_ready op ≡ done (ready, o) → o.cancelled ≡ op.cancelled
  unfolding await_ready get_future
  await_ready-cancelled ready h = ground arith

  pub complete-cancelled : (b : Body A) → complete op b ≡ done o → o.cancelled ≡ op.cancelled
  unfolding complete return_expected return_value return_error unhandled_exception set_value
  complete-cancelled (returns_expected r) h = ground arith
  complete-cancelled (returns_value a) h = ground arith
  complete-cancelled (returns_error e) h = ground arith
  complete-cancelled throws h = ground arith
  complete-cancelled hangs h = ground arith
