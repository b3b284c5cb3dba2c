-- ===== src/Coroutine.antt =====
-- shared/include/coroutine.h: `async_operation<T, E>` and `async_operation<void, E>`. A coroutine
-- starts at its call (`initial_suspend` never suspends), so an operation is here the state that its
-- promise has when it is looked at. `blocks` stands for a call that waits for what does not come.
pub mod Await
pub mod Frames
pub mod Pending
pub mod Pooled
pub mod Owned
pub mod Dropped
pub mod Awaiting
pub mod Updates
pub mod Attempts
pub mod Told
pub mod Effects
pub mod Cancelled
use pine_http.Prelude.{ℕ, Bool, true, false, Option, none, some, if◌then◌else◌}
use pine_http.Errors.{ErrorCode, Expected, value, unexpected, make_errc, operation_canceled}

-- std::future_errc
pub data FutureError : Type 0 where
  future_already_retrieved promise_already_satisfied : FutureError

-- `std::promise<std::expected<T, E>>`: the result, once it is set, and whether its one future has
-- been taken.
pub record Promise (A : Type 0) : Type 0 where
  pub result : Option (Expected A)
  pub retrieved : Bool

-- `async_operation`: the promise of its coroutine, and the flag that the two share.
pub record Operation (A : Type 0) : Type 0 where
  pub promise : Promise A
  pub cancelled : Bool

-- A call that may throw std::future_error.
pub data Attempt (A : Type 0) : Type 0 where
  done : A → Attempt A
  fault : FutureError → Attempt A

-- What an `async_operation` is when its coroutine is called.
abbrev pub fresh : {A : Type 0} → Operation A
fresh = record { promise = record { result = none; retrieved = false }; cancelled = false }

-- `promise.set_value(result)`
unfoldable pub set_value : {A : Type 0} → Promise A → Expected A → Attempt (Promise A)
set_value p r = elim p.result [
  | none ↦ done (record p { result = some r })
  | some old ↦ fault promise_already_satisfied
]

abbrev set_unless_cancelled : {A : Type 0} → Operation A → Expected A → Attempt (Operation A)
set_unless_cancelled op r = if op.cancelled then done op else elim (set_value op.promise r) [
  | done p ↦ done (record op { promise = p })
  | fault e ↦ fault e
]

-- `promise_type::return_value(std::expected<T, E>)`
unfoldable pub return_expected : {A : Type 0} → Operation A → Expected A → Attempt (Operation A)
unfolding set_value
return_expected op r = set_unless_cancelled op r

-- `promise_type::return_value(T)`
unfoldable pub return_value : {A : Type 0} → Operation A → A → Attempt (Operation A)
unfolding set_value
return_value op a = set_unless_cancelled op (value a)

-- `promise_type::return_value(E)`, the only one of the operations without a value.
unfoldable pub return_error : {A : Type 0} → Operation A → ErrorCode → Attempt (Operation A)
unfolding set_value
return_error op e = set_unless_cancelled op (unexpected e)

-- `promise_type::unhandled_exception()`
unfoldable pub unhandled_exception : {A : Type 0} → Operation A → Attempt (Operation A)
unfolding set_value
unhandled_exception op = elim (set_value op.promise (unexpected (make_errc operation_canceled))) [
  | done p ↦ done (record op { promise = p })
  | fault e ↦ fault e
]

-- `cancel()`
unfoldable pub cancel : {A : Type 0} → Operation A → Operation A
cancel op = record op { cancelled = true }

-- `get_future()`: a promise gives its future once.
unfoldable pub get_future : {A : Type 0} → Operation A → Attempt (Operation A)
get_future op =
    if op.promise.retrieved
    then fault future_already_retrieved
    else done (record op { promise = record { result = op.promise.result; retrieved = true } })

-- `await_ready()`, with the operation as it is afterwards.
unfoldable pub await_ready : {A : Type 0} → Operation A → Attempt (Bool × Operation A)
unfolding get_future
await_ready op = elim (get_future op) [
  | fault e ↦ fault e
  | done op' ↦ elim op'.promise.result [ none ↦ done (false, op') | some r ↦ done (true, op') ]
]

-- How a wait for an operation ends.
pub data Resumption (A : Type 0) : Type 0 where
  resumes : Expected A → Resumption A
  raises : FutureError → Resumption A
  blocks : Resumption A

-- `await_resume()`: `get` of a future waits for the result.
unfoldable pub await_resume : {A : Type 0} → Operation A → Resumption A
unfolding get_future
await_resume op = elim (get_future op) [
  | fault e ↦ raises e
  | done op' ↦ elim op'.promise.result [ none ↦ blocks | some r ↦ resumes r ]
]

-- `await_suspend(h)`: a task of the pool resumes the awaiting coroutine, unless the operation has
-- been cancelled. `outcome` is the result that the promise has by then.
unfoldable pub await_suspend : {A : Type 0} → Operation A → Option (Expected A) → Resumption A
unfolding await_resume
await_suspend op outcome =
    if op.cancelled
    then blocks
    else await_resume
        (record op { promise = record { result = outcome; retrieved = op.promise.retrieved } })

-- `co_await op`
unfoldable pub co_await : {A : Type 0} → Operation A → Option (Expected A) → Resumption A
unfolding await_ready await_resume await_suspend
co_await op outcome = elim (await_ready op) [
  | fault e ↦ raises e
  | done (ready, op') ↦ if ready then await_resume op' else await_suspend op' outcome
]

-- How the body of a coroutine ends: by one of the three kinds of `co_return`, by an exception, or
-- not at all.
pub data Body (A : Type 0) : Type 0 where
  returns_expected : Expected A → Body A
  returns_value : A → Body A
  returns_error : ErrorCode → Body A
  throws : Body A
  hangs : Body A

-- The operation after its body has run.
unfoldable pub complete : {A : Type 0} → Operation A → Body A → Attempt (Operation A)
unfolding return_expected return_value return_error unhandled_exception
complete op (returns_expected r) = return_expected op r
complete op (returns_value a) = return_value op a
complete op (returns_error e) = return_error op e
complete op throws = unhandled_exception op
complete op hangs = done op

-- `const auto& x = co_await op;`, then the rest of the body.
unfoldable pub then_body : {A B : Type 0} → Resumption A → (Expected A → Body B) → Body B
then_body (resumes r) f = f r
then_body (raises e) f = throws
then_body blocks f = hangs

-- The result type of an operation without a value.
abbrev pub Void : Type 0
Void = Unit {0}

-- The operation that a call of a coroutine gives, once its body has run as far as it can, in the runs
-- in which no thread of the pool has come to the task of its constructor by then. Coroutine/Awaiting
-- and Coroutine/Pooled have that task.
unfoldable pub call : {A : Type 0} → Body A → Operation A
unfolding complete
call b = elim (complete fresh b) [ done op ↦ op | fault e ↦ fresh ]

-- `co_await` of a call of a coroutine. The call runs the body on the caller's thread: where the body
-- waits for ever, so does the caller; otherwise the body has ended by the time of `await_ready`.
unfoldable pub await_call : {A : Type 0} → Body A → Resumption A
unfolding call co_await
await_call b = elim b [ hangs ↦ blocks | ended ↦ co_await (call ended) none ]
