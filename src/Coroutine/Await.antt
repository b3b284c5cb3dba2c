-- ===== src/Coroutine/Await.antt =====
-- What an operation gives to those that wait for it.
use pine_http.Prelude.{◌≢◌, ap, true, ◌≡◌, refl, ◌⊎◌, Option, none, some, arith}
use pine_http.Errors.{ErrorCode, Expected, value, unexpected, make_errc, operation_canceled}
use pine_http.Coroutine.{
  future_already_retrieved, Operation, done, fresh, resumes, raises, blocks, await_resume, co_await,
  await_call, call, then_body, Body, returns_expected, returns_value, returns_error, throws, hangs,
  complete, cancel,
}

-- `co_await` never yields the result of an operation: `await_ready` has taken the future of its
-- promise, so `await_resume` throws, or the awaiting coroutine is not resumed, because the operation
-- was cancelled before its result was there.
co_await-fault :
    {A : Type 0} (op : Operation A) (outcome : Option (Expected A))
    → (co_await op outcome ≡ raises future_already_retrieved)
      ⊎ ((co_await op outcome ≡ blocks) × (op.cancelled ≡ true) × (op.promise.result ≡ none))
unfolding co_await
co_await-fault op outcome = ground arith

-- What the promise of a fresh operation holds when its body has run.
abbrev pub given : {A : Type 0} → Body A → Option (Expected A)
given (returns_expected r) = some r
given (returns_value a) = some (value a)
given (returns_error e) = some (unexpected e)
given throws = some (unexpected (make_errc operation_canceled))
given hangs = none

-- A body that runs under an operation that is not cancelled sets the result once: what it returns,
-- or the error operation_canceled after an exception; and the first `await_resume` gives it.
await_resume-complete :
    {A : Type 0} (b : Body A)
    → (op : Operation A) × (complete fresh b ≡ done op)
      × (op.promise.result ≡ given b)
      × (await_resume op ≡ elim (given b) [ none ↦ blocks | some r ↦ resumes r ])
unfolding complete await_resume
await_resume-complete (returns_expected r) = (_, refl, refl, refl)
await_resume-complete (returns_value a) = (_, refl, refl, refl)
await_resume-complete (returns_error e) = (_, refl, refl, refl)
await_resume-complete throws = (_, refl, refl, refl)
await_resume-complete hangs = (_, refl, refl, refl)

abbrev given_cancelled : {A : Type 0} → Body A → Option (Expected A)
given_cancelled throws = some (unexpected (make_errc operation_canceled))
given_cancelled _ = none

-- A body that runs under a cancelled operation sets no result, unless an exception ends it; so one
-- who waits for the operation waits for ever, or is told that it was cancelled.
await_resume-cancel :
    {A : Type 0} (b : Body A)
    → (op : Operation A) × (complete (cancel fresh) b ≡ done op)
      × (op.promise.result ≡ given_cancelled b)
      × (await_resume op ≡ elim (given_cancelled b) [ none ↦ blocks | some r ↦ resumes r ])
unfolding complete await_resume cancel
await_resume-cancel (returns_expected r) = (_, refl, refl, refl)
await_resume-cancel (returns_value a) = (_, refl, refl, refl)
await_resume-cancel (returns_error e) = (_, refl, refl, refl)
await_resume-cancel throws = (_, refl, refl, refl)
await_resume-cancel hangs = (_, refl, refl, refl)

-- The bodies that an operation without a value can have: `co_return` takes an error there.
abbrev pub IsVoid : {A : Type 0} → Body A → Type 0
IsVoid (returns_expected r) = ⊥
IsVoid (returns_value a) = ⊥
IsVoid _ = Unit

-- An operation without a value never reports success: whatever `co_return` its body ends with, the
-- result that `await_resume` gives holds an error code, be it the code of success.
await_resume-IsVoid :
    {A : Type 0} (b : Body A) (op : Operation A) (r : Expected A)
    → IsVoid b
    → complete fresh b ≡ done op
    → await_resume op ≡ resumes r
    → (e : ErrorCode) × (r ≡ unexpected e)
unfolding complete await_resume
await_resume-IsVoid (returns_expected r) op s v c h = absurd v
await_resume-IsVoid (returns_value a) op s v c h = absurd v
await_resume-IsVoid (returns_error e) op s v c h = (e, ground arith)
await_resume-IsVoid throws op s v c h = (make_errc operation_canceled, ground arith)
await_resume-IsVoid hangs op s v c h = absurd (ground arith)

-- `co_await` of a call that ends throws.
pub await_call-raises :
    {A : Type 0} (b : Body A) → b ≢ hangs → await_call b ≡ raises future_already_retrieved
unfolding await_call call co_await
await_call-raises (returns_expected r) ends = refl
await_call-raises (returns_value a) ends = refl
await_call-raises (returns_error e) ends = refl
await_call-raises throws ends = refl
await_call-raises hangs ends = absurd (ends refl)

-- So a coroutine that begins with a `co_await` is ended by an exception, or waits for ever.
pub then_body-await_call :
    {A B : Type 0} (b : Body A) (rest : Expected A → Body B)
    → (b ≢ hangs → then_body (await_call b) rest ≡ throws)
      × (b ≡ hangs → then_body (await_call b) rest ≡ hangs)
unfolding await_call then_body
then_body-await_call b rest = (
  λ ends. ap (λ r. then_body r rest) (await_call-raises b ends),
  λ waits. ap (λ c. then_body (await_call c) rest) waits,
)
