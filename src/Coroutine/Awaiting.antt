-- ===== src/Coroutine/Awaiting.antt =====
-- Coroutines that await one another (shared/include/coroutine.h), with the promises of all of them,
-- as steps of several threads. A task of the pool may run at any time once it has been enqueued. A
-- step is there only where its effect is defined; no body of the sources catches an exception.
use pine_http.Prelude.{put, ℕ, ◌≡◌, ◌≢◌, ◌⊎◌, Bool, true, false}
use pine_http.Errors.{Expected}
use pine_http.Coroutine.{
  Operation, FutureError, done, fault, fresh, cancel, get_future, await_ready, await_resume, Body,
  throws, hangs, complete, resumes, raises,
}

-- Where a coroutine stands: it has not been called, its body runs, it is suspended at the `co_await`
-- of an operation, it comes to the `await_resume` of that operation, its body has ended, or its frame
-- is destroyed.
pub data Place : Type 0 where
  absent at_work over gone : Place
  waits resuming : ℕ → Place

-- The operations, the places of their coroutines, and which of these have come to a `co_await`.
pub record Coroutines (A : Type 0) : Type 0 where
  pub op : ℕ → Operation A
  pub place : ℕ → Place
  pub awaited : ℕ → Bool

abbrev pub set_op : {A : Type 0} → Coroutines A → ℕ → Operation A → Coroutines A
set_op s t o = record s { op = put s.op t o }

abbrev pub set_place : {A : Type 0} → Coroutines A → ℕ → Place → Bool → Coroutines A
set_place s t p a = record s { place = put s.place t p; awaited = put s.awaited t a }

-- The frame of an operation is there, with its promise.
abbrev pub IsAlive : {A : Type 0} → Coroutines A → ℕ → Type 0
IsAlive s t = (s.place t ≢ absent) × (s.place t ≢ gone)

pub data Event {A : Type 0} (s : Coroutines A) : Coroutines A → Type 0 where
  calls : (t : ℕ) → s.place t ≡ absent → Event s (set_op (set_place s t at_work false) t fresh)
  cancels : (t : ℕ) → s.place t ≢ absent → Event s (set_op s t (cancel (s.op t)))
  -- The body ends, by `co_return` or by an exception.
  ends :
      (t : ℕ) (b : Body A) (o : Operation A)
      → s.place t ≡ at_work
      → b ≢ hangs
      → complete (s.op t) b ≡ done o
      → Event s (set_op (set_place s t over (s.awaited t)) t o)
  -- `co_await` of `u` in `t`: the operation is ready.
  finds_ready :
      (t u : ℕ) (o : Operation A)
      → s.place t ≡ at_work
      → IsAlive s u
      → await_ready (s.op u) ≡ done (true, o)
      → Event s (set_place (set_op s u o) t (resuming u) true)
  -- It is not, and `await_suspend` enqueues the task that resumes `t`.
  suspends :
      (t u : ℕ) (o : Operation A)
      → s.place t ≡ at_work
      → IsAlive s u
      → await_ready (s.op u) ≡ done (false, o)
      → Event s (set_place (set_op s u o) t (waits u) true)
  -- `await_ready` throws, and the exception ends `t`.
  throws_at_ready :
      (t u : ℕ) (e : FutureError) (o : Operation A)
      → s.place t ≡ at_work
      → IsAlive s u
      → await_ready (s.op u) ≡ fault e
      → complete (s.op t) throws ≡ done o
      → Event s (set_op (set_place s t over true) t o)
  -- The task of `await_suspend` resumes `t`, unless the operation has been cancelled.
  continues :
      (t u : ℕ)
      → s.place t ≡ waits u
      → IsAlive s u
      → (s.op u).cancelled ≡ false
      → Event s (set_place s t (resuming u) (s.awaited t))
  -- So does the task of the constructor of `t` itself, unless `t` has been cancelled.
  continues_early :
      (t u : ℕ)
      → s.place t ≡ waits u
      → (s.op t).cancelled ≡ false
      → Event s (set_place s t (resuming u) (s.awaited t))
  -- `await_resume` gives a result, and the body goes on.
  goes_on :
      (t u : ℕ) (r : Expected A) (o : Operation A)
      → s.place t ≡ resuming u
      → IsAlive s u
      → get_future (s.op u) ≡ done o
      → await_resume (s.op u) ≡ resumes r
      → Event s (set_place (set_op s u o) t at_work (s.awaited t))
  -- It throws, and the exception ends `t`.
  throws_at_resume :
      (t u : ℕ) (e : FutureError) (o : Operation A)
      → s.place t ≡ resuming u
      → IsAlive s u
      → await_resume (s.op u) ≡ raises e
      → complete (s.op t) throws ≡ done o
      → Event s (set_op (set_place s t over (s.awaited t)) t o)
  -- One outside of the coroutines takes the future, as `accept_clients` does.
  takes_future :
      (t : ℕ) (o : Operation A)
      → IsAlive s t
      → get_future (s.op t) ≡ done o
      → Event s (set_op s t o)
  -- The task of the constructor, or the destructor, destroys the frame.
  destroys :
      (t : ℕ)
      → (s.place t ≡ over) ⊎ ((u : ℕ) × (s.place t ≡ waits u))
      → Event s (set_place s t gone (s.awaited t))

-- What defined steps reach, from where no coroutine has been called.
pub data History {A : Type 0} : Coroutines A → Type 0 where
  begin : History record { op = λ t. fresh; place = λ t. absent; awaited = λ t. false }
  later : {s u : Coroutines A} → History s → Event s u → History u
