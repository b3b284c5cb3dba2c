-- ===== src/Coroutine/Pooled.antt =====
-- Operations on the thread pool (shared/include/coroutine.h, shared/src/thread_pool.cpp): calls of
-- coroutines, their suspensions at a `co_await`, the tasks of both kinds that the pool runs, and
-- handles that are destroyed, as steps of several threads. A coroutine that is resumed runs on while
-- other steps happen; the flags of cancellation are left open. The tasks of the pool are numbers; `job` tells what each has still to do. What
-- an exception or a result leaves in the promises is that of Coroutine/Awaiting.
use pine_http.Prelude.{put, ℕ, ◌<◌, ◌≡◌, ◌≢◌, Bool, true, false, Option, none, some}
use pine_http.ThreadPool.{
  ThreadPool, awake, asleep, busy, start_pool, enqueue, wake, stop_pool, notify_all, turn, finish,
}
use pine_http.ThreadPool.Steps
use pine_http.ThreadPool.Steps.{turn_cases}
use pine_http.Coroutine.Frames.{
  Frame, running, suspended, ended, destroyed, Handle, resume, destroy, destructor,
}

-- What a task has still to do: to resume the operation of its constructor and then destroy it, to
-- destroy it, to resume the first operation, which awaits the second, or only to return.
pub data Job : Type 0 where
  resumes_own destroys_own : ℕ → Job
  resumes_awaiting : ℕ → ℕ → Job
  returns : Job

-- The pool, with what its tasks have to do; the frame of each operation, once it has been called; and
-- of which operations the task of the constructor has destroyed the frame, and the handle has been
-- destroyed.
pub record Operations : Type 0 where
  pub pool : ThreadPool
  pub job : ℕ → Option Job
  pub frame : ℕ → Option Frame
  pub has_run : ℕ → Bool
  pub dropped : ℕ → Bool

-- A new task has this to do.
abbrev pub set_job : Operations → ℕ → Job → ℕ → Option Job
set_job s task j = put s.job task (some j)

abbrev pub set_frame : Operations → ℕ → Frame → ℕ → Option Frame
set_frame s t f = put s.frame t (some f)

-- A task is enqueued: no worker waits, or one of those that wait is notified.
pub data Enqueues (n task : ℕ) (p : ThreadPool) : ThreadPool → Type 0 where
  quietly : ((i : ℕ) → i < n → p.workers i ≢ asleep) → Enqueues n task p (enqueue task p)
  waking : (i : ℕ) → i < n → p.workers i ≡ asleep → Enqueues n task p (wake i (enqueue task p))

pub data Act (n : ℕ) (s : Operations) : Operations → Type 0 where
  -- A coroutine is called: its frame is there, and the constructor of its handle enqueues the task.
  calls :
      (t task : ℕ) (p : ThreadPool)
      → s.frame t ≡ none
      → s.job task ≡ none
      → Enqueues n task s.pool p
      → Act n s (record s {
        pool = p;
        job = set_job s task (resumes_own t);
        frame = set_frame s t running;
      })
  -- `t` suspends at the `co_await` of `u`, and `await_suspend` enqueues the task that resumes it.
  awaits :
      (t u task : ℕ) (f : Frame) (p : ThreadPool)
      → s.frame t ≡ some running
      → s.frame u ≡ some f
      → f ≢ destroyed
      → s.job task ≡ none
      → Enqueues n task s.pool p
      → Act n s (record s {
        pool = p;
        job = set_job s task (resumes_awaiting t u);
        frame = set_frame s t suspended;
      })
  -- The body comes to its end.
  ends : (t : ℕ) → s.frame t ≡ some running → Act n s (record s { frame = set_frame s t ended })
  wakes : (i : ℕ) → i < n → s.pool.workers i ≡ asleep → Act n s (record s { pool = wake i s.pool })
  takes : (i : ℕ) → i < n → s.pool.workers i ≡ awake → Act n s (record s { pool = turn i s.pool })
  -- The task of the constructor resumes its coroutine,
  resumes :
      (i task t : ℕ) (f g : Frame)
      → i < n
      → s.pool.workers i ≡ busy task
      → s.job task ≡ some (resumes_own t)
      → s.frame t ≡ some f
      → resume f running ≡ some g
      → Act n s (record s { job = set_job s task (destroys_own t); frame = set_frame s t g })
  -- or finds it cancelled,
  skips :
      (i task t : ℕ)
      → i < n
      → s.pool.workers i ≡ busy task
      → s.job task ≡ some (resumes_own t)
      → Act n s (record s { job = set_job s task (destroys_own t) })
  -- and then destroys it.
  destroys :
      (i task t : ℕ) (f g : Frame)
      → i < n
      → s.pool.workers i ≡ busy task
      → s.job task ≡ some (destroys_own t)
      → s.frame t ≡ some f
      → destroy f ≡ some g
      → Act n s (record s {
        job = set_job s task returns;
        frame = set_frame s t g;
        has_run = put s.has_run t true;
      })
  -- The task of `await_suspend` resumes the coroutine that awaits,
  resumes_awaiter :
      (i task t u : ℕ) (f g : Frame)
      → i < n
      → s.pool.workers i ≡ busy task
      → s.job task ≡ some (resumes_awaiting t u)
      → s.frame t ≡ some f
      → resume f running ≡ some g
      → Act n s (record s { job = set_job s task returns; frame = set_frame s t g })
  -- or finds the awaited operation cancelled.
  skips_awaiter :
      (i task t u : ℕ)
      → i < n
      → s.pool.workers i ≡ busy task
      → s.job task ≡ some (resumes_awaiting t u)
      → Act n s (record s { job = set_job s task returns })
  finishes :
      (i task : ℕ)
      → i < n
      → s.pool.workers i ≡ busy task
      → s.job task ≡ some returns
      → Act n s (record s { pool = finish i s.pool })
  -- A handle that holds its coroutine is destroyed.
  drops :
      (t : ℕ) (h : Handle) (f g : Frame)
      → h.has_coroutine ≡ true
      → s.frame t ≡ some f
      → destructor h f ≡ some g
      → Act n s (record s { frame = set_frame s t g; dropped = put s.dropped t true })
  stops : Act n s (record s { pool = stop_pool s.pool })
  notifies : s.pool.stop ≡ true → Act n s (record s { pool = notify_all s.pool })

-- What these steps reach from the start of the pool.
pub data Run (n : ℕ) : Operations → Type 0 where
  begin : Run n record {
    pool = start_pool;
    job = λ task. none;
    frame = λ t. none;
    has_run = λ t. false;
    dropped = λ t. false;
  }
  later : {s u : Operations} → Run n s → Act n s u → Run n u

Enqueues-Reach :
    {n task : ℕ} {p q : ThreadPool} → Steps.Reach n p → Enqueues n task p q → Steps.Reach n q
Enqueues-Reach {task = task} r (quietly up) = Steps.later r (Steps.enqueue_quiet task up)
Enqueues-Reach {task = task} r (waking i lt e) = Steps.later r (Steps.enqueue_wake task i lt e)

-- The steps of the pool among them.
pub Run-Reach : {n : ℕ} {s : Operations} → Run n s → Steps.Reach n s.pool
Run-Reach begin = Steps.begin
Run-Reach (later r (calls t task p new unused q)) = Enqueues-Reach (Run-Reach r) q
Run-Reach (later r (awaits t u task f p at at_u there unused q)) = Enqueues-Reach (Run-Reach r) q
Run-Reach (later r (ends t at)) = Run-Reach r
Run-Reach (later r (wakes i lt e)) = Steps.later (Run-Reach r) (Steps.spurious i lt e)
Run-Reach (later r (takes i lt e)) = Steps.later (Run-Reach r) (Steps.turns i lt e)
Run-Reach (later r (resumes i task t f g lt e j at d)) = Run-Reach r
Run-Reach (later r (skips i task t lt e j)) = Run-Reach r
Run-Reach (later r (destroys i task t f g lt e j at d)) = Run-Reach r
Run-Reach (later r (resumes_awaiter i task t u f g lt e j at d)) = Run-Reach r
Run-Reach (later r (skips_awaiter i task t u lt e j)) = Run-Reach r
Run-Reach (later r (finishes i task lt e j)) =
    Steps.later (Run-Reach r) (Steps.finishes i task lt e)
Run-Reach (later r (drops t h f g held at d)) = Run-Reach r
Run-Reach (later r stops) = Steps.later (Run-Reach r) Steps.stops
Run-Reach (later r (notifies e)) = Steps.later (Run-Reach r) (Steps.notifies e)
