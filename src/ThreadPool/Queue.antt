-- ===== src/ThreadPool/Queue.antt =====
-- The pool as a queue: what it promises those who enqueue tasks, and that its steps keep the promise.
use pine_http.Prelude.{ℕ, ==_iff, ◌≡◌, refl, List, [], ◌∷◌, ◌++◌}
use pine_http.ThreadPool.{
  ThreadPool, Worker, awake, asleep, exited, busy, enqueue, wake, stop_pool, notify_all, finish,
  update,
}
use pine_http.ThreadPool.Steps.{
  Step, enqueue_wake, enqueue_quiet, spurious, turns, finishes, stops, notifies, Reach, begin,
  later, turn_cases,
}

-- What can be seen of a step: a task that is enqueued, a task that a worker begins, or neither.
pub data QueueEvent : Type 0 where
  puts takes : ℕ → QueueEvent
  silent : QueueEvent

-- A first-in first-out queue: a task goes to the back, the front one is taken, or nothing changes.
pub data QueueStep (waiting : List ℕ) : QueueEvent → List ℕ → Type 0 where
  put_back : (task : ℕ) → QueueStep waiting (puts task) (waiting ++ (task ∷ []))
  take_front :
      (task : ℕ) (rest : List ℕ) → waiting ≡ task ∷ rest → QueueStep waiting (takes task) rest
  stay : QueueStep waiting silent waiting

-- What a queue, empty at first, is after some events, the last of them at the head of the list.
pub data QueueTrace : List QueueEvent → List ℕ → Type 0 where
  empty : QueueTrace [] []
  further :
      {events : List QueueEvent} {event : QueueEvent} {before after : List ℕ}
      → QueueTrace events before
      → QueueStep before event after
      → QueueTrace (event ∷ events) after

-- A turn of a worker is seen by where the worker stands behind it.
abbrev begun : Worker → QueueEvent
begun (busy task) = takes task
begun awake = silent
begun asleep = silent
begun exited = silent

-- The argument of `enqueue`, and the task with which a worker leaves its section.
abbrev pub event_of : {n : ℕ} {p q : ThreadPool} → Step n p q → QueueEvent
event_of (enqueue_wake task i lt e) = puts task
event_of (enqueue_quiet task up) = puts task
event_of {q = q} (turns i lt e) = begun (q.workers i)
event_of (spurious i lt e) = silent
event_of (finishes i task lt e) = silent
event_of stops = silent
event_of (notifies e) = silent

abbrev pub events : {n : ℕ} {p : ThreadPool} → Reach n p → List QueueEvent
events begin = []
events (later r s) = event_of s ∷ events r

update-same : (workers : ℕ → Worker) (i : ℕ) (w : Worker) → update workers i w i ≡ w
update-same workers i w = rw ((==_iff i i).1 refl) refl

Step-QueueStep :
    {n : ℕ} {p q : ThreadPool} (s : Step n p q) → QueueStep p.tasks (event_of s) q.tasks
unfolding enqueue wake stop_pool notify_all finish
Step-QueueStep (enqueue_wake task i lt e) = put_back task
Step-QueueStep (enqueue_quiet task up) = put_back task
Step-QueueStep (spurious i lt e) = stay
Step-QueueStep {p = p} (turns i lt e) =
    turn_cases (λ q. QueueStep p.tasks (begun (q.workers i)) q.tasks) i p
      (λ running idle. rw (update-same p.workers i asleep) stay)
      (λ stopped idle. rw (update-same p.workers i exited) stay)
      (λ task rest front. rw (update-same p.workers i (busy task)) (take_front task rest front))
Step-QueueStep (finishes i task lt e) = stay
Step-QueueStep stops = stay
Step-QueueStep (notifies e) = stay

-- The pool implements a first-in first-out queue: of every run of its threads, the tasks that are
-- enqueued and those that workers begin, in the order of the run, are events of a queue that is empty
-- at first, where each enqueued task goes to the back and each task begun is the one at the front; and
-- the tasks that wait in the pool are those that such a queue has then.
pub Reach-QueueTrace : {n : ℕ} {p : ThreadPool} (r : Reach n p) → QueueTrace (events r) p.tasks
Reach-QueueTrace begin = empty
Reach-QueueTrace (later r s) = further (Reach-QueueTrace r) (Step-QueueStep s)
