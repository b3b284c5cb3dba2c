-- ===== src/ThreadPool.antt =====
-- shared/include/thread_pool.h and shared/src/thread_pool.cpp: worker threads that take tasks from a
-- queue. Every section under `queue_mutex` is one step; the steps of the threads interleave in any
-- order. Tasks are numbers; what a task does is not modelled.
pub mod Steps
pub mod Order
pub mod Queue
pub mod Wakeups
pub mod Drain
pub mod Shutdown
use pine_http.Prelude.{
  ℕ, zero, suc, ◌<◌, Bool, true, false, not, ◌&&◌, ◌||◌, List, [], ◌∷◌, ◌++◌, ◌==◌, if◌then◌else◌,
}

-- Where a worker stands: before its wait, asleep in it, in a task, or returned.
pub data Worker : Type 0 where
  awake asleep exited : Worker
  busy : ℕ → Worker

-- `class thread_pool`, with two records of its history: the tasks that were enqueued, and those that
-- a worker has taken. `notified` tells that the destructor has called `notify_all`.
pub record ThreadPool : Type 0 where
  pub workers : ℕ → Worker
  pub tasks : List ℕ
  pub stop : Bool
  pub notified : Bool
  pub enqueued : List ℕ
  pub started : List ℕ

-- `start_pool(num_threads)`: each of the threads enters its loop. (Beyond their number there is no
-- thread.)
abbrev pub start_pool : ThreadPool
start_pool = record {
  workers = λ _. awake;
  tasks = [];
  stop = false;
  notified = false;
  enqueued = [];
  started = [];
}

abbrev pub update : (ℕ → Worker) → ℕ → Worker → ℕ → Worker
update workers i w j = if i == j then w else workers j

-- `tasks.empty()`
abbrev pub is_empty : List ℕ → Bool
is_empty [] = true
is_empty (t ∷ ts) = false

-- `enqueue(task)`, without its notification.
unfoldable pub enqueue : ℕ → ThreadPool → ThreadPool
enqueue task p = record p { tasks = p.tasks ++ (task ∷ []); enqueued = p.enqueued ++ (task ∷ []) }

-- `notify_one()`, where worker `i` is one that waits.
unfoldable pub wake : ℕ → ThreadPool → ThreadPool
wake i p = record p { workers = update p.workers i awake }

-- `stop_pool()`
unfoldable pub stop_pool : ThreadPool → ThreadPool
stop_pool p = record p { stop = true }

abbrev wakened : Worker → Worker
wakened asleep = awake
wakened awake = awake
wakened exited = exited
wakened (busy t) = busy t

-- `condition.notify_all()` of the destructor.
unfoldable pub notify_all : ThreadPool → ThreadPool
notify_all p = record p { workers = λ i. wakened (p.workers i); notified = true }

-- `this->tasks.front()` and `this->tasks.pop()`, by worker `i`.
unfoldable pub take_front : ℕ → List ℕ → ThreadPool → ThreadPool
take_front i [] p = p
take_front i (t ∷ rest) p = record p {
  workers = update p.workers i (busy t);
  tasks = rest;
  started = p.started ++ (t ∷ []);
}

-- The section of worker `i` under the lock, where it finds these values of `stop` and `tasks`: the
-- predicate of the wait, the test for the return, and the task that it takes.
unfoldable pub turn_at : Bool → List ℕ → ℕ → ThreadPool → ThreadPool
unfolding take_front
turn_at stop tasks i p =
    if stop || not (is_empty tasks)
    then (if stop && is_empty tasks
        then record p { workers = update p.workers i exited }
        else take_front i tasks p)
    else record p { workers = update p.workers i asleep }

unfoldable pub turn : ℕ → ThreadPool → ThreadPool
unfolding turn_at
turn i p = turn_at p.stop p.tasks i p

-- The end of `task()`: worker `i` goes back to the head of its loop.
unfoldable pub finish : ℕ → ThreadPool → ThreadPool
finish i p = record p { workers = update p.workers i awake }
