-- ===== src/Tests/Pool.antt =====
-- Runs of the thread pool, and of an operation on it.
use pine_http.Prelude.{
  put, none, some, true, ℕ, zero, suc, inl, ◌≡◌, ◌≤◌, ◌<◌, ◌*◌, ◌+◌, refl, [], ◌∷◌, ◌++◌, arith,
  false, length,
}
use pine_http.Coroutine.Frames.{Frame, running, suspended, destroyed, Handle, destructor, destroy}
use pine_http.Coroutine.Pooled
use pine_http.Coroutine.Pooled.{
  Operations, Run, calls, awaits, quietly, ends, skips, destroys, skips_awaiter, finishes, returns,
  resumes_own, destroys_own, resumes_awaiting,
}
use pine_http.Coroutine.Dropped.{Run-AtRest}
use pine_http.ThreadPool.{
  ThreadPool, exited, start_pool, enqueue, turn, finish, stop_pool, notify_all,
}
use pine_http.ThreadPool.Steps.{Reach, begin, later, turns, enqueue_quiet}
use pine_http.ThreadPool.Order.{Reach-enqueued}
use pine_http.ThreadPool.Wakeups.{Inv, Reach-Inv}
use pine_http.ThreadPool.Queue.{QueueTrace, events, Reach-QueueTrace}
use pine_http.ThreadPool.Shutdown.{notify_all-exited}
use pine_http.ThreadPool.Drain.{
  Works, rests, takes_turn, ends_task, AtRest, AtRest-enqueued, Works-enqueued,
}

-- One worker: a task is enqueued, taken, and the pool is stopped.
abbrev waiting : ThreadPool
waiting = enqueue 7 start_pool

Reach-waiting : Reach 1 waiting
Reach-waiting = later begin (enqueue_quiet 7 (λ i lt e. cc))

Reach-taken : Reach 1 (turn 0 waiting)
unfolding enqueue
Reach-taken = later Reach-waiting (turns 0 (omega arith) refl)

taken : ((turn 0 waiting).started ≡ 7 ∷ []) × ((turn 0 waiting).tasks ≡ [])
unfolding turn enqueue
taken = (refl, refl)

Reach-enqueued_example :
    (turn 0 waiting).enqueued ≡ (turn 0 waiting).started ++ (turn 0 waiting).tasks
Reach-enqueued_example = Reach-enqueued Reach-taken

Reach-Inv_example : Inv 1 (turn 0 waiting)
Reach-Inv_example = Reach-Inv (omega arith) Reach-taken

Reach-QueueTrace_example : QueueTrace (events Reach-taken) (turn 0 waiting).tasks
Reach-QueueTrace_example = Reach-QueueTrace Reach-taken

-- The worker takes the task, ends it, and goes to sleep.
abbrev ended : ThreadPool
ended = finish 0 (turn 0 waiting)

Works-rested : Works 1 waiting 3 (turn 0 ended)
unfolding enqueue turn finish
Works-rested =
    takes_turn (ends_task (takes_turn rests 0 (omega arith) refl) 0 7 (omega arith) refl) 0
      (omega arith) refl

AtRest-rested : AtRest 1 (turn 0 ended)
unfolding enqueue turn finish
AtRest-rested zero lt = inl refl
AtRest-rested (suc i) lt = absurd (omega arith)

going : waiting.stop ≡ false
unfolding enqueue
going = refl

AtRest-enqueued_example : ((turn 0 ended).started ≡ waiting.enqueued) × ((turn 0 ended).tasks ≡ [])
AtRest-enqueued_example =
    AtRest-enqueued (omega arith) Reach-waiting going Works-rested AtRest-rested

Works-enqueued_example :
    (k : ℕ) × (q : ThreadPool) × Works 1 waiting k q
    × AtRest 1 q
    × (k ≤ 3 * length waiting.tasks + 2 * 1)
    × (q.started ≡ waiting.enqueued)
Works-enqueued_example = Works-enqueued (omega arith) Reach-waiting going

-- The pool is destroyed; the worker takes the task between `stop_pool` and `notify_all`.
abbrev joining : ThreadPool
joining = notify_all (turn 0 (stop_pool waiting))

Works-joining : Works 1 (stop_pool waiting) 1 (turn 0 (stop_pool waiting))
unfolding enqueue stop_pool
Works-joining = takes_turn rests 0 (omega arith) refl

notify_all-exited_example :
    ((k : ℕ) × (q : ThreadPool) × Works 1 joining k q
      × AtRest 1 q
      × (k ≤ 3 * length (turn 0 (stop_pool waiting)).tasks + 2 * 1))
    × ((k : ℕ) (q : ThreadPool)
        → Works 1 joining k q
        → AtRest 1 q
        → ((i : ℕ) → i < 1 → q.workers i ≡ exited)
          × (q.started ≡ waiting.enqueued)
          × (q.tasks ≡ []))
notify_all-exited_example = notify_all-exited (omega arith) Reach-waiting going Works-joining

-- The operation 1 is called, and its body waits; the operation 2 is called, and awaits it. The worker
-- runs the task of 1's constructor, which finds it cancelled and destroys it once it has ended, then
-- that of 2's constructor, which finds it cancelled, then the task of `await_suspend`, which finds 1
-- cancelled, and goes to sleep.
abbrev both_called : Operations
both_called = record {
  pool = enqueue 12 (enqueue 11 (enqueue 10 start_pool));
  job =
      put (put (put (λ task. none) 10 (some (resumes_own 1))) 11 (some (resumes_own 2))) 12
        (some (resumes_awaiting 2 1));
  frame =
      put (put (put (put (λ t. none) 1 (some running)) 2 (some running)) 2 (some suspended)) 1
        (some Frame.ended);
  has_run = λ t. false;
  dropped = λ t. false;
}

Run-both_called : Run 1 both_called
unfolding enqueue
Run-both_called =
    Pooled.later
      (Pooled.later
        (Pooled.later (Pooled.later Pooled.begin (calls 1 10 _ refl refl (quietly (λ i lt e. cc))))
          (calls 2 11 _ refl refl (quietly (λ i lt e. cc))))
        (awaits 2 1 12 running _ refl refl (λ e. cc) refl (quietly (λ i lt e. cc))))
      (ends 1 refl)

abbrev first_run : Operations
first_run = record both_called {
  pool = finish 0 (turn 0 both_called.pool);
  job = put (put both_called.job 10 (some (destroys_own 1))) 10 (some returns);
  frame = put both_called.frame 1 (some destroyed);
  has_run = put both_called.has_run 1 true;
}

abbrev second_run : Operations
second_run = record first_run {
  pool = finish 0 (turn 0 first_run.pool);
  job = put (put first_run.job 11 (some (destroys_own 2))) 11 (some returns);
  frame = put first_run.frame 2 (some destroyed);
  has_run = put first_run.has_run 2 true;
}

abbrev all_run : Operations
all_run = record second_run {
  pool = turn 0 (finish 0 (turn 0 second_run.pool));
  job = put second_run.job 12 (some returns);
}

Run-first_run : Run 1 first_run
unfolding enqueue turn finish destroy
Run-first_run =
    Pooled.later
      (Pooled.later
        (Pooled.later (Pooled.later Run-both_called (Pooled.takes 0 (omega arith) refl))
          (skips 0 10 1 (omega arith) refl refl))
        (destroys 0 10 1 Frame.ended destroyed (omega arith) refl refl refl refl))
      (finishes 0 10 (omega arith) refl refl)

Run-second_run : Run 1 second_run
unfolding enqueue turn finish destroy
Run-second_run =
    Pooled.later
      (Pooled.later
        (Pooled.later (Pooled.later Run-first_run (Pooled.takes 0 (omega arith) refl))
          (skips 0 11 2 (omega arith) refl refl))
        (destroys 0 11 2 suspended destroyed (omega arith) refl refl refl refl))
      (finishes 0 11 (omega arith) refl refl)

Run-all_run : Run 1 all_run
unfolding enqueue turn finish
Run-all_run =
    Pooled.later
      (Pooled.later
        (Pooled.later (Pooled.later Run-second_run (Pooled.takes 0 (omega arith) refl))
          (skips_awaiter 0 12 2 1 (omega arith) refl refl))
        (finishes 0 12 (omega arith) refl refl))
      (Pooled.takes 0 (omega arith) refl)

still_running : all_run.pool.stop ≡ false
unfolding enqueue turn finish
still_running = refl

AtRest-all_run : AtRest 1 all_run.pool
unfolding enqueue turn finish
AtRest-all_run zero lt = inl refl
AtRest-all_run (suc i) lt = absurd (omega arith)

Run-AtRest_example :
    (all_run.has_run 2 ≡ true)
    × (destroyed ≡ destroyed)
    × (all_run.dropped 2 ≡ false)
    × ((h : Handle) → h.has_coroutine ≡ true → destructor h destroyed ≡ none)
Run-AtRest_example =
    Run-AtRest 2 destroyed (omega arith) Run-all_run still_running AtRest-all_run refl
