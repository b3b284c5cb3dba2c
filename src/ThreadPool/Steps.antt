-- ===== src/ThreadPool/Steps.antt =====
-- The steps of a pool of `n` workers, and the states that they lead to.
use pine_http.Prelude.{ℕ, ◌<◌, ◌≡◌, ◌≢◌, refl, Bool, true, false, List, [], ◌∷◌, ◌++◌}
use pine_http.ThreadPool.{
  ThreadPool, awake, asleep, exited, busy, start_pool, update, turn_at, enqueue, wake, stop_pool,
  notify_all, turn, finish,
}

pub data Step (n : ℕ) (p : ThreadPool) : ThreadPool → Type 0 where
  -- `enqueue`, where some worker waits: it is notified.
  enqueue_wake : (task i : ℕ) → i < n → p.workers i ≡ asleep → Step n p (wake i (enqueue task p))
  -- `enqueue`, where no worker waits.
  enqueue_quiet : (task : ℕ) → ((i : ℕ) → i < n → p.workers i ≢ asleep) → Step n p (enqueue task p)
  -- A waiting worker wakes without a notification.
  spurious : (i : ℕ) → i < n → p.workers i ≡ asleep → Step n p (wake i p)
  turns : (i : ℕ) → i < n → p.workers i ≡ awake → Step n p (turn i p)
  finishes : (i task : ℕ) → i < n → p.workers i ≡ busy task → Step n p (finish i p)
  -- The destructor: `stop_pool`, then `notify_all`.
  stops : Step n p (stop_pool p)
  notifies : p.stop ≡ true → Step n p (notify_all p)

pub data Reach (n : ℕ) : ThreadPool → Type 0 where
  begin : Reach n start_pool
  later : {p q : ThreadPool} → Reach n p → Step n p q → Reach n q

-- The three ways in which a turn of a worker can end.
module _ {ℓ} (P : ThreadPool → Type ℓ) (i : ℕ) (p : ThreadPool) where
  abbrev ToSleep : Type ℓ
  ToSleep = p.stop ≡ false → p.tasks ≡ [] → P (record p { workers = update p.workers i asleep })

  abbrev ToExit : Type ℓ
  ToExit = p.stop ≡ true → p.tasks ≡ [] → P (record p { workers = update p.workers i exited })

  abbrev ToTake : Type ℓ
  ToTake =
      (t : ℕ) (rest : List ℕ)
      → p.tasks ≡ t ∷ rest
      → P (record p {
        workers = update p.workers i (busy t);
        tasks = rest;
        started = p.started ++ (t ∷ []);
      })

  turn_at_cases :
      (stop : Bool) (tasks : List ℕ)
      → p.stop ≡ stop
      → p.tasks ≡ tasks
      → ToSleep
      → ToExit
      → ToTake
      → P (turn_at stop tasks i p)
  unfolding turn_at
  turn_at_cases true [] s e sleep exit take = exit s e
  turn_at_cases true (t ∷ rest) s e sleep exit take = take t rest e
  turn_at_cases false [] s e sleep exit take = sleep s e
  turn_at_cases false (t ∷ rest) s e sleep exit take = take t rest e

  pub turn_cases : ToSleep → ToExit → ToTake → P (turn i p)
  unfolding turn
  turn_cases = turn_at_cases p.stop p.tasks refl refl
