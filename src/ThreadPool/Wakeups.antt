-- ===== src/ThreadPool/Wakeups.antt =====
-- No task waits while every worker sleeps, and how the pool comes to its end.
use pine_http.Prelude.{
  ℕ, ◌<◌, ◌≡◌, ◌≢◌, refl, sym, ap, ◌∙◌, ◌⊎◌, inl, inr, true, false, List, [], ◌∷◌, ◌++◌, append-nil,
  arith, ◌==◌, Bool-cases, ==_iff,
}
use pine_http.ThreadPool.{
  ThreadPool, Worker, awake, asleep, exited, busy, start_pool, enqueue, wake, stop_pool, notify_all,
  turn, finish, update, wakened,
}
use pine_http.ThreadPool.Steps.{
  Step, enqueue_wake, enqueue_quiet, spurious, turns, finishes, stops, notifies, Reach, begin,
  later, turn_cases,
}
use pine_http.ThreadPool.Order.{Reach-enqueued}

-- What holds of the workers and the flags.
pub record Inv (n : ℕ) (p : ThreadPool) : Type 0 where
  -- If all workers sleep, no task waits.
  pub no_lost_wakeup : ((i : ℕ) → i < n → p.workers i ≡ asleep) → p.tasks ≡ []
  -- A worker returns only when the pool is stopped.
  pub exited_stopped : (i : ℕ) → i < n → p.workers i ≡ exited → p.stop ≡ true
  pub notified_stopped : p.notified ≡ true → p.stop ≡ true
  -- After `notify_all` no worker sleeps.
  pub notified_awake : p.notified ≡ true → (i : ℕ) → i < n → p.workers i ≢ asleep

Inv-start : (n : ℕ) → Inv n start_pool
Inv-start n = record {
  no_lost_wakeup = λ all. refl;
  exited_stopped = λ i lt e. cc;
  notified_stopped = λ e. cc;
  notified_awake = λ e i lt s. cc;
}

-- What holds of a worker after an update holds of the new one or of an old one.
update_elim :
    (ws : ℕ → Worker) (i j : ℕ) (w v : Worker)
    → update ws i w j ≡ v
    → ((i ≡ j) × (w ≡ v)) ⊎ (ws j ≡ v)
update_elim ws i j w v e = elim (Bool-cases (i == j)) [
  | inl same ↦ inl ((==_iff i j).0 same, rw same at e)
  | inr other ↦ inr (rw other at e)
]

update_self : (ws : ℕ → Worker) (i : ℕ) (w : Worker) → update ws i w i ≡ w
update_self ws i w = ground arith

module _ {n : ℕ} (p : ThreadPool) (i : ℕ) (inside : i < n) where
  -- A worker goes on to anything but sleep; the lists may change.
  Inv-update :
      (w : Worker) (tasks enqueued started : List ℕ)
      → w ≢ asleep
      → (w ≡ exited → p.stop ≡ true)
      → Inv n p
      → Inv n (record p {
        workers = update p.workers i w;
        tasks = tasks;
        enqueued = enqueued;
        started = started;
      })
  Inv-update w tasks enqueued started up stopped v = record {
    no_lost_wakeup = λ all. absurd (up (sym (update_self p.workers i w) ∙ all i inside));
    exited_stopped = λ j lt e. elim (update_elim p.workers i j w exited e) [
      | inl (_, here) ↦ stopped here
      | inr there ↦ v.exited_stopped j lt there
    ];
    notified_stopped = v.notified_stopped;
    notified_awake = λ e j lt s. elim (update_elim p.workers i j w asleep s) [
      | inl (_, here) ↦ up here
      | inr there ↦ v.notified_awake e j lt there
    ];
  }

  Inv-sleep :
      p.stop ≡ false
      → p.tasks ≡ []
      → Inv n p
      → Inv n (record p { workers = update p.workers i asleep })
  Inv-sleep running idle v = record {
    no_lost_wakeup = λ all. idle;
    exited_stopped = λ j lt e. elim (update_elim p.workers i j asleep exited e) [
      | inl (_, here) ↦ cc
      | inr there ↦ v.exited_stopped j lt there
    ];
    notified_stopped = v.notified_stopped;
    notified_awake = λ e j lt s. cc (v.notified_stopped e, running);
  }

  Inv-turn : Inv n p → Inv n (turn i p)
  Inv-turn v =
      turn_cases (Inv n) i p (λ running idle. Inv-sleep running idle v)
        (λ stopped e. Inv-update exited p.tasks p.enqueued p.started (λ x. cc) (λ _. stopped) v)
        λ t rest e.
          Inv-update (busy t) rest p.enqueued (p.started ++ (t ∷ [])) (λ x. cc) (λ x. cc) v

Inv-enqueue :
    {n : ℕ} (p : ThreadPool) (task : ℕ)
    → 0 < n
    → ((i : ℕ) → i < n → p.workers i ≢ asleep)
    → Inv n p
    → Inv n (enqueue task p)
unfolding enqueue
Inv-enqueue p task some' up v = record {
  no_lost_wakeup = λ all. absurd (up 0 some' (all 0 some'));
  exited_stopped = v.exited_stopped;
  notified_stopped = v.notified_stopped;
  notified_awake = v.notified_awake;
}

wakened-asleep : (w : Worker) → wakened w ≢ asleep
wakened-asleep awake e = cc
wakened-asleep asleep e = cc
wakened-asleep exited e = cc
wakened-asleep (busy t) e = cc

pub wakened-exited : (w : Worker) → wakened w ≡ exited → w ≡ exited
wakened-exited awake e = cc
wakened-exited asleep e = cc
wakened-exited exited e = e
wakened-exited (busy t) e = cc

Inv-notify_all : {n : ℕ} (p : ThreadPool) → 0 < n → p.stop ≡ true → Inv n p → Inv n (notify_all p)
unfolding notify_all
Inv-notify_all p some' stopped v = record {
  no_lost_wakeup = λ all. absurd (wakened-asleep (p.workers 0) (all 0 some'));
  exited_stopped = λ j lt e. stopped;
  notified_stopped = λ e. stopped;
  notified_awake = λ e j lt. wakened-asleep (p.workers j);
}

Inv-stop_pool : {n : ℕ} (p : ThreadPool) → Inv n p → Inv n (stop_pool p)
unfolding stop_pool
Inv-stop_pool p v = record {
  no_lost_wakeup = v.no_lost_wakeup;
  exited_stopped = λ j lt e. refl;
  notified_stopped = λ e. refl;
  notified_awake = v.notified_awake;
}

Step-Inv : {n : ℕ} {p q : ThreadPool} → 0 < n → Step n p q → Inv n p → Inv n q
unfolding wake enqueue finish
Step-Inv {p = p} some' (enqueue_wake task i lt e) v =
    Inv-update p i lt awake (p.tasks ++ (task ∷ [])) (p.enqueued ++ (task ∷ [])) p.started (λ x. cc)
      (λ x. cc) v
Step-Inv {p = p} some' (enqueue_quiet task up) v = Inv-enqueue p task some' up v
Step-Inv {p = p} some' (spurious i lt e) v =
    Inv-update p i lt awake p.tasks p.enqueued p.started (λ x. cc) (λ x. cc) v
Step-Inv {p = p} some' (turns i lt e) v = Inv-turn p i lt v
Step-Inv {p = p} some' (finishes i task lt e) v =
    Inv-update p i lt awake p.tasks p.enqueued p.started (λ x. cc) (λ x. cc) v
Step-Inv {p = p} some' stops v = Inv-stop_pool p v
Step-Inv {p = p} some' (notifies stopped) v = Inv-notify_all p some' stopped v

-- In every reachable state of a pool with workers: if all of them sleep, no task waits; a worker has
-- returned only if the pool was stopped; and after the `notify_all` of the destructor no worker
-- sleeps.
pub Reach-Inv : {n : ℕ} {p : ThreadPool} → 0 < n → Reach n p → Inv n p
Reach-Inv {n} some' begin = Inv-start n
Reach-Inv some' (later r s) = Step-Inv some' s (Reach-Inv some' r)

-- A worker that returns leaves no task behind: all that was enqueued has been taken.
exited-enqueued :
    {n : ℕ} {p : ThreadPool} (i : ℕ)
    → Reach n p
    → p.workers i ≡ awake
    → (turn i p).workers i ≡ exited
    → p.enqueued ≡ p.started
exited-enqueued {p = p} i r at_head =
    turn_cases (λ q. q.workers i ≡ exited → p.enqueued ≡ p.started) i p
      (λ running idle e. cc (update_self p.workers i asleep))
      (λ stopped idle e. Reach-enqueued r ∙ ap (λ l. p.started ++ l) idle ∙ append-nil p.started)
      λ t rest more e. cc (update_self p.workers i (busy t))

-- Without workers, which is what `hardware_concurrency()` may give, no task is ever taken.
Reach-zero : {n : ℕ} {p : ThreadPool} → n ≡ 0 → Reach n p → p.started ≡ []
unfolding enqueue stop_pool notify_all
Reach-zero none' begin = refl
Reach-zero none' (later r (enqueue_wake task i lt e)) = absurd (omega arith)
Reach-zero none' (later r (enqueue_quiet task up)) = Reach-zero none' r
Reach-zero none' (later r (spurious i lt e)) = absurd (omega arith)
Reach-zero none' (later r (turns i lt e)) = absurd (omega arith)
Reach-zero none' (later r (finishes i task lt e)) = absurd (omega arith)
Reach-zero none' (later r stops) = Reach-zero none' r
Reach-zero none' (later r (notifies e)) = Reach-zero none' r
