-- ===== src/ThreadPool/Shutdown.antt =====
-- `~thread_pool` (shared/src/thread_pool.cpp): `stop_pool`, `notify_all`, and the threads that are
-- joined.
use pine_http.Prelude.{
  ℕ, suc, ◌+◌, ◌*◌, ◌≤◌, ◌<◌, ◌≡◌, refl, ◌∙◌, inl, inr, false, [], arith, length, ◌==◌, Bool-cases,
}
use pine_http.ThreadPool.{
  ThreadPool, Worker, awake, asleep, exited, stop_pool, notify_all, update, turn, finish,
}
use pine_http.ThreadPool.Steps.{Reach, later, stops, notifies, turn_cases}
use pine_http.ThreadPool.Order.{empty-started}
use pine_http.ThreadPool.Wakeups.{Reach-Inv, wakened-exited}
use pine_http.ThreadPool.Drain.{
  Works, rests, takes_turn, ends_task, AtRest, Works-Reach, Works-Same, Works-bound, Works-AtRest,
  effort,
}

-- Where a worker has returned, no task waits.
LeavesNone : ℕ → ThreadPool → Type 0
LeavesNone n p = (i : ℕ) → i < n → p.workers i ≡ exited → p.tasks ≡ []

module _ {n : ℕ} (p : ThreadPool) (i : ℕ) (inside : i < n) where
  -- A worker changes, but does not return, and the queue stays.
  LeavesNone-update :
      (w : Worker)
      → (w ≡ exited → p.tasks ≡ [])
      → LeavesNone n p
      → LeavesNone n (record p { workers = update p.workers i w })
  unfolding LeavesNone
  LeavesNone-update w last h j lt e = elim (Bool-cases (i == j)) [
    | inl same ↦ last (rw same at e)
    | inr other ↦ h j lt (rw other at e)
  ]

  LeavesNone-turn : p.workers i ≡ awake → LeavesNone n p → LeavesNone n (turn i p)
  unfolding LeavesNone
  LeavesNone-turn up h =
      turn_cases (LeavesNone n) i p (λ going empty. LeavesNone-update asleep (λ e. empty) h)
        (λ stopped empty. LeavesNone-update exited (λ e. empty) h)
        λ t rest front j lt e. elim (Bool-cases (i == j)) [
          | inl same ↦ cc (rw same at e)
          | inr other ↦ cc (h j lt (rw other at e), front)
        ]

Works-LeavesNone :
    {n : ℕ} {p : ThreadPool} {k : ℕ} {q : ThreadPool}
    → Works n p k q
    → LeavesNone n p
    → LeavesNone n q
unfolding finish
Works-LeavesNone rests h = h
Works-LeavesNone (takes_turn {q = q} w i lt e) h = LeavesNone-turn q i lt e (Works-LeavesNone w h)
Works-LeavesNone (ends_task {q = q} w i task lt e) h =
    LeavesNone-update q i lt awake (λ x. cc) (Works-LeavesNone w h)

Works-notified :
    {n : ℕ} {p : ThreadPool} {k : ℕ} {q : ThreadPool} → Works n p k q → q.notified ≡ p.notified
unfolding finish
Works-notified rests = refl
Works-notified {p = p} (takes_turn {q = q} w i lt e) =
    turn_cases (λ r. r.notified ≡ p.notified) i q (λ going empty. Works-notified w)
      (λ stopped empty. Works-notified w) λ t rest front. Works-notified w
Works-notified (ends_task w i task lt e) = Works-notified w

-- The destructor of a pool that has not been stopped: `stop_pool`, some steps of the workers, and
-- `notify_all`.
module _ {n : ℕ} (some' : 0 < n) {p : ThreadPool} (r : Reach n p) (going : p.stop ≡ false) {j : ℕ}
    {s : ThreadPool} (between : Works n (stop_pool p) j s) where
  notified-Reach : Reach n (notify_all s)
  unfolding stop_pool
  notified-Reach = later (Works-Reach (later r stops) between) (notifies (Works-Same between).0)

  notified-LeavesNone : LeavesNone n (notify_all s)
  unfolding notify_all stop_pool LeavesNone
  notified-LeavesNone i lt e =
      Works-LeavesNone between (λ i lt e. cc ((Reach-Inv some' r).exited_stopped i lt e, going)) i
        lt (wakened-exited (s.workers i) e)

  AtRest-exited :
      (k : ℕ) (q : ThreadPool)
      → Works n (notify_all s) k q
      → AtRest n q
      → ((i : ℕ) → i < n → q.workers i ≡ exited) × (q.started ≡ p.enqueued) × (q.tasks ≡ [])
  unfolding notify_all stop_pool LeavesNone
  AtRest-exited k q w rest =
      (returned, empty-started reached empty ∙ (Works-Same w).1 ∙ (Works-Same between).1, empty)
    where
      reached : Reach n q
      reached = Works-Reach notified-Reach w

      returned : (i : ℕ) → i < n → q.workers i ≡ exited
      returned i lt = elim (rest i lt) [
        | inl e ↦ absurd ((Reach-Inv some' reached).notified_awake (Works-notified w) i lt e)
        | inr e ↦ e
      ]

      empty : q.tasks ≡ []
      empty = Works-LeavesNone w notified-LeavesNone 0 some' (returned 0 some')

  -- The destructor of a pool with workers that has not been stopped calls `stop_pool`; the workers may
  -- make some steps; then it calls `notify_all`. From there on the workers by themselves can come to
  -- rest within three steps for each task that waits and two for each worker. And however they come to
  -- rest, every worker has returned, so that the threads can be joined, and all tasks that were
  -- enqueued before `stop_pool` have been taken, in order.
  pub notify_all-exited :
      ((k : ℕ) × (q : ThreadPool) × Works n (notify_all s) k q
        × AtRest n q
        × (k ≤ 3 * length s.tasks + 2 * n))
      × ((k : ℕ) (q : ThreadPool)
          → Works n (notify_all s) k q
          → AtRest n q
          → ((i : ℕ) → i < n → q.workers i ≡ exited) × (q.started ≡ p.enqueued) × (q.tasks ≡ []))
  unfolding notify_all
  notify_all-exited =
      let (k, q, run, rest) =
        Works-AtRest (suc (effort n (notify_all s))) n (notify_all s) (omega arith) in
      ((k, q, run, rest, Works-bound run), AtRest-exited)
