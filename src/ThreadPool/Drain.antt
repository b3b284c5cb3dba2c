-- ===== src/ThreadPool/Drain.antt =====
-- How far the workers of a pool get by themselves: runs without a call of `enqueue` or `stop_pool`.
use pine_http.Prelude.{
  ℕ, zero, suc, ◌+◌, ◌*◌, ◌≤◌, ◌<◌, ◌≡◌, refl, sym, ap, ◌∙◌, ◌⊎◌, inl, inr, false, [], arith,
  length, ◌==◌, Bool-cases, ==_iff, subst,
}
use pine_http.ThreadPool.{ThreadPool, Worker, awake, asleep, exited, busy, update, turn, finish}
use pine_http.ThreadPool.Steps.{turns, finishes, Reach, later, turn_cases}
use pine_http.ThreadPool.Order.{empty-started}
use pine_http.ThreadPool.Wakeups.{Reach-Inv}

-- A run of so many steps of the workers: a worker takes its turn, or ends its task.
pub data Works (n : ℕ) (p : ThreadPool) : ℕ → ThreadPool → Type 0 where
  rests : Works n p 0 p
  takes_turn :
      {k : ℕ} {q : ThreadPool}
      → Works n p k q
      → (i : ℕ) → i < n
      → q.workers i ≡ awake
      → Works n p (suc k) (turn i q)
  ends_task :
      {k : ℕ} {q : ThreadPool}
      → Works n p k q
      → (i task : ℕ) → i < n
      → q.workers i ≡ busy task
      → Works n p (suc k) (finish i q)

-- How many more steps a worker can make without taking a task.
abbrev pub steps_left : Worker → ℕ
steps_left asleep = 0
steps_left exited = 0
steps_left awake = 1
steps_left (busy task) = 2

abbrev pub all_steps_left : ℕ → (ℕ → Worker) → ℕ
all_steps_left zero workers = 0
all_steps_left (suc n) workers = all_steps_left n workers + steps_left (workers n)

all_steps_left-beyond :
    (n i : ℕ) (workers : ℕ → Worker) (w : Worker)
    → n ≤ i
    → all_steps_left n (update workers i w) ≡ all_steps_left n workers
all_steps_left-beyond zero i workers w h = refl
all_steps_left-beyond (suc n) i workers w h = ground (arith, all_steps_left-beyond n i workers w)

all_steps_left-update :
    (n i : ℕ) (workers : ℕ → Worker) (w : Worker)
    → i < n
    → all_steps_left n (update workers i w) + steps_left (workers i)
      ≡ all_steps_left n workers + steps_left w
all_steps_left-update zero i workers w h = absurd (omega arith)
all_steps_left-update (suc n) i workers w h = elim (Bool-cases (i == n)) [
  | inl last ↦
      let e = (==_iff i n).0 last in
      rw last (
        omega (
          arith,
          all_steps_left-beyond n i workers w (omega arith),
          ap (λ k. steps_left (workers k)) e,
        ))
  | inr before ↦ rw before (omega (arith, all_steps_left-update n i workers w (ground arith)))
]

-- An upper bound of the steps that the workers of a pool can still make by themselves.
abbrev pub effort : ℕ → ThreadPool → ℕ
effort n p = 3 * length p.tasks + all_steps_left n p.workers

turn-effort :
    (n i : ℕ) (p : ThreadPool) → i < n → p.workers i ≡ awake → effort n (turn i p) < effort n p
turn-effort n i p lt at_head =
    turn_cases (λ q. effort n q < effort n p) i p
      (λ running idle. omega (arith, all_steps_left-update n i p.workers asleep lt, one))
      (λ stopped idle. omega (arith, all_steps_left-update n i p.workers exited lt, one))
      λ t rest e. omega (arith, all_steps_left-update n i p.workers (busy t) lt, one, ap length e)
  where
    one : steps_left (p.workers i) ≡ 1
    one = ap steps_left at_head

finish-effort :
    (n i task : ℕ) (p : ThreadPool)
    → i < n
    → p.workers i ≡ busy task
    → effort n (finish i p) < effort n p
unfolding finish
finish-effort n i task p lt at_task =
    omega (arith, all_steps_left-update n i p.workers awake lt, ap steps_left at_task)

all_steps_left-le : (n : ℕ) (workers : ℕ → Worker) → all_steps_left n workers ≤ 2 * n
all_steps_left-le zero workers = omega arith
all_steps_left-le (suc n) workers = omega (arith, all_steps_left-le n workers, at_most (workers n))
  where
    at_most : (w : Worker) → steps_left w ≤ 2
    at_most asleep = omega arith
    at_most exited = omega arith
    at_most awake = omega arith
    at_most (busy task) = omega arith

Works-effort :
    {n : ℕ} {p : ThreadPool} {k : ℕ} {q : ThreadPool} → Works n p k q → k + effort n q ≤ effort n p
Works-effort rests = omega arith
Works-effort {n} (takes_turn {q = q} w i lt e) =
    omega (arith, Works-effort w, turn-effort n i q lt e)
Works-effort {n} (ends_task {q = q} w i task lt e) =
    omega (arith, Works-effort w, finish-effort n i task q lt e)

-- The workers of a pool come to rest: of `n` workers with some tasks in the queue, no run without
-- outside calls has more than three steps for each task and two for each worker.
pub Works-bound :
    {n : ℕ} {p : ThreadPool} {k : ℕ} {q : ThreadPool}
    → Works n p k q
    → k ≤ 3 * length p.tasks + 2 * n
Works-bound {n} {p = p} w = omega (arith, Works-effort w, all_steps_left-le n p.workers)

-- No worker can make a step.
abbrev pub AtRest : ℕ → ThreadPool → Type 0
AtRest n p = (i : ℕ) → i < n → (p.workers i ≡ asleep) ⊎ (p.workers i ≡ exited)

pub Works-Reach :
    {n : ℕ} {p : ThreadPool} {k : ℕ} {q : ThreadPool} → Reach n p → Works n p k q → Reach n q
Works-Reach r rests = r
Works-Reach r (takes_turn w i lt e) = later (Works-Reach r w) (turns i lt e)
Works-Reach r (ends_task w i task lt e) = later (Works-Reach r w) (finishes i task lt e)

-- What the workers leave alone.
abbrev pub Same : ThreadPool → ThreadPool → Type 0
Same p q = (q.stop ≡ p.stop) × (q.enqueued ≡ p.enqueued)

pub Works-Same : {n : ℕ} {p : ThreadPool} {k : ℕ} {q : ThreadPool} → Works n p k q → Same p q
unfolding finish
Works-Same rests = (refl, refl)
Works-Same {p = p} (takes_turn {q = q} w i lt e) =
    turn_cases (Same p) i q (λ running idle. Works-Same w) (λ stopped idle. Works-Same w)
      λ t rest more. Works-Same w
Works-Same (ends_task w i task lt e) = Works-Same w

-- What a worker can do from here.
CanStep : ℕ → ThreadPool → Type 0
CanStep n p = (q : ThreadPool) × Works n p 1 q

Resting : Worker → Type 0
Resting w = (w ≡ asleep) ⊎ (w ≡ exited)

Resting-or_step :
    (n i : ℕ) (p : ThreadPool) (w : Worker)
    → i < n
    → p.workers i ≡ w
    → Resting (p.workers i) ⊎ CanStep n p
unfolding CanStep Resting
Resting-or_step n i p asleep lt e = inl (inl e)
Resting-or_step n i p exited lt e = inl (inr e)
Resting-or_step n i p awake lt e = inr (turn i p, takes_turn rests i lt e)
Resting-or_step n i p (busy task) lt e = inr (finish i p, ends_task rests i task lt e)

AtRest-suc : (n : ℕ) (p : ThreadPool) → AtRest n p → Resting (p.workers n) → AtRest (suc n) p
unfolding Resting
AtRest-suc n p before here i lt = elim (Bool-cases (i == n)) [
  | inl same ↦ subst (λ k. Resting (p.workers k)) (sym ((==_iff i n).0 same)) here
  | inr other ↦ before i (ground arith)
]

AtRest-or_step : (n m : ℕ) (p : ThreadPool) → m ≤ n → AtRest m p ⊎ CanStep n p
AtRest-or_step n zero p h = inl λ i lt. absurd (omega arith)
AtRest-or_step n (suc m) p h = elim (AtRest-or_step n m p (omega arith)) [
  | inr step ↦ inr step
  | inl before ↦ elim (Resting-or_step n m p (p.workers m) (omega arith) refl) [
    | inl here ↦ inl (AtRest-suc m p before here)
    | inr step ↦ inr step
  ]
]

-- One run behind another.
Works-append :
    {n : ℕ} {p : ThreadPool} {j : ℕ} {q : ThreadPool} {k : ℕ} {r : ThreadPool}
    → Works n p j q
    → Works n q k r
    → Works n p (j + k) r
Works-append {n} {p} {r = r} w rests = subst (λ k. Works n p k r) (omega arith) w
Works-append {n} {p} {j = j} w (takes_turn {k = k} {q = q} v i lt e) =
    subst (λ m. Works n p m (turn i q)) (omega arith) (takes_turn (Works-append w v) i lt e)
Works-append {n} {p} {j = j} w (ends_task {k = k} {q = q} v i task lt e) =
    subst (λ m. Works n p m (finish i q)) (omega arith) (ends_task (Works-append w v) i task lt e)

-- Some run ends with all workers at rest; the fuel bounds the effort.
pub Works-AtRest :
    (fuel n : ℕ) (p : ThreadPool)
    → effort n p < fuel
    → (k : ℕ) × (q : ThreadPool) × Works n p k q × AtRest n q
unfolding CanStep
Works-AtRest zero n p h = absurd (omega arith)
Works-AtRest (suc fuel) n p h = elim (AtRest-or_step n n p (omega arith)) [
  | inl rest ↦ (0, p, rests, rest)
  | inr (q, step) ↦
      let (k, r, run, rest) = Works-AtRest fuel n q (omega (arith, Works-effort step)) in
      (1 + k, r, Works-append step run, rest)
]

-- Of a pool with workers that is not stopped: whatever the workers do by themselves, once no worker
-- can make a step, all tasks that were enqueued have been taken, in order, and none waits.
pub AtRest-enqueued :
    {n : ℕ} {p : ThreadPool} {k : ℕ} {q : ThreadPool}
    → 0 < n
    → Reach n p
    → p.stop ≡ false
    → Works n p k q
    → AtRest n q
    → (q.started ≡ p.enqueued) × (q.tasks ≡ [])
AtRest-enqueued {n} {p = p} {q = q} some' r running w rest =
    (empty-started reached drained ∙ (Works-Same w).1, drained)
  where
    reached : Reach n q
    reached = Works-Reach r w

    sleeps : (i : ℕ) → i < n → q.workers i ≡ asleep
    sleeps i lt = elim (rest i lt) [
      | inl e ↦ e
      | inr e ↦ cc ((Reach-Inv some' reached).exited_stopped i lt e, (Works-Same w).0, running)
    ]

    drained : q.tasks ≡ []
    drained = (Reach-Inv some' reached).no_lost_wakeup sleeps

-- Every pool with workers that is reached and not stopped can get all its tasks taken by its workers
-- alone, within three steps for each task and two for each worker.
pub Works-enqueued :
    {n : ℕ} {p : ThreadPool}
    → 0 < n
    → Reach n p
    → p.stop ≡ false
    → (k : ℕ) × (q : ThreadPool) × Works n p k q
      × AtRest n q
      × (k ≤ 3 * length p.tasks + 2 * n)
      × (q.started ≡ p.enqueued)
Works-enqueued {n} {p} some' r running =
    let (k, q, run, rest) = Works-AtRest (suc (effort n p)) n p (omega arith) in
    (k, q, run, rest, Works-bound run, (AtRest-enqueued some' r running run rest).0)
