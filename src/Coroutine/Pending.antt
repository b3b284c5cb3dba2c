-- ===== src/Coroutine/Pending.antt =====
-- Where the task of an operation is on the thread pool, until it has run.
use pine_http.Prelude.{
  ℕ, ◌<◌, ◌≡◌, ◌≢◌, refl, ap, ◌∙◌, ◌⊎◌, inl, inr, List, [], ◌∷◌, ◌++◌, arith, ◌==◌, Bool-cases,
  ==_iff, subst,
}
use pine_http.ThreadPool.{
  ThreadPool, Worker, awake, asleep, exited, busy, enqueue, notify_all, turn, update,
}
use pine_http.ThreadPool.Steps.{turn_cases}

abbrev pub Waits : ℕ → List ℕ → Type 0
Waits t [] = ⊥
Waits t (x ∷ tasks) = (x ≡ t) ⊎ Waits t tasks

Waits-append : (t : ℕ) (tasks more : List ℕ) → Waits t tasks → Waits t (tasks ++ more)
Waits-append t [] more h = absurd h
Waits-append t (x ∷ tasks) more (inl e) = inl e
Waits-append t (x ∷ tasks) more (inr h) = inr (Waits-append t tasks more h)

pub Waits-last : (t : ℕ) (tasks : List ℕ) → Waits t (tasks ++ (t ∷ []))
Waits-last t [] = inl refl
Waits-last t (x ∷ tasks) = inr (Waits-last t tasks)

-- The task waits in the queue, or a worker has taken it.
abbrev pub Pending : ℕ → ℕ → ThreadPool → Type 0
Pending n t p = Waits t p.tasks ⊎ ((i : ℕ) × (i < n) × (p.workers i ≡ busy t))

-- A worker that was not at this task changes.
pub Pending-update :
    (n t i : ℕ) (p : ThreadPool) (w : Worker)
    → p.workers i ≢ busy t
    → Pending n t p
    → Pending n t (record p { workers = update p.workers i w })
Pending-update n t i p w other (inl h) = inl h
Pending-update n t i p w other (inr (j, lt, e)) = inr (
  j,
  lt,
  elim (Bool-cases (i == j)) [
    | inl same ↦ absurd (other (ap p.workers ((==_iff i j).0 same) ∙ e))
    | inr apart ↦ rw apart e
  ],
)

pub Pending-enqueue : (n t task : ℕ) (p : ThreadPool) → Pending n t p → Pending n t (enqueue task p)
unfolding enqueue
Pending-enqueue n t task p (inl h) = inl (Waits-append t p.tasks (task ∷ []) h)
Pending-enqueue n t task p (inr h) = inr h

pub Pending-turn :
    (n t i : ℕ) (p : ThreadPool)
    → i < n
    → p.workers i ≡ awake
    → Pending n t p
    → Pending n t (turn i p)
Pending-turn n t i p lt e h =
    turn_cases (Pending n t) i p (λ running' empty. Pending-update n t i p asleep idle h)
      (λ stopped empty. Pending-update n t i p exited idle h)
      λ task rest front. taken task rest front h
  where
    idle : p.workers i ≢ busy t
    idle x = cc

    taken :
        (task : ℕ) (rest : List ℕ)
        → p.tasks ≡ task ∷ rest
        → Pending n t p
        → Pending n t (record p {
          workers = update p.workers i (busy task);
          tasks = rest;
          started = p.started ++ (task ∷ []);
        })
    taken task rest front (inl here) = elim (subst (Waits t) front here) [
      | inl same ↦ inr (i, lt, ground arith)
      | inr behind ↦ inl behind
    ]
    taken task rest front (inr (j, lt', at_j)) = inr (
      j,
      lt',
      elim (Bool-cases (i == j)) [
        | inl same ↦ absurd (idle (ap p.workers ((==_iff i j).0 same) ∙ at_j))
        | inr apart ↦ rw apart at_j
      ],
    )

pub Pending-notify_all : (n t : ℕ) (p : ThreadPool) → Pending n t p → Pending n t (notify_all p)
unfolding notify_all
Pending-notify_all n t p (inl h) = inl h
Pending-notify_all n t p (inr (j, lt, e)) = inr (j, lt, rw e refl)
