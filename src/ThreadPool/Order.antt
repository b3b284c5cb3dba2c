-- ===== src/ThreadPool/Order.antt =====
-- Which tasks are taken, and in which order.
use pine_http.Prelude.{append-nil, ℕ, ◌≡◌, refl, sym, ap, ◌∙◌, [], ◌∷◌, ◌++◌, append_assoc}
use pine_http.ThreadPool.{ThreadPool, enqueue, wake, stop_pool, notify_all, turn, finish}
use pine_http.ThreadPool.Steps.{
  Step, enqueue_wake, enqueue_quiet, spurious, turns, finishes, stops, notifies, Reach, begin,
  later, turn_cases,
}

-- The tasks taken, followed by those that wait, are the tasks enqueued.
abbrev InOrder : ThreadPool → Type 0
InOrder p = p.enqueued ≡ p.started ++ p.tasks

enqueue-InOrder : (task : ℕ) (p : ThreadPool) → InOrder p → InOrder (enqueue task p)
unfolding enqueue
enqueue-InOrder task p h = ap (λ l. l ++ (task ∷ [])) h ∙ append_assoc p.started p.tasks (task ∷ [])

turn-InOrder : (i : ℕ) (p : ThreadPool) → InOrder p → InOrder (turn i p)
turn-InOrder i p h =
    turn_cases InOrder i p (λ s e. h) (λ s e. h)
      λ t rest e. h ∙ ap (λ l. p.started ++ l) e ∙ sym (append_assoc p.started (t ∷ []) rest)

Step-InOrder : {n : ℕ} {p q : ThreadPool} → Step n p q → InOrder p → InOrder q
unfolding wake stop_pool notify_all finish
Step-InOrder {p = p} (enqueue_wake task i lt e) h = enqueue-InOrder task p h
Step-InOrder {p = p} (enqueue_quiet task none') h = enqueue-InOrder task p h
Step-InOrder (spurious i lt e) h = h
Step-InOrder {p = p} (turns i lt e) h = turn-InOrder i p h
Step-InOrder (finishes i task lt e) h = h
Step-InOrder stops h = h
Step-InOrder (notifies e) h = h

-- In every reachable state the tasks that workers have taken are, in order, the first of those that
-- were enqueued, and the others wait in the queue in order: none is lost, taken twice or overtaken.
pub Reach-enqueued : {n : ℕ} {p : ThreadPool} → Reach n p → p.enqueued ≡ p.started ++ p.tasks
Reach-enqueued begin = refl
Reach-enqueued (later r s) = Step-InOrder s (Reach-enqueued r)

-- Once the queue is empty, all that was enqueued has been taken.
pub empty-started : {n : ℕ} {p : ThreadPool} → Reach n p → p.tasks ≡ [] → p.started ≡ p.enqueued
empty-started {p = p} r empty =
    sym (append-nil p.started) ∙ ap (λ l. p.started ++ l) (sym empty) ∙ sym (Reach-enqueued r)
