-- ===== src/Coroutine/Dropped.antt =====
-- What becomes of the handles of operations whose tasks the pool has run.
use pine_http.Prelude.{
  put-same, ℕ, ◌<◌, ◌≡◌, ◌≢◌, refl, ap, ◌∙◌, inl, inr, true, false, none, some, arith, ◌==◌,
  Bool-cases, ==_iff, subst,
}
use pine_http.ThreadPool.{ThreadPool, awake, enqueue, wake, stop_pool, notify_all, finish}
use pine_http.ThreadPool.Drain.{AtRest, rests, AtRest-enqueued}
use pine_http.Coroutine.Pending.{
  Waits, Waits-last, Pending, Pending-update, Pending-enqueue, Pending-turn, Pending-notify_all,
}
use pine_http.Coroutine.Frames.{
  Frame, running, suspended, ended, destroyed, Handle, destructor, destroy, resume,
}
use pine_http.Coroutine.Pooled.{
  resumes_own, destroys_own, resumes_awaiting, returns, Operations, set_job, set_frame, Enqueues,
  quietly, waking, Act, calls, awaits, ends, wakes, takes, resumes, skips, destroys,
  resumes_awaiter, skips_awaiter, finishes, drops, stops, notifies, Run, begin, later, Run-Reach,
}
use pine_http.Coroutine.Owned.{Inv, Inv-pool, Inv-job, Inv-frame, Inv-destroys, Inv-drops}

resume-suspended : (f next g : Frame) → resume f next ≡ some g → f ≢ destroyed
unfolding resume
resume-suspended f next g h = λ e. ground arith

destroy-destroyed : (f g : Frame) → destroy f ≡ some g → (g ≡ destroyed) × (f ≢ destroyed)
unfolding destroy
destroy-destroyed running g d = ground arith
destroy-destroyed suspended g d = ground arith
destroy-destroyed ended g d = ground arith
destroy-destroyed destroyed g d = ground arith

destructor-destroyed :
    (h : Handle) (f g : Frame)
    → h.has_coroutine ≡ true
    → destructor h f ≡ some g
    → (g ≡ destroyed) × (f ≢ destroyed)
unfolding destructor destroy
destructor-destroyed h running g e d = ground arith
destructor-destroyed h suspended g e d = ground arith
destructor-destroyed h ended g e d = ground arith
destructor-destroyed h destroyed g e d = ground arith

Pending-Enqueues :
    {n task : ℕ} {p q : ThreadPool} (id : ℕ) → Enqueues n task p q → Pending n id p → Pending n id q
unfolding wake enqueue
Pending-Enqueues {n} {task} {p} id (quietly up) h = Pending-enqueue n id task p h
Pending-Enqueues {n} {task} {p} id (waking i lt e) h =
    Pending-update n id i (enqueue task p) awake (λ x. cc) (Pending-enqueue n id task p h)

Pending-new : {n task : ℕ} {p q : ThreadPool} → Enqueues n task p q → Pending n task q
unfolding wake enqueue
Pending-new {n} {task} {p} (quietly up) = inl (Waits-last task p.tasks)
Pending-new {n} {task} {p} (waking i lt e) = inl (Waits-last task p.tasks)

-- The call of an operation that has no frame yet.
Inv-calls :
    {n t : ℕ} {s : Operations} (t' task : ℕ) (p : ThreadPool)
    → s.frame t' ≡ none
    → s.job task ≡ none
    → Enqueues n task s.pool p
    → Inv n t s
    → Inv n t (record s {
      pool = p;
      job = set_job s task (resumes_own t');
      frame = set_frame s t' running;
    })
Inv-calls {n} {t} {s} t' task p new unused q v = elim (Bool-cases (t' == t)) [
  | inl same ↦
      let here = (==_iff t' t).0 same in
      record {
        run_destroyed = λ e. cc (v.run_destroyed e);
        dropped_destroyed = λ e. cc (v.dropped_destroyed e);
        not_both = v.not_both;
        pending = λ f e yet. (
          task,
          inl (put-same s.job task (some (resumes_own t')) ∙ ap (λ k. some (resumes_own k)) here),
          Pending-new q,
        );
      }
  | inr other ↦ record {
    run_destroyed = λ e. rw other (v.run_destroyed e);
    dropped_destroyed = λ e. rw other (v.dropped_destroyed e);
    not_both = v.not_both;
    pending = λ f e yet. others.pending f (rw other at e) yet;
  }
]
  where
    others : Inv n t (record s { pool = p; job = set_job s task (resumes_own t') })
    others =
        Inv-pool (Inv-job v task (resumes_own t') (λ own. absurd (ground (arith, own)))) p
          (λ id own. Pending-Enqueues id q)

Act-Inv : {n t : ℕ} {s u : Operations} → Act n s u → Inv n t s → Inv n t u
unfolding wake stop_pool finish
Act-Inv (calls t' task p new unused q) v = Inv-calls t' task p new unused q v
Act-Inv (awaits t' u task f p at_running at_u there unused q) v =
    Inv-pool
      (Inv-job (Inv-frame v t' running suspended at_running (λ e. cc)) task (resumes_awaiting t' u)
        (λ own. absurd (ground (arith, own))))
      p (λ id own. Pending-Enqueues id q)
Act-Inv (ends t' at_running) v = Inv-frame v t' running ended at_running (λ e. cc)
Act-Inv {n} {t} {s} (wakes i lt e) v =
    Inv-pool v (wake i s.pool) (λ id own. Pending-update n id i s.pool awake (λ x. cc))
Act-Inv {n} {t} {s} (takes i lt e) v = Inv-pool v _ (λ id own. Pending-turn n id i s.pool lt e)
Act-Inv (resumes i task t' f g lt e mine at_f d) v =
    Inv-job (Inv-frame v t' f g at_f (resume-suspended f running g d)) task (destroys_own t')
      (λ own. ground (arith, own))
Act-Inv (skips i task t' lt e mine) v =
    Inv-job v task (destroys_own t') (λ own. ground (arith, own))
Act-Inv (destroys i task t' f g lt e mine at_f d) v =
    Inv-destroys v task t' f g mine at_f (destroy-destroyed f g d)
Act-Inv (resumes_awaiter i task t' u f g lt e mine at_f d) v =
    Inv-job (Inv-frame v t' f g at_f (resume-suspended f running g d)) task returns
      (λ own. absurd (ground (arith, own)))
Act-Inv (skips_awaiter i task t' u lt e mine) v =
    Inv-job v task returns (λ own. absurd (ground (arith, own)))
Act-Inv {n} {t} {s} (finishes i task lt e mine) v =
    Inv-pool v (finish i s.pool)
      (λ id own. Pending-update n id i s.pool awake (λ x. absurd (ground (arith, own))))
Act-Inv (drops t' h f g held at_f d) v = Inv-drops v t' f g at_f (destructor-destroyed h f g held d)
Act-Inv {s = s} stops v = Inv-pool v (stop_pool s.pool) (λ id own h. h)
Act-Inv {n} {t} {s} (notifies e) v =
    Inv-pool v (notify_all s.pool) (λ id own. Pending-notify_all n id s.pool)

Run-Inv : {n : ℕ} {s : Operations} → (t : ℕ) → Run n s → Inv n t s
Run-Inv t begin = record {
  run_destroyed = λ e. cc;
  dropped_destroyed = λ e. cc;
  not_both = λ e. refl;
  pending = λ f e yet. cc;
}
Run-Inv t (later r a) = Act-Inv a (Run-Inv t r)

-- Of a pool with workers that is not stopped, after any steps of Act, in which coroutines call and
-- await one another, the pool runs the tasks of both the constructor and `await_suspend`, handles are
-- destroyed, and every resumption and destruction of a frame is defined: once no worker can make a
-- step, the task of the constructor of every operation that was called has run and has destroyed the
-- frame; no handle of the operation has been destroyed while it held the coroutine; and to destroy
-- one from now on is undefined.
pub Run-AtRest :
    {n : ℕ} {s : Operations} (t : ℕ) (f : Frame)
    → 0 < n
    → Run n s
    → s.pool.stop ≡ false
    → AtRest n s.pool
    → s.frame t ≡ some f
    → (s.has_run t ≡ true)
      × (f ≡ destroyed)
      × (s.dropped t ≡ false)
      × ((h : Handle) → h.has_coroutine ≡ true → destructor h f ≡ none)
unfolding destructor destroy
Run-AtRest {n} {s} t f some' r going rest at_f = elim (Bool-cases (s.has_run t)) [
  | inl run ↦
      let gone : f ≡ destroyed = cc (v.run_destroyed run) in
      (run, gone, v.not_both run, λ h held. rw gone (ground arith))
  | inr yet ↦ absurd (elim (v.pending f at_f yet).2 [
    | inl waiting ↦
        subst (Waits (v.pending f at_f yet).0)
          (AtRest-enqueued some' (Run-Reach r) going rests rest).1 waiting
    | inr (i, lt, at_task) ↦ elim (rest i lt) [ inl e ↦ cc | inr e ↦ cc ]
  ])
]
  where
    v : Inv n t s
    v = Run-Inv t r
