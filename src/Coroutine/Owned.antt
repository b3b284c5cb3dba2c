-- ===== src/Coroutine/Owned.antt =====
-- What the steps of operations on the pool keep of each operation, and its updates.
use pine_http.Prelude.{
  put, put-elim, ℕ, ◌≡◌, ◌≢◌, sym, ap, ◌∙◌, ◌⊎◌, inl, inr, true, false, Option, some, arith, ◌==◌,
  Bool-cases, ==_iff, subst,
}
use pine_http.ThreadPool.{ThreadPool}
use pine_http.Coroutine.Pending.{Pending}
use pine_http.Coroutine.Frames.{Frame, destroyed}
use pine_http.Coroutine.Pooled.{
  Job, resumes_own, destroys_own, returns, Operations, set_job, set_frame,
}

-- The task still has to destroy the operation `t`.
abbrev pub Owns : ℕ → Option Job → Type 0
Owns t j = (j ≡ some (resumes_own t)) ⊎ (j ≡ some (destroys_own t))

-- What holds of the operation `t`.
pub record Inv (n t : ℕ) (s : Operations) : Type 0 where
  pub run_destroyed : s.has_run t ≡ true → s.frame t ≡ some destroyed
  pub dropped_destroyed : s.dropped t ≡ true → s.frame t ≡ some destroyed
  pub not_both : s.has_run t ≡ true → s.dropped t ≡ false
  pub pending :
      (f : Frame)
      → s.frame t ≡ some f
      → s.has_run t ≡ false
      → (task : ℕ) × Owns t (s.job task) × Pending n task s.pool

module _ {n t : ℕ} {s : Operations} (v : Inv n t s) where
  -- The pool goes on, but no frame does.
  pub Inv-pool :
      (p : ThreadPool)
      → ((task : ℕ) → Owns t (s.job task) → Pending n task s.pool → Pending n task p)
      → Inv n t (record s { pool = p })
  Inv-pool p keeps = record {
    run_destroyed = v.run_destroyed;
    dropped_destroyed = v.dropped_destroyed;
    not_both = v.not_both;
    pending =
        λ f e yet. let (task, own, there) = v.pending f e yet in (task, own, keeps task own there);
  }

  -- A task goes on, and has still to destroy `t` if it had.
  pub Inv-job :
      (task : ℕ) (j : Job)
      → (Owns t (s.job task) → Owns t (some j))
      → Inv n t (record s { job = set_job s task j })
  Inv-job task j keeps = record {
    run_destroyed = v.run_destroyed;
    dropped_destroyed = v.dropped_destroyed;
    not_both = v.not_both;
    pending = λ f e yet.
        let (own_task, own, there) = v.pending f e yet in
        (
          own_task,
          put-elim (Owns t) s.job task (some j) own_task
              (λ same. keeps (subst (λ k. Owns t (s.job k)) (sym same) own)) own,
          there,
        );
  }

  -- A frame that is not destroyed changes.
  pub Inv-frame :
      (t' : ℕ) (f g : Frame)
      → s.frame t' ≡ some f
      → f ≢ destroyed
      → Inv n t (record s { frame = set_frame s t' g })
  Inv-frame t' f g at_f alive = elim (Bool-cases (t' == t)) [
    | inl same ↦
        let here : s.frame t ≡ some f = ap s.frame (sym ((==_iff t' t).0 same)) ∙ at_f in
        record {
          run_destroyed = λ e. absurd (alive (cc (v.run_destroyed e)));
          dropped_destroyed = λ e. absurd (alive (cc (v.dropped_destroyed e)));
          not_both = v.not_both;
          pending = λ h e yet. v.pending f here yet;
        }
    | inr other ↦ record {
      run_destroyed = λ e. rw other (v.run_destroyed e);
      dropped_destroyed = λ e. rw other (v.dropped_destroyed e);
      not_both = v.not_both;
      pending = λ h e yet. v.pending h (rw other at e) yet;
    }
  ]

  -- A frame that is not destroyed is that of an operation whose handle is still there.
  not_dropped : (f : Frame) → s.frame t ≡ some f → f ≢ destroyed → s.dropped t ≡ false
  not_dropped f at_f alive = elim (Bool-cases (s.dropped t)) [
    | inl gone ↦ absurd (alive (cc (v.dropped_destroyed gone)))
    | inr there ↦ there
  ]

  -- The task of the constructor destroys its frame.
  pub Inv-destroys :
      (task t' : ℕ) (f g : Frame)
      → s.job task ≡ some (destroys_own t')
      → s.frame t' ≡ some f
      → (g ≡ destroyed) × (f ≢ destroyed)
      → Inv n t (record s {
        job = set_job s task returns;
        frame = set_frame s t' g;
        has_run = put s.has_run t' true;
      })
  Inv-destroys task t' f g mine at_f (gone, alive) = elim (Bool-cases (t' == t)) [
    | inl same ↦
        let here : s.frame t ≡ some f = ap s.frame (sym ((==_iff t' t).0 same)) ∙ at_f in
        record {
          run_destroyed = λ e. rw same (ap some gone);
          dropped_destroyed = λ e. rw same (ap some gone);
          not_both = λ e. not_dropped f here alive;
          pending = λ h e yet. cc (rw same at yet);
        }
    | inr other ↦ record {
      run_destroyed = λ e. rw other (v.run_destroyed (rw other at e));
      dropped_destroyed = λ e. rw other (v.dropped_destroyed e);
      not_both = λ e. v.not_both (rw other at e);
      pending = λ h e yet.
          let (own_task, own, there) = v.pending h (rw other at e) (rw other at yet) in
          (
            own_task,
            put-elim (Owns t) s.job task (some returns) own_task
                (λ same.
                  absurd (owned t' other (subst (λ k. Owns t (s.job k)) (sym same) own) mine))
                own,
            there,
          );
    }
  ]
    where
      owned :
          (t' : ℕ)
          → (t' == t) ≡ false
          → Owns t (s.job task)
          → s.job task ≡ some (destroys_own t')
          → ⊥
      owned t' other own mine = ground (arith, own)

  pub Inv-drops :
      (t' : ℕ) (f g : Frame)
      → s.frame t' ≡ some f
      → (g ≡ destroyed) × (f ≢ destroyed)
      → Inv n t (record s { frame = set_frame s t' g; dropped = put s.dropped t' true })
  Inv-drops t' f g at_f (gone, alive) = elim (Bool-cases (t' == t)) [
    | inl same ↦
        let here : s.frame t ≡ some f = ap s.frame (sym ((==_iff t' t).0 same)) ∙ at_f in
        record {
          run_destroyed = λ e. rw same (ap some gone);
          dropped_destroyed = λ e. rw same (ap some gone);
          not_both = λ e. absurd (alive (cc (v.run_destroyed e)));
          pending = λ h e yet. v.pending f here yet;
        }
    | inr other ↦ record {
      run_destroyed = λ e. rw other (v.run_destroyed e);
      dropped_destroyed = λ e. rw other (v.dropped_destroyed (rw other at e));
      not_both = λ e. rw other (v.not_both e);
      pending = λ h e yet. v.pending h (rw other at e) yet;
    }
  ]
