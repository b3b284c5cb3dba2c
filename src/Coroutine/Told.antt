-- ===== src/Coroutine/Told.antt =====
-- What the coroutines that await one another are told.
use pine_http.Prelude.{
  put, put-elim, put-same, ℕ, ◌≡◌, ◌≢◌, ◌⊎◌, inl, inr, refl, sym, ◌∙◌, subst, Bool, true, false,
  none, some, arith, Bool-cases,
}
use pine_http.Errors.{Expected, value, unexpected, make_errc, operation_canceled}
use pine_http.Coroutine.{
  Operation, set_unless_cancelled, future_already_retrieved, done, fresh, cancel, get_future,
  await_ready, await_resume, Body, returns_expected, returns_value, returns_error, throws, hangs,
  complete, raises, unhandled_exception, set_value, return_expected, return_value, return_error,
}
use pine_http.Coroutine.Attempts.{
  get_future-taken, await_ready-taken, complete-retrieved, complete-throws,
}
use pine_http.Coroutine.Updates.{IsTold, AtAwait, Inv, Inv-set_op, Inv-set_place}
use pine_http.Coroutine.Awaiting.{
  Place, absent, at_work, over, gone, waits, resuming, Coroutines, set_op, set_place, IsAlive,
  Event, calls, cancels, ends, finds_ready, suspends, throws_at_ready, continues, continues_early,
  goes_on, throws_at_resume, takes_future, destroys, History, begin, later,
}

taken-await_resume :
    {A : Type 0} (op : Operation A)
    → op.promise.retrieved ≡ true
    → await_resume op ≡ raises future_already_retrieved
unfolding await_resume get_future
taken-await_resume op h = ground arith

module _ {A : Type 0} {s : Coroutines A} (v : Inv s) where
  -- The body of `t` has ended, and its operation has what `complete` leaves.
  Inv-over :
      (t : ℕ) (a : Bool) (b : Body A) (o : Operation A)
      → s.place t ≢ over
      → s.place t ≢ gone
      → complete (s.op t) b ≡ done o
      → (a ≡ true → IsTold o.promise.result)
      → Inv (set_op (set_place s t over a) t o)
  Inv-over t a b o open' alive c tells =
      Inv-set_op (set_place s t over a)
        (Inv-set_place s v t over a (λ e. cc) (λ u at. ground arith) (λ no. absurd (no refl))
          (λ w. (inl (v.unset t open' alive), λ e. cc)))
        t o (λ e. cc (put-same s.place t over)) (λ e. complete-retrieved (s.op t) o b c ∙ e)
        (λ no. absurd (no (put-same s.place t over)))
        (λ w. tells (sym (put-same s.awaited t a) ∙ w))

  -- `t` has called `await_ready` of `u`.
  Inv-co_await :
      (t u : ℕ) (ready : Bool) (o : Operation A) (p : Place)
      → s.place t ≡ at_work
      → IsAlive s u
      → await_ready (s.op u) ≡ done (ready, o)
      → (p ≡ resuming u) ⊎ (p ≡ waits u)
      → Inv (set_place (set_op s u o) t p true)
  Inv-co_await t u ready o p working alive h at =
      let (taken, same) = await_ready-taken (s.op u) o ready h in
      Inv-set_place (set_op s u o)
        (Inv-set_op s v u o alive.0 (λ e. taken) (λ b c. same ∙ v.unset u b c)
          (λ w. subst IsTold (sym same) (v.told u w)))
        t p true (λ e. ground arith)
        (λ w at'.
          let is : u ≡ w = ground arith in
          subst (λ k. ((put s.op u o k).promise.retrieved ≡ true) × (s.place k ≢ absent)) is
            (rw (put-same s.op u o) taken, alive.0))
        (λ b c. clear same) (λ w. (inl (clear same), λ e. ground arith))
    where
      clear : o.promise.result ≡ (s.op u).promise.result → (put s.op u o t).promise.result ≡ none
      clear same =
          put-elim (λ o'. o'.promise.result ≡ none) s.op u o t
            (λ is. same ∙ v.unset u (λ e. cc) (λ e. cc)) (v.unset t (λ e. cc) (λ e. cc))

  -- `t`, which waits for `u`, is resumed.
  Inv-resuming : (t u : ℕ) → s.place t ≡ waits u → Inv (set_place s t (resuming u) (s.awaited t))
  Inv-resuming t u at =
      Inv-set_place s v t (resuming u) (s.awaited t) (λ e. cc)
        (λ w at'.
          let still : AtAwait (s.place t) w = ground arith in
          (v.retrieved t w still, v.called t w still))
        (λ b c. v.unset t (λ e. cc) (λ e. cc)) (λ w. (v.told t w, λ e. cc))

Event-Inv : {A : Type 0} {s u : Coroutines A} → Event s u → Inv s → Inv u
unfolding cancel
Event-Inv {s = s} (calls t e) v =
    Inv-set_op (set_place s t at_work false)
      (Inv-set_place s v t at_work false (λ e'. cc) (λ u at. ground arith)
        (λ b c. v.unset t (λ e'. cc) (λ e'. cc)) (λ w. cc))
      t fresh (λ e'. cc (put-same s.place t at_work)) (λ e'. cc (v.unused t e)) (λ b c. refl)
      (λ w. cc (put-same s.awaited t false))
Event-Inv {s = s} (cancels t called) v =
    Inv-set_op s v t (cancel (s.op t)) called (λ e. e) (v.unset t) (v.told t)
Event-Inv (ends t b o e ends' c) v =
    Inv-over v t _ b o (λ e'. cc) (λ e'. cc) c (λ w. absurd ((v.parted t w).0 e))
Event-Inv (finds_ready t u o e alive h) v =
    Inv-co_await v t u true o (resuming u) e alive h (inl refl)
Event-Inv (suspends t u o e alive h) v = Inv-co_await v t u false o (waits u) e alive h (inr refl)
Event-Inv {s = s} (throws_at_ready t u e o at alive h c) v =
    Inv-over v t true throws o (λ e'. cc) (λ e'. cc) c
      (λ w. complete-throws (s.op t) o (v.unset t (λ e'. cc) (λ e'. cc)) c)
Event-Inv (continues t u at alive h) v = Inv-resuming v t u at
Event-Inv (continues_early t u at h) v = Inv-resuming v t u at
Event-Inv {s = s} (goes_on t u r o at alive h g) v =
    absurd (cc (g, taken-await_resume (s.op u) (v.retrieved t u (inl at))))
Event-Inv {s = s} (throws_at_resume t u e o at alive h c) v =
    Inv-over v t _ throws o (λ e'. cc) (λ e'. cc) c
      (λ w. complete-throws (s.op t) o (v.unset t (λ e'. cc) (λ e'. cc)) c)
Event-Inv {s = s} (takes_future t o alive h) v =
    let (taken, same) = get_future-taken (s.op t) o h in
    Inv-set_op s v t o alive.0 (λ e. taken) (λ b c. same ∙ v.unset t b c)
      (λ w. subst IsTold (sym same) (v.told t w))
Event-Inv {s = s} (destroys t at) v =
    Inv-set_place s v t gone _ (λ e. cc) (λ u at'. ground arith) (λ b c. absurd (c refl))
      (λ w. (v.told t w, λ e. cc))

pub History-Inv : {A : Type 0} {s : Coroutines A} → History s → Inv s
History-Inv begin = record {
  unused = λ t e. refl;
  retrieved = λ t u at. ground arith;
  called = λ t u at e. ground arith;
  unset = λ t b c. refl;
  told = λ t w. cc;
  parted = λ t w. cc;
}
History-Inv (later r e) = Event-Inv e (History-Inv r)

abbrev holding : {A : Type 0} → Operation A → Expected A → Operation A
holding op r = record op { promise = record op.promise { result = some r } }

set_unless_cancelled-clear :
    {A : Type 0} (op : Operation A) (r : Expected A)
    → op.promise.result ≡ none
    → (o : Operation A) × (set_unless_cancelled op r ≡ done o)
unfolding set_value
set_unless_cancelled-clear op r clear = elim (Bool-cases op.cancelled) [
  | inl c ↦ (op, ground arith)
  | inr c ↦ (holding op r, ground arith)
]

complete-clear :
    {A : Type 0} (op : Operation A) (b : Body A)
    → op.promise.result ≡ none
    → (o : Operation A) × (complete op b ≡ done o)
unfolding complete return_expected return_value return_error unhandled_exception set_value
complete-clear op (returns_expected r) clear = set_unless_cancelled-clear op r clear
complete-clear op (returns_value a) clear = set_unless_cancelled-clear op (value a) clear
complete-clear op (returns_error e) clear = set_unless_cancelled-clear op (unexpected e) clear
complete-clear op throws clear =
    (holding op (unexpected (make_errc operation_canceled)), ground arith)
complete-clear op hangs clear = (op, refl)

-- Where a coroutine stands that has come to a `co_await`, and what its own operation holds there.
abbrev pub Fate : {A : Type 0} → Coroutines A → ℕ → Place → Type 0
Fate s t absent = ⊥
Fate s t at_work = ⊥
Fate s t over = IsTold (s.op t).promise.result
Fate s t gone = IsTold (s.op t).promise.result
Fate s t (waits u) = (s.op t).promise.result ≡ none
Fate s t (resuming u) =
    ((s.op t).promise.result ≡ none) × (await_resume (s.op u) ≡ raises future_already_retrieved)

Inv-Fate :
    {A : Type 0} {s : Coroutines A}
    → Inv s
    → (t : ℕ) → s.awaited t ≡ true
    → (p : Place) → s.place t ≡ p
    → Fate s t p
Inv-Fate v t w absent e = (v.parted t w).1 e
Inv-Fate v t w at_work e = (v.parted t w).0 e
Inv-Fate v t w over e = v.told t w
Inv-Fate v t w gone e = v.told t w
Inv-Fate v t w (waits u) e = v.unset t (λ e'. cc) (λ e'. cc)
Inv-Fate {s = s} v t w (resuming u) e =
    (v.unset t (λ e'. cc) (λ e'. cc), taken-await_resume (s.op u) (v.retrieved t u (inl e)))

-- Of coroutines that call, await and cancel one another, in any order of the threads' steps whose
-- effects are defined: one that has come to a `co_await` never gets behind it. It waits there, or
-- comes to an `await_resume`, which throws future_already_retrieved, and has no result; or it has
-- ended, and its operation holds nothing, or the error operation_canceled.
pub History-told :
    {A : Type 0} {s : Coroutines A}
    → History s
    → (t : ℕ) → s.awaited t ≡ true
    → Fate s t (s.place t)
History-told {s = s} h t w = Inv-Fate (History-Inv h) t w (s.place t) refl

-- Where a body ends, its promise takes the result, and does not throw that it has been satisfied.
History-complete :
    {A : Type 0} {s : Coroutines A}
    → History s
    → (t : ℕ) → s.place t ≡ at_work
    → (b : Body A) → (o : Operation A) × (complete (s.op t) b ≡ done o)
History-complete {s = s} h t at b =
    complete-clear (s.op t) b ((History-Inv h).unset t (λ e. cc) (λ e. cc))
