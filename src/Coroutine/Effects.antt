-- ===== src/Coroutine/Effects.antt =====
-- What a step of coroutines that await one another does to one of them.
use pine_http.Prelude.{
  ℕ, ◌≡◌, ◌≢◌, ◌⊎◌, inl, inr, refl, sym, subst, ◌∙◌, ap, Bool, true, false, put, put-elim,
}
use pine_http.Coroutine.{
  Operation, done, fresh, cancel, get_future, await_ready, Body, throws, complete,
}
use pine_http.Coroutine.Attempts.{
  get_future-taken, await_ready-taken, get_future-cancelled, await_ready-cancelled,
  complete-cancelled,
}
use pine_http.Coroutine.Awaiting.{
  Place, absent, at_work, over, gone, waits, resuming, Coroutines, Event, calls, cancels, ends,
  finds_ready, suspends, throws_at_ready, continues, continues_early, goes_on, throws_at_resume,
  takes_future, destroys,
}

abbrev pub Runs : Place → Type 0
Runs p = (p ≡ at_work) ⊎ ((u : ℕ) × (p ≡ resuming u))

-- How a coroutine that is suspended may go on: another comes to its `await_resume` only while one of
-- the two is not cancelled.
abbrev pub Moved : {A : Type 0} → Coroutines A → ℕ → Place → Type 0
Moved s i p =
    (p ≡ s.place i)
    ⊎ (p ≡ gone)
    ⊎ (Runs (s.place i) × (p ≢ absent))
    ⊎ ((u : ℕ) × (s.place i ≡ waits u)
        × (p ≡ resuming u)
        × (((s.op u).cancelled ≡ false) ⊎ ((s.op i).cancelled ≡ false)))

-- The flag stays set, and the result is set by what runs only.
abbrev pub Changed : {A : Type 0} → Coroutines A → ℕ → Operation A → Type 0
Changed s i o =
    ((s.op i).cancelled ≡ true → o.cancelled ≡ true)
    × ((o.promise.result ≡ (s.op i).promise.result) ⊎ Runs (s.place i))

module _ {A : Type 0} (s : Coroutines A) (i : ℕ) where
  Moved-put : (t : ℕ) (p : Place) → Moved s t p → Moved s i (put s.place t p i)
  Moved-put t p m =
      put-elim (Moved s i) s.place t p i (λ same. subst (λ j. Moved s j p) same m) (inl refl)

  Changed-put : (t : ℕ) (o : Operation A) → Changed s t o → Changed s i (put s.op t o i)
  Changed-put t o c =
      put-elim (Changed s i) s.op t o i (λ same. subst (λ j. Changed s j o) same c)
        (λ f. f, inl refl)

  runs : (t : ℕ) (p : Place) → Runs (s.place t) → p ≢ absent → Moved s i (put s.place t p i)
  runs t p r here = Moved-put t p (inr (inr (inl (r, here))))

  ended :
      (t : ℕ) (b : Body A) (o : Operation A)
      → Runs (s.place t)
      → complete (s.op t) b ≡ done o
      → Changed s i (put s.op t o i)
  ended t b o r c = Changed-put t o (λ f. complete-cancelled (s.op t) o b c ∙ f, inr r)

  awaited_at :
      (u : ℕ) (ready : Bool) (o : Operation A)
      → await_ready (s.op u) ≡ done (ready, o)
      → Changed s i (put s.op u o i)
  awaited_at u ready o h = Changed-put u o (
    λ f. await_ready-cancelled (s.op u) o ready h ∙ f,
    inl (await_ready-taken (s.op u) o ready h).1,
  )

  taken : (t : ℕ) (o : Operation A) → get_future (s.op t) ≡ done o → Changed s i (put s.op t o i)
  taken t o g =
      Changed-put t o
        (λ f. get_future-cancelled (s.op t) o g ∙ f, inl (get_future-taken (s.op t) o g).1)

  pub Event-effect :
      {w : Coroutines A}
      → s.place i ≢ absent
      → Event s w
      → Moved s i (w.place i) × Changed s i (w.op i)
  unfolding cancel
  Event-effect here (calls t e) = (
    put-elim (Moved s i) s.place t at_work i (λ same. absurd (here (ap s.place (sym same) ∙ e)))
        (inl refl),
    put-elim (Changed s i) s.op t fresh i (λ same. absurd (here (ap s.place (sym same) ∙ e)))
        (λ f. f, inl refl),
  )
  Event-effect here (cancels t c) =
      (inl refl, Changed-put t (cancel (s.op t)) (λ f. refl, inl refl))
  Event-effect here (ends t b o e b' c) = (runs t over (inl e) (λ x. cc), ended t b o (inl e) c)
  Event-effect here (finds_ready t u o e l h) =
      (runs t (resuming u) (inl e) (λ x. cc), awaited_at u true o h)
  Event-effect here (suspends t u o e l h) =
      (runs t (waits u) (inl e) (λ x. cc), awaited_at u false o h)
  Event-effect here (throws_at_ready t u e o at l h c) =
      (runs t over (inl at) (λ x. cc), ended t throws o (inl at) c)
  Event-effect here (continues t u at l c) =
      (Moved-put t (resuming u) (inr (inr (inr (u, at, refl, inl c)))), (λ f. f, inl refl))
  Event-effect here (continues_early t u at c) =
      (Moved-put t (resuming u) (inr (inr (inr (u, at, refl, inr c)))), (λ f. f, inl refl))
  Event-effect here (goes_on t u r o at l g h) =
      (runs t at_work (inr (u, at)) (λ x. cc), taken u o g)
  Event-effect here (throws_at_resume t u e o at l h c) =
      (runs t over (inr (u, at)) (λ x. cc), ended t throws o (inr (u, at)) c)
  Event-effect here (takes_future t o l g) = (inl refl, taken t o g)
  Event-effect here (destroys t at) = (Moved-put t gone (inr (inl refl)), (λ f. f, inl refl))
