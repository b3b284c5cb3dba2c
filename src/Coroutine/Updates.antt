-- ===== src/Coroutine/Updates.antt =====
-- What the steps of coroutines that await one another keep, and its updates.
use pine_http.Prelude.{
  put, put-elim, ℕ, ◌≡◌, ◌≢◌, ◌⊎◌, inl, inr, Bool, true, Option, none, some, ◌==◌, Bool-cases,
}
use pine_http.Errors.{Expected, unexpected, make_errc, operation_canceled}
use pine_http.Coroutine.{Operation, fresh}
use pine_http.Coroutine.Awaiting.{
  Place, absent, at_work, over, gone, waits, resuming, Coroutines, set_op, set_place,
}

-- What is told is nothing, or that the operation was cancelled.
abbrev pub IsTold : {A : Type 0} → Option (Expected A) → Type 0
IsTold r = (r ≡ none) ⊎ (r ≡ some (unexpected (make_errc operation_canceled)))

abbrev pub AtAwait : Place → ℕ → Type 0
AtAwait p u = (p ≡ resuming u) ⊎ (p ≡ waits u)

pub record Inv {A : Type 0} (s : Coroutines A) : Type 0 where
  pub unused : (t : ℕ) → s.place t ≡ absent → s.op t ≡ fresh
  pub retrieved : (t u : ℕ) → AtAwait (s.place t) u → (s.op u).promise.retrieved ≡ true
  pub called : (t u : ℕ) → AtAwait (s.place t) u → s.place u ≢ absent
  pub unset : (t : ℕ) → s.place t ≢ over → s.place t ≢ gone → (s.op t).promise.result ≡ none
  pub told : (t : ℕ) → s.awaited t ≡ true → IsTold (s.op t).promise.result
  pub parted : (t : ℕ) → s.awaited t ≡ true → (s.place t ≢ at_work) × (s.place t ≢ absent)

module _ {A : Type 0} (s : Coroutines A) (v : Inv s) where
  -- The operation of `t` changes: its future stays taken.
  pub Inv-set_op :
      (t : ℕ) (o : Operation A)
      → s.place t ≢ absent
      → ((s.op t).promise.retrieved ≡ true → o.promise.retrieved ≡ true)
      → (s.place t ≢ over → s.place t ≢ gone → o.promise.result ≡ none)
      → (s.awaited t ≡ true → IsTold o.promise.result)
      → Inv (set_op s t o)
  Inv-set_op t o here keeps clear tells = record {
    unused = λ i e.
        put-elim (λ o'. o' ≡ fresh) s.op t o i (λ same. absurd (here (rw same e))) (v.unused i e);
    retrieved = λ i u at.
        put-elim (λ o'. o'.promise.retrieved ≡ true) s.op t o u
          (λ same. keeps (rw same (v.retrieved i u at))) (v.retrieved i u at);
    called = v.called;
    unset = λ i b c.
        put-elim (λ o'. o'.promise.result ≡ none) s.op t o i (λ same. clear (rw same b) (rw same c))
          (v.unset i b c);
    told = λ i w.
        put-elim (λ o'. IsTold o'.promise.result) s.op t o i (λ same. tells (rw same w))
          (v.told i w);
    parted = v.parted;
  }

  -- The coroutine `t` goes to another place.
  pub Inv-set_place :
      (t : ℕ) (p : Place) (a : Bool)
      → p ≢ absent
      → ((u : ℕ) → AtAwait p u → ((s.op u).promise.retrieved ≡ true) × (s.place u ≢ absent))
      → (p ≢ over → p ≢ gone → (s.op t).promise.result ≡ none)
      → (a ≡ true → IsTold (s.op t).promise.result × (p ≢ at_work))
      → Inv (set_place s t p a)
  Inv-set_place t p a here taken clear tells = record {
    unused = λ i.
        put-elim (λ q. q ≡ absent → s.op i ≡ fresh) s.place t p i (λ same e. absurd (here e))
          (v.unused i);
    retrieved = λ i u.
        put-elim (λ q. AtAwait q u → (s.op u).promise.retrieved ≡ true) s.place t p i
          (λ same at. (taken u at).0) (v.retrieved i u);
    called = λ i u.
        put-elim (λ q. AtAwait q u → put s.place t p u ≢ absent) s.place t p i
          (λ same at. put-elim (λ q. q ≢ absent) s.place t p u (λ same. here) (taken u at).1)
          (λ at. put-elim (λ q. q ≢ absent) s.place t p u (λ same. here) (v.called i u at));
    unset = λ i.
        put-elim (λ q. q ≢ over → q ≢ gone → (s.op i).promise.result ≡ none) s.place t p i
          (λ same b c. rw (← same) (clear b c)) (v.unset i);
    told = λ i.
        put-elim (λ w. w ≡ true → IsTold (s.op i).promise.result) s.awaited t a i
          (λ same w. rw (← same) (tells w).0) (v.told i);
    parted = λ i. elim (Bool-cases (t == i)) [
      | inl same ↦ rw same (λ w. ((tells w).1, here))
      | inr other ↦ rw other (v.parted i)
    ];
  }
