-- ===== src/Coroutine/Cancelled.antt =====
-- What becomes of a coroutine that waits for an operation when both have been cancelled.
use pine_http.Prelude.{ℕ, ◌≡◌, ◌≢◌, ◌⊎◌, inl, inr, sym, ◌∙◌, ap, true, none, arith}
use pine_http.Coroutine.{Operation}
use pine_http.Coroutine.Told.{History-Inv}
use pine_http.Coroutine.Awaiting.{Place, absent, gone, waits, Coroutines, Event, History}
use pine_http.Coroutine.Effects.{Runs, Moved, Changed, Event-effect}

-- What steps lead to.
pub data Leads {A : Type 0} (s : Coroutines A) : Coroutines A → Type 0 where
  stays : Leads s s
  goes : {u w : Coroutines A} → Leads s u → Event u w → Leads s w

-- `t` waits for `u` or is destroyed, without a result.
record IsStuck {A : Type 0} (t u : ℕ) (s : Coroutines A) : Type 0 where
  place : (s.place t ≡ waits u) ⊎ (s.place t ≡ gone)
  called : s.place u ≢ absent
  own_flag : (s.op t).cancelled ≡ true
  flag : (s.op u).cancelled ≡ true
  result : (s.op t).promise.result ≡ none

suspended : {A : Type 0} {t u : ℕ} {s : Coroutines A} → IsStuck t u s → Runs (s.place t) → ⊥
suspended k r = ground (arith, k.place, r)

module _ {A : Type 0} {t u : ℕ} {s : Coroutines A} (k : IsStuck t u s) where
  Moved-suspended : (p : Place) → Moved s t p → (p ≡ waits u) ⊎ (p ≡ gone)
  Moved-suspended p (inl same) = elim k.place [
    | inl at ↦ inl (same ∙ at)
    | inr at ↦ inr (same ∙ at)
  ]
  Moved-suspended p (inr (inl left)) = inr left
  Moved-suspended p (inr (inr (inl (r, here)))) = absurd (suspended k r)
  Moved-suspended p (inr (inr (inr (v, at, to, inl off)))) =
      absurd (ground (arith, k.place, ap (λ j. (s.op j).cancelled) (same_wait at), k.flag))
    where
      same_wait : s.place t ≡ waits v → v ≡ u
      same_wait at = ground (arith, k.place)
  Moved-suspended p (inr (inr (inr (v, at, to, inr off)))) = absurd (cc (off, k.own_flag))

  Moved-called : (p : Place) → Moved s u p → p ≢ absent
  Moved-called p (inl same) = λ x. k.called (sym same ∙ x)
  Moved-called p (inr (inl left)) = λ x. cc
  Moved-called p (inr (inr (inl (r, here)))) = here
  Moved-called p (inr (inr (inr (v, at, to, off)))) = λ x. cc

  Changed-result : (o : Operation A) → Changed s t o → o.promise.result ≡ none
  Changed-result o (keeps, inl same) = same ∙ k.result
  Changed-result o (keeps, inr r) = absurd (suspended k r)

Event-IsStuck :
    {A : Type 0} {t u : ℕ} {s w : Coroutines A} → IsStuck t u s → Event s w → IsStuck t u w
Event-IsStuck {t = t} {u} {s} {w} k e =
    let (moved, changed) = Event-effect s t (λ x. ground (arith, k.place)) e in
    let (moved_u, changed_u) = Event-effect s u k.called e in
    record {
      place = Moved-suspended k (w.place t) moved;
      called = Moved-called k (w.place u) moved_u;
      own_flag = changed.0 k.own_flag;
      flag = changed_u.0 k.flag;
      result = Changed-result k (w.op t) changed;
    }

Leads-IsStuck :
    {A : Type 0} {t u : ℕ} {s w : Coroutines A} → IsStuck t u s → Leads s w → IsStuck t u w
Leads-IsStuck k stays = k
Leads-IsStuck k (goes l e) = Event-IsStuck (Leads-IsStuck k l) e

-- A coroutine that waits for an operation when both of them have been cancelled, after any defined
-- steps of coroutines that await one another: whatever steps follow, it is suspended there or its
-- frame is destroyed, and its own operation never has a result.
pub Leads-cancelled :
    {A : Type 0} {s w : Coroutines A} (t u : ℕ)
    → History s
    → s.place t ≡ waits u
    → (s.op t).cancelled ≡ true
    → (s.op u).cancelled ≡ true
    → Leads s w
    → ((w.place t ≡ waits u) ⊎ (w.place t ≡ gone)) × ((w.op t).promise.result ≡ none)
Leads-cancelled {s = s} t u h at own flag l =
    let v = History-Inv h in
    let k =
      Leads-IsStuck {t = t} {u = u} {s = s}
        record {
          place = inl at;
          called = v.called t u (inr at);
          own_flag = own;
          flag = flag;
          result = v.unset t (λ e. cc) (λ e. cc);
        }
        l in
    (k.place, k.result)
