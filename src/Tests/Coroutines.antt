-- ===== src/Tests/Coroutines.antt =====
-- Runs of two coroutines: the second awaits the first, which has ended or not.
use pine_http.Prelude.{◌⊎◌, ℕ, ◌≡◌, refl, true, false, none}
use pine_http.Coroutine.{
  Operation, fresh, raises, returns_value, complete, await_ready, cancel, await_resume,
  future_already_retrieved, call,
}
use pine_http.Coroutine.Awaiting.{
  suspends, cancels, waits, gone, Coroutines, absent, at_work, over, resuming, set_op, set_place,
  History, begin, later, calls, ends, finds_ready,
}
use pine_http.Coroutine.Told.{History-told}
use pine_http.Coroutine.Cancelled.{Leads, stays, goes, Leads-cancelled}

abbrev none_called : Coroutines ℕ
none_called = record { op = λ t. fresh; place = λ t. absent; awaited = λ t. false }

-- The first is called, and returns 3.
abbrev first_called : Coroutines ℕ
first_called = set_op (set_place none_called 0 at_work false) 0 fresh

abbrev first_over : Coroutines ℕ
first_over = set_op (set_place first_called 0 over false) 0 (call (returns_value 3))

-- The second is called, and comes to its `co_await`.
abbrev both_called : Coroutines ℕ
both_called = set_op (set_place first_over 1 at_work false) 1 fresh

abbrev looked_at : Operation ℕ
looked_at = record (call (returns_value 3)) {
  promise = record (call (returns_value 3)).promise { retrieved = true };
}

abbrev at_resume : Coroutines ℕ
at_resume = set_place (set_op both_called 0 looked_at) 1 (resuming 0) true

History-both_called : History both_called
unfolding complete call
History-both_called =
    later (later (later begin (calls 0 refl)) (ends 0 (returns_value 3) _ refl (λ e. cc) refl))
      (calls 1 refl)

History-at_resume : History at_resume
unfolding await_ready call
History-at_resume =
    later History-both_called (finds_ready 1 0 looked_at refl (λ e. cc, λ e. cc) refl)

History-told_example :
    ((at_resume.op 1).promise.result ≡ none)
    × (await_resume (at_resume.op 0) ≡ raises future_already_retrieved)
History-told_example = History-told History-at_resume 1 refl

-- The second comes to its `co_await` before the first has ended, and both are cancelled.
abbrev both_at_work : Coroutines ℕ
both_at_work = set_op (set_place first_called 1 at_work false) 1 fresh

abbrev asked_early : Operation ℕ
asked_early = record fresh { promise = record fresh.promise { retrieved = true } }

abbrev second_waits : Coroutines ℕ
second_waits = set_place (set_op both_at_work 0 asked_early) 1 (waits 0) true

abbrev both_cancelled : Coroutines ℕ
both_cancelled = set_op (set_op second_waits 1 (cancel (second_waits.op 1))) 0 (cancel asked_early)

-- Then the first ends.
abbrev first_ends : Coroutines ℕ
first_ends = set_op (set_place both_cancelled 0 over false) 0 (cancel asked_early)

History-both_cancelled : History both_cancelled
unfolding await_ready cancel
History-both_cancelled =
    later
      (later
        (later (later (later begin (calls 0 refl)) (calls 1 refl))
          (suspends 1 0 asked_early refl (λ e. cc, λ e. cc) refl))
        (cancels 1 (λ e. cc)))
      (cancels 0 (λ e. cc))

Leads-first_ends : Leads both_cancelled first_ends
unfolding complete cancel
Leads-first_ends = goes stays (ends 0 (returns_value 3) (cancel asked_early) refl (λ e. cc) refl)

own_flag : (both_cancelled.op 1).cancelled ≡ true
unfolding cancel
own_flag = refl

flag : (both_cancelled.op 0).cancelled ≡ true
unfolding cancel
flag = refl

Leads-cancelled_example :
    ((first_ends.place 1 ≡ waits 0) ⊎ (first_ends.place 1 ≡ gone))
    × ((first_ends.op 1).promise.result ≡ none)
Leads-cancelled_example =
    Leads-cancelled 1 0 History-both_cancelled refl own_flag flag Leads-first_ends
