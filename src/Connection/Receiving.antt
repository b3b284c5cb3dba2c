-- ===== src/Connection/Receiving.antt =====
-- Which message `receive_raw_message` puts together from the pieces that `recv` returns.
use pine_http.Prelude.{
  ℕ, zero, suc, ◌-◌, ◌%◌, ◌≤◌, ◌<◌, ◌≡◌, ◌≢◌, refl, ap, sym, ◌∙◌, List, [], ◌∷◌, ◌++◌, arith,
  length, ◌==◌, if◌then◌else◌, append_assoc, take, drop, take-all, length-drop, length-take_full,
  take-append-drop, append-nil, ne→==_false, lt→ltb, dec_lt,
}
use pine_http.Text.{Bytes}
use pine_http.Errors.{make_errc, connection_reset}
use pine_http.Coroutine.{Body, returns_value, returns_error, hangs}
use pine_http.Connection.{Recv, received, chunk_size, receive_loop, receive_raw_message}

-- One buffer of a text, and the rest of it.
front : Bytes → Bytes
front s = take chunk_size s

back : Bytes → Bytes
back s = drop chunk_size s

front-short : (s : Bytes) → length s ≤ chunk_size → front s ≡ s
unfolding front
front-short s h = take-all chunk_size s h

length-front : (s : Bytes) → chunk_size ≤ length s → length (front s) ≡ chunk_size
unfolding front
length-front s h = length-take_full chunk_size s h

length-back : (s : Bytes) → length (back s) ≡ length s - chunk_size
unfolding back
length-back s = length-drop chunk_size s

front-back : (s : Bytes) → front s ++ back s ≡ s
unfolding front back
front-back s = take-append-drop chunk_size s

-- What `recv` returns for a message that lies ready: buffer after buffer. The fuel bounds their
-- number.
unfoldable pub deliveries_fuel : ℕ → Bytes → List Recv
unfolding front back
deliveries_fuel zero message = []
deliveries_fuel (suc fuel) [] = []
deliveries_fuel (suc fuel) (c ∷ cs) =
    received (front (c ∷ cs)) ∷ deliveries_fuel fuel (back (c ∷ cs))

-- A message has no more buffers than bytes.
abbrev pub deliveries : Bytes → List Recv
deliveries message = deliveries_fuel (length message) message

deliveries_fuel-suc :
    (fuel : ℕ) (s : Bytes)
    → 0 < length s
    → deliveries_fuel (suc fuel) s ≡ received (front s) ∷ deliveries_fuel fuel (back s)
unfolding deliveries_fuel
deliveries_fuel-suc fuel [] h = elim h [ ]
deliveries_fuel-suc fuel (c ∷ cs) h = refl

deliveries_fuel-nil : (fuel : ℕ) → deliveries_fuel fuel [] ≡ []
unfolding deliveries_fuel
deliveries_fuel-nil zero = refl
deliveries_fuel-nil (suc fuel) = refl

module _ (bytes before : Bytes) (later : List Recv) where
  -- A short buffer ends the message.
  pub receive_loop-short :
      0 < length bytes
      → length bytes < chunk_size
      → receive_loop before (received bytes ∷ later) ≡ returns_value (before ++ bytes)
  unfolding receive_loop
  receive_loop-short h h' =
      rw (ne→==_false (length bytes) 0 (omega arith), lt→ltb (length bytes) chunk_size h')

  -- A full one does not.
  pub receive_loop-full :
      length bytes ≡ chunk_size
      → receive_loop before (received bytes ∷ later) ≡ receive_loop (before ++ bytes) later
  unfolding receive_loop
  receive_loop-full h = rw h

-- What becomes of a message of which `before` has been received: it is returned, unless its length
-- is a multiple of the buffer's; then the loop goes on.
abbrev pub after_message : Bytes → Bytes → List Recv → Body Bytes
after_message s before later =
    if length s % chunk_size == 0
    then receive_loop (before ++ s) later
    else returns_value (before ++ s)

after_message-short :
    (s before : Bytes) (later : List Recv)
    → 0 < length s
    → length s < chunk_size
    → after_message s before later ≡ returns_value (before ++ s)
after_message-short s before later h h' = rw (ne→==_false (length s % chunk_size) 0 (omega arith))

after_message-full :
    (s before : Bytes) (later : List Recv)
    → chunk_size ≤ length s
    → after_message (back s) (before ++ front s) later ≡ after_message s before later
after_message-full s before later h = rw (append_assoc, front-back, same)
  where
    same : length (back s) % chunk_size ≡ length s % chunk_size
    same = omega (arith, length-back s)

-- The message is put together for every text up to the fuel.
abbrev Receives : ℕ → Type 0
Receives fuel =
    (s before : Bytes) (later : List Recv)
    → length s ≤ fuel
    → receive_loop before (deliveries_fuel fuel s ++ later) ≡ after_message s before later

Receives-suc :
    (fuel : ℕ)
    → Receives fuel
    → (s before : Bytes) (later : List Recv) → 0 < length s
    → length s ≤ suc fuel
    → receive_loop before (deliveries_fuel (suc fuel) s ++ later) ≡ after_message s before later
Receives-suc fuel ih s before later pos bound = elim (dec_lt (length s) chunk_size) [
  | yes short ↦
      rw (deliveries_fuel-suc fuel s pos, front-short s (omega arith))
        (receive_loop-short s before _ pos short
          ∙ sym (after_message-short s before later pos short))
  | no full ↦ rw (deliveries_fuel-suc fuel s pos) (
      receive_loop-full (front s) before _ (length-front s (omega arith))
      ∙ ih (back s) (before ++ front s) later (omega (arith, length-back s))
      ∙ after_message-full s before later (omega arith))
]

receive_loop-deliveries : (fuel : ℕ) → Receives fuel
receive_loop-deliveries fuel [] before later h = rw (deliveries_fuel-nil, append-nil)
receive_loop-deliveries zero (c ∷ cs) before later h = absurd (omega arith)
receive_loop-deliveries (suc fuel) (c ∷ cs) before later h =
    Receives-suc fuel (receive_loop-deliveries fuel) (c ∷ cs) before later (omega arith) h

-- The message of `receive_raw_message`, whatever follows it.
receive_raw_message-after :
    (message : Bytes) (later : List Recv)
    → receive_raw_message (deliveries message ++ later) ≡ after_message message [] later
unfolding receive_raw_message
receive_raw_message-after message later =
    receive_loop-deliveries (length message) message [] later (omega arith)

-- A message whose length is no multiple of 1024, and which arrives in buffers of 1024 bytes and a
-- shorter one, is received whole and in order, whatever follows it.
pub receive_raw_message-deliveries :
    (message : Bytes) (later : List Recv)
    → length message % chunk_size ≢ 0
    → receive_raw_message (deliveries message ++ later) ≡ returns_value message
receive_raw_message-deliveries message later h =
    receive_raw_message-after message later ∙ rw (ne→==_false (length message % chunk_size) 0 h)

-- A message whose length is a multiple of 1024 is not returned when it has arrived: the connection
-- waits for more; and if the peer closes then, the whole message is lost to the error
-- connection_reset.
receive_raw_message-multiple :
    (message : Bytes)
    → length message % chunk_size ≡ 0
    → (receive_raw_message (deliveries message) ≡ hangs)
      × (receive_raw_message (deliveries message ++ (received [] ∷ []))
          ≡ returns_error (make_errc connection_reset))
receive_raw_message-multiple message h = (
  ap receive_raw_message (sym (append-nil (deliveries message)))
      ∙ receive_raw_message-after message []
      ∙ rw h (unfold receive_loop in refl),
  receive_raw_message-after message (received [] ∷ []) ∙ rw h (unfold receive_loop in refl),
)
