-- ===== src/Connection/Pieces.antt =====
-- What `receive_raw_message` makes of any sequence of returns of `recv`: full buffers, and the first
-- return that is not one.
use pine_http.Prelude.{
  Bool, false, leb, lt→ltb, le→ltb_false, ne→==_false, List, [], ◌∷◌, ◌++◌, ◌≡◌, refl, ap, ◌∙◌, inl,
  inr, arith, length, ◌==◌, append_assoc, append-nil, if◌then◌else◌, Bool-cases,
}
use pine_http.Text.{Bytes}
use pine_http.Errors.{make_errc, connection_reset}
use pine_http.Coroutine.{Body, returns_value, returns_error, hangs}
use pine_http.Connection.{Recv, received, recv_error, chunk_size, receive_loop, receive_raw_message}

-- A return that fills the buffer.
abbrev pub is_full : Recv → Bool
is_full (received bytes) = leb chunk_size (length bytes)
is_full (recv_error code) = false

-- The bytes of the full buffers at the front, and the returns behind them.
abbrev pub full_bytes : List Recv → Bytes
full_bytes [] = []
full_bytes (recv_error code ∷ later) = []
full_bytes (received bytes ∷ later) =
    if is_full (received bytes) then bytes ++ full_bytes later else []

abbrev pub behind_full : List Recv → List Recv
behind_full [] = []
behind_full (recv_error code ∷ later) = recv_error code ∷ later
behind_full (received bytes ∷ later) =
    if is_full (received bytes) then behind_full later else received bytes ∷ later

-- How a message ends, of which some full buffers have been received.
abbrev pub ending : Bytes → List Recv → Body Bytes
ending message [] = hangs
ending message (recv_error code ∷ later) = returns_error (make_errc code)
ending message (received [] ∷ later) = returns_error (make_errc connection_reset)
ending message (received (c ∷ cs) ∷ later) = returns_value (message ++ (c ∷ cs))

receive_loop-ending :
    (message : Bytes) (returned : List Recv)
    → receive_loop message returned ≡ ending (message ++ full_bytes returned) (behind_full returned)
unfolding receive_loop
receive_loop-ending message [] = refl
receive_loop-ending message (recv_error code ∷ later) = refl
receive_loop-ending message (received [] ∷ later) = refl
receive_loop-ending message (received (c ∷ cs) ∷ later) =
    elim (Bool-cases (leb chunk_size (length (c ∷ cs)))) [
      | inl full ↦
          rw (not_empty, full, le→ltb_false (length (c ∷ cs)) chunk_size (ground arith))
            (receive_loop-ending (message ++ (c ∷ cs)) later
              ∙ ap (λ m. ending m (behind_full later))
                  (append_assoc message (c ∷ cs) (full_bytes later)))
      | inr short ↦
          rw (
            not_empty,
            short,
            lt→ltb (length (c ∷ cs)) chunk_size (ground arith),
            append-nil message,
          )
    ]
  where
    not_empty : (length (c ∷ cs) == 0) ≡ false
    not_empty = ne→==_false (length (c ∷ cs)) 0 (omega arith)

-- Whatever `recv` returns, call after call: the message is the bytes of the full buffers at the front
-- and of the first return behind them, if this is a shorter piece that is not empty. If it is empty,
-- or an error, the call returns an error, and what it has received is lost. If there is none, it
-- waits.
pub receive_raw_message-ending :
    (returned : List Recv)
    → receive_raw_message returned ≡ ending (full_bytes returned) (behind_full returned)
unfolding receive_raw_message
receive_raw_message-ending = receive_loop-ending []
