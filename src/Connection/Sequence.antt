-- ===== src/Connection/Sequence.antt =====
-- Messages that arrive over one connection, one after the other.
use pine_http.Prelude.{
  ◌≡◌, refl, sym, ap, ◌∙◌, List, [], ◌∷◌, ◌++◌, map, length, All, append_assoc, append-nil, arith,
  lt→ltb, le→ltb_false,
}
use pine_http.Text.{Bytes}
use pine_http.Coroutine.{returns_value}
use pine_http.Connection.{
  Recv, received, chunk_size, receive_loop, receive_raw_message, receive_rest, receive_times,
}
use pine_http.Connection.Receiving.{receive_loop-short, receive_loop-full}
use pine_http.Connection.Segments.{joined, IsPiece, OnlyLastShort}

-- What arrives of some messages, each in its pieces.
abbrev pub arriving : List (List Bytes) → List Recv → List Recv
arriving [] later = later
arriving (pieces ∷ messages) later = map received pieces ++ arriving messages later

receive_loop-pieces :
    (before : Bytes) (pieces : List Bytes) (later : List Recv)
    → All IsPiece pieces
    → OnlyLastShort pieces
    → receive_loop before (map received pieces ++ later) ≡ returns_value (before ++ joined pieces)
receive_loop-pieces before [] later h only = absurd only
receive_loop-pieces before (piece ∷ []) later h only =
    receive_loop-short piece before later h.0.0 only
    ∙ ap (λ s. returns_value (before ++ s)) (sym (append-nil piece))
receive_loop-pieces before (piece ∷ further ∷ pieces) later h only =
    receive_loop-full piece before (map received (further ∷ pieces) ++ later) only.0
    ∙ receive_loop-pieces (before ++ piece) (further ∷ pieces) later h.1 only.1
    ∙ ap returns_value (append_assoc before piece (joined (further ∷ pieces)))

receive_rest-pieces :
    (pieces : List Bytes) (later : List Recv)
    → OnlyLastShort pieces
    → receive_rest (map received pieces ++ later) ≡ later
unfolding receive_rest
receive_rest-pieces [] later only = absurd only
receive_rest-pieces (piece ∷ []) later only = rw (lt→ltb (length piece) chunk_size only)
receive_rest-pieces (piece ∷ further ∷ pieces) later only =
    rw (le→ltb_false (length piece) chunk_size (omega (arith, only.0)))
      (receive_rest-pieces (further ∷ pieces) later only.1)

-- Of messages that arrive one after the other, each in pieces of which all but the last fill the
-- buffer and the last does not: so many calls of `receive_raw_message` return the messages, whole and
-- in their order, and leave what arrives behind them.
pub receive_times-messages :
    (messages : List (List Bytes)) (later : List Recv)
    → All (All IsPiece) messages
    → All OnlyLastShort messages
    → receive_times (length messages) (arriving messages later)
      ≡ (map (λ pieces. returns_value (joined pieces)) messages, later)
unfolding receive_times receive_raw_message
receive_times-messages [] later h only = refl
receive_times-messages (pieces ∷ messages) later h only = rw (
  receive_loop-pieces [] pieces (arriving messages later) h.0 only.0,
  receive_rest-pieces pieces (arriving messages later) only.0,
  receive_times-messages messages later h.1 only.1,
)
