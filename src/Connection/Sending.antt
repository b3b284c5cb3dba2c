-- ===== src/Connection/Sending.antt =====
-- When `send_raw_message` reports success.
use pine_http.Prelude.{
  ℕ, ◌≡◌, ◌≢◌, ◌≤◌, ◌<◌, ◌^◌, ◌%◌, ◌⊎◌, ◌↔◌, inl, inr, refl, Option, none, some, [], ◌∷◌, arith,
  length, ltb→lt, ap, ◌==◌, ltb, Bool-cases, ==_iff,
}
use pine_http.Text.{Bytes}
use pine_http.Errors.{make_error_code, success}
use pine_http.Coroutine.{returns_error, hangs}
use pine_http.Connection.{Send, sent, send_error, send_length, send_raw_message}

-- What is documented of `send`, called with a length: it takes no more bytes than that, so that with a
-- negative length it can only fail.
abbrev pub Obeys : Option ℕ → Send → Type 0
Obeys requested (send_error code) = Unit {0}
Obeys (some n) (sent taken) = taken ≤ n
Obeys none (sent taken) = ⊥

-- A call that takes all of a message was given its true length.
Obeys-short : (size : ℕ) → Obeys (send_length size) (sent size) → size < 2 ^ 31
unfolding send_length
Obeys-short size h = elim (Bool-cases (ltb (size % 2 ^ 32) (2 ^ 31))) [
  | inl fits ↦
      let whole : size ≤ size % 2 ^ 32 = rw fits at h in
      omega (arith, ltb→lt (size % 2 ^ 32) (2 ^ 31) fits)
  | inr negative ↦ elim (rw negative at h) [ ]
]

-- If `send` does as is documented (Obeys): `send_raw_message` reports success exactly if the message
-- is empty, or it is shorter than 2 ^ 31 bytes and `send` has taken all of it. So it never does for
-- a longer message, whose size does not fit the length of `send`.
pub send_raw_message-success :
    (message : Bytes) (outcome : Send)
    → Obeys (send_length (length message)) outcome
    → (send_raw_message message outcome ≡ returns_error (make_error_code success))
      ↔ ((message ≡ []) ⊎ ((outcome ≡ sent (length message)) × (length message < 2 ^ 31)))
unfolding send_raw_message make_error_code
send_raw_message-success [] outcome h = (λ e. inl refl, λ s. refl)
send_raw_message-success (c ∷ cs) (send_error code) h = (λ e. inl (ground arith), λ s. ground arith)
send_raw_message-success (c ∷ cs) (sent n) h = elim (Bool-cases (n == length (c ∷ cs))) [
  | inl all ↦
      let whole : n ≡ length (c ∷ cs) = (==_iff n (length (c ∷ cs))).0 all in
      let short = Obeys-short (length (c ∷ cs)) (rw whole at h) in
      (λ e. inr (ap sent whole, short), λ s. rw all refl)
  | inr part ↦ (λ e. ground arith, λ s. ground arith)
]

-- Sending ends, whatever `send` returns.
pub send_raw_message-ends :
    (message : Bytes) (outcome : Send) → send_raw_message message outcome ≢ hangs
unfolding send_raw_message
send_raw_message-ends [] outcome e = cc
send_raw_message-ends (c ∷ cs) (send_error code) e = cc
send_raw_message-ends (c ∷ cs) (sent n) e = ground arith
