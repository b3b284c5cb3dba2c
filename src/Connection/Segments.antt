-- ===== src/Connection/Segments.antt =====
-- A message that the network delivers in pieces: which cuts `receive_raw_message` puts together again.
use pine_http.Prelude.{
  ◌≡◌, ◌≤◌, ◌<◌, ◌↔◌, sym, ap, ◌∙◌, List, [], ◌∷◌, ◌++◌, map, length, ltb, ltb→lt, ltb_false→le,
  arith, inl, inr, Bool-cases, append_assoc, append-nil, length-append, All,
}
use pine_http.Text.{Bytes}
use pine_http.Coroutine.{returns_value}
use pine_http.Connection.{received, chunk_size, receive_loop, receive_raw_message}
use pine_http.Connection.Receiving.{receive_loop-short, receive_loop-full}

abbrev pub joined : List Bytes → Bytes
joined [] = []
joined (piece ∷ pieces) = piece ++ joined pieces

-- What `recv` can give of a message: some bytes, and no more than the buffer holds.
abbrev pub IsPiece : Bytes → Type 0
IsPiece piece = (0 < length piece) × (length piece ≤ chunk_size)

-- Every piece fills the buffer, but the last does not.
abbrev pub OnlyLastShort : List Bytes → Type 0
OnlyLastShort [] = ⊥
OnlyLastShort (piece ∷ []) = length piece < chunk_size
OnlyLastShort (piece ∷ further ∷ pieces) =
    (length piece ≡ chunk_size) × OnlyLastShort (further ∷ pieces)

returned_injective : (a b : Bytes) → returns_value a ≡ returns_value b → a ≡ b
returned_injective a b e = cc

-- The message `before` and all the pieces behind it are returned.
abbrev IsWhole : Bytes → List Bytes → Type 0
IsWhole before pieces =
    receive_loop before (map received pieces) ≡ returns_value (before ++ joined pieces)

IsWhole-full :
    (before piece : Bytes) (pieces : List Bytes)
    → length piece ≡ chunk_size
    → IsWhole before (piece ∷ pieces) ↔ IsWhole (before ++ piece) pieces
IsWhole-full before piece pieces full =
    (λ h. sym more ∙ h ∙ ap returns_value (sym same), λ h. more ∙ h ∙ ap returns_value same)
  where
    more :
        receive_loop before (map received (piece ∷ pieces))
        ≡ receive_loop (before ++ piece) (map received pieces)
    more = receive_loop-full piece before (map received pieces) full

    same : (before ++ piece) ++ joined pieces ≡ before ++ (piece ++ joined pieces)
    same = append_assoc before piece (joined pieces)

-- A short piece with another one behind it cuts the message.
IsWhole-cut :
    (before piece further : Bytes) (pieces : List Bytes)
    → 0 < length piece
    → length piece < chunk_size
    → 0 < length further
    → IsWhole before (piece ∷ further ∷ pieces)
    → ⊥
IsWhole-cut before piece further pieces some' short more h = omega (
  arith,
  ap length (
      returned_injective (before ++ piece) (before ++ (piece ++ (further ++ joined pieces)))
        (sym (receive_loop-short piece before (map received (further ∷ pieces)) some' short) ∙ h)),
  length-append before piece,
  length-append before (piece ++ (further ++ joined pieces)),
  length-append piece (further ++ joined pieces),
  length-append further (joined pieces),
)

IsWhole-OnlyLastShort :
    (before : Bytes) (pieces : List Bytes)
    → All IsPiece pieces
    → IsWhole before pieces ↔ OnlyLastShort pieces
unfolding receive_loop
IsWhole-OnlyLastShort before [] h = (λ e. cc, λ e. absurd e)
IsWhole-OnlyLastShort before (piece ∷ []) h = elim (Bool-cases (ltb (length piece) chunk_size)) [
  | inl short ↦ (
    λ e. ltb→lt (length piece) chunk_size short,
    λ lt.
        receive_loop-short piece before [] h.0.0 lt
        ∙ ap (λ s. returns_value (before ++ s)) (sym (append-nil piece)),
  )
  | inr full ↦
      let all' = ltb_false→le (length piece) chunk_size full in
      (
        λ e. cc ((IsWhole-full before piece [] (omega (arith, h.0.1, all'))).0 e),
        λ lt. absurd (omega arith),
      )
]
IsWhole-OnlyLastShort before (piece ∷ further ∷ pieces) h =
    elim (Bool-cases (ltb (length piece) chunk_size)) [
      | inl short ↦
          let lt = ltb→lt (length piece) chunk_size short in
          (
            λ e. absurd (IsWhole-cut before piece further pieces h.0.0 lt h.1.0.0 e),
            λ only. absurd (omega (arith, only.0)),
          )
      | inr full ↦
          let all' : length piece ≡ chunk_size =
            omega (arith, h.0.1, ltb_false→le (length piece) chunk_size full) in
          let step = IsWhole-full before piece (further ∷ pieces) all' in
          let rest = IsWhole-OnlyLastShort (before ++ piece) (further ∷ pieces) h.1 in
          (λ e. (all', rest.0 (step.0 e)), λ only. step.1 (rest.1 only.1))
    ]

-- Of a message that `recv` gives in pieces, none of them empty or larger than the buffer, and behind
-- which nothing arrives: `receive_raw_message` returns all of the message exactly if every piece but
-- the last fills the buffer, and the last does not.
pub receive_raw_message-OnlyLastShort :
    (pieces : List Bytes)
    → All IsPiece pieces
    → (receive_raw_message (map received pieces) ≡ returns_value (joined pieces))
      ↔ OnlyLastShort pieces
unfolding receive_raw_message
receive_raw_message-OnlyLastShort = IsWhole-OnlyLastShort []
