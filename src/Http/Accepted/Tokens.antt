-- ===== src/Http/Accepted/Tokens.antt =====
-- How far the parsers of tokens and of URIs read.
use pine_http.Prelude.{
  ℕ, ◌+◌, ◌-◌, ◌^◌, ◌≤◌, ◌<◌, ◌≡◌, refl, ap, List, [], ◌∷◌, Option, none, some, arith, length, leb,
  leb→le, ◌==◌, drop, take, length-drop, length-take_full, inl, inr, Bool-cases, Option-cases, All,
}
use pine_http.Text.{Bytes, starts_with, find, at}
use pine_http.Text.Bounds.{find_bounds, starts_with-le, substr_from_in_range, substr_from_beyond}
use pine_http.Errors.{Error}
use pine_http.Http.Scan.{got}
use pine_http.Http.Utils.{try_get_token, uri_to, try_get_uri}
use pine_http.Http.Accepted.{got_injective, substr-between}

-- A token is read by the length of its name, within the text.
pub try_get_token-length :
    {A : Type 0} (name : A → Bytes) (table : List (A × Bytes)) (e : Error) (text : Bytes) (o : ℕ)
    (a : A) (o' : ℕ)
    → All (λ entry. entry.1 ≡ name entry.0) table
    → try_get_token table e text o ≡ got a o'
    → (o' ≡ o + length (name a)) × (o' ≤ length text)
unfolding try_get_token
try_get_token-length name [] e text o a o' named h = cc
try_get_token-length name ((b, t) ∷ table) e text o a o' named h =
    elim (Bool-cases (leb o (length text))) [
      | inr beyond ↦ cc (rw (substr_from_beyond text o (ground arith)) at h)
      | inl inside ↦
          let within = leb→le o (length text) inside in
          let cut = substr_from_in_range text o within in
          elim (Bool-cases (starts_with t (drop o text))) [
            | inr there ↦
                try_get_token-length name table e text o a o' named.1 (rw (cut, there) at h)
            | inl here ↦
                let (same, end) = got_injective b a (o + length t) o' (rw (cut, here) at h) in
                (
                  omega (arith, ap (λ x. length (name x)) same, ap length named.0),
                  omega (arith, starts_with-le t (drop o text) here, length-drop o text),
                )
          ]
    ]

uri_to-length :
    (text : Bytes) (o : ℕ) (u : Bytes) (o' : ℕ)
    → length text < 2 ^ 64
    → (end : Option ℕ) → find (b' ' ∷ []) text o ≡ end
    → uri_to text o end ≡ got u o'
    → (o' ≡ o + length u) × (o' ≤ length text)
unfolding uri_to
uri_to-length text o u o' fits none at_end h = cc
uri_to-length text o u o' fits (some e) at_end h =
    let (behind, within) = find_bounds (b' ' ∷ []) text o e at_end in
    let (same, end) =
      got_injective (take (e - o) (drop o text)) u e o'
        (rw (substr-between text o e behind (omega arith) fits) at h) in
    (
      omega (
        arith,
        ap length same,
        length-take_full (e - o) (drop o text) (omega (arith, length-drop o text)),
      ),
      omega arith,
    )

-- A URI is read by its length, within the text.
pub try_get_uri-length :
    (text : Bytes) (o : ℕ) (u : Bytes) (o' : ℕ)
    → length text < 2 ^ 64
    → try_get_uri text o ≡ got u o'
    → (o' ≡ o + length u) × (o' ≤ length text)
unfolding try_get_uri uri_to
try_get_uri-length text o u o' fits h = elim (Option-cases (at text o)) [
  | inl past ↦ cc (rw past at h)
  | inr (c, here) ↦ elim (Bool-cases (c == b'/')) [
    | inr other ↦ cc (rw (here, other) at h)
    | inl slash ↦
        uri_to-length text o u o' fits (find (b' ' ∷ []) text o) refl (rw (here, slash) at h)
  ]
]
