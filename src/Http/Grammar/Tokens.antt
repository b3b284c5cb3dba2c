-- ===== src/Http/Grammar/Tokens.antt =====
-- What stands in the text where a token or a URI (shared/src/http.cpp) has been read.
use pine_http.Prelude.{
  ℕ, zero, suc, ◌+◌, ◌-◌, ◌<◌, ◌≡◌, refl, sym, ap, ◌∙◌, subst, List, [], ◌∷◌, ◌++◌, Option, some,
  none, arith, length, take, drop, drop-append, leb, leb→le, ◌==◌, inl, inr, Bool-cases,
  Option-cases, All, ==_iff,
}
use pine_http.Text.{Bytes, starts_with, find_first, substr, at}
use pine_http.Text.Find.{Free}
use pine_http.Text.Bounds.{substr_from_in_range, substr_from_beyond}
use pine_http.Errors.{Error}
use pine_http.Http.Scan.{got}
use pine_http.Http.Stages.{starts_with-split, find_first-take, at-drop}
use pine_http.Http.Utils.{sub64, try_get_token, uri_to, try_get_uri}
use pine_http.Http.Accepted.{find-first, drop-drop, got_injective}

-- A token that is read stands in the text.
pub try_get_token-drop :
    {A : Type 0} (name : A → Bytes) (table : List (A × Bytes)) (e : Error) (text : Bytes) (o : ℕ)
    (a : A) (o' : ℕ)
    → All (λ entry. entry.1 ≡ name entry.0) table
    → try_get_token table e text o ≡ got a o'
    → drop o text ≡ name a ++ drop o' text
unfolding try_get_token
try_get_token-drop name [] e text o a o' named h = cc
try_get_token-drop name ((b, t) ∷ table) e text o a o' named h =
    elim (Bool-cases (leb o (length text))) [
      | inr beyond ↦ cc (rw (substr_from_beyond text o (ground arith)) at h)
      | inl inside ↦
          let cut = substr_from_in_range text o (leb→le o (length text) inside) in
          elim (Bool-cases (starts_with t (drop o text))) [
            | inr there ↦ try_get_token-drop name table e text o a o' named.1 (rw (cut, there) at h)
            | inl here ↦
                let (same, end) = got_injective b a (o + length t) o' (rw (cut, here) at h) in
                let (rest, splits) = starts_with-split t (drop o text) here in
                let behind : drop (o + length t) text ≡ rest =
                  sym (drop-drop (length t) o text)
                  ∙ ap (drop (length t)) splits
                  ∙ drop-append t rest in
                cc (splits, behind, same, end, named.0)
          ]
    ]

drop-suc :
    (text : Bytes) (o : ℕ)
    → 0 < length (drop (suc o) text)
    → (separator : ℕ) × (drop o text ≡ separator ∷ drop (suc o) text)
drop-suc [] o h = absurd (omega arith)
drop-suc (x ∷ text) zero h = (x, refl)
drop-suc (x ∷ text) (suc o) h = drop-suc text o h

-- A byte in front of what is read.
pub separator-drop :
    (text : Bytes) (o : ℕ)
    → 0 < length (drop (o + 1) text)
    → (separator : ℕ) × (drop o text ≡ separator ∷ drop (o + 1) text)
separator-drop text o h =
    let next : suc o ≡ o + 1 = omega arith in
    let (separator, e) = drop-suc text o (omega (arith, ap (λ k. length (drop k text)) next)) in
    (separator, e ∙ ap (λ k. separator ∷ drop k text) next)

uri_to-end :
    (text : Bytes) (o : ℕ) (u : Bytes) (p : ℕ) (end : Option ℕ)
    → uri_to text o end ≡ got u p
    → end ≡ some p
unfolding uri_to
uri_to-end text o u p none h = cc
uri_to-end text o u p (some e) h = elim (Option-cases (substr text o (sub64 e o))) [
  | inl past ↦ cc (rw past at h)
  | inr (s, cut) ↦ ap some (got_injective s u e p (rw cut at h)).1
]

find_first-byte :
    (c : ℕ) (s : Bytes) (n : ℕ)
    → find_first (c ∷ []) s ≡ some n
    → s ≡ take n s ++ (c ∷ drop (suc n) s)
unfolding find_first starts_with
find_first-byte c [] n h = cc
find_first-byte c (x ∷ s) zero h = ap (λ y. y ∷ s) (ground arith)
find_first-byte c (x ∷ s) (suc n) h = ap (λ t. x ∷ t) (find_first-byte c s n (ground arith))

-- A slash, a path up to the first space, and what is behind the space.
slash-space :
    (s : Bytes) (n : ℕ)
    → find_first (b' ' ∷ []) (b'/' ∷ s) ≡ some n
    → (path : Bytes) × Free b' ' path
      × (b'/' ∷ s ≡ (b'/' ∷ path) ++ ((b' ' ∷ []) ++ drop (suc n) (b'/' ∷ s)))
unfolding find_first starts_with
slash-space s zero h = absurd (ground arith)
slash-space s (suc n) h = (
  take n s,
  (find_first-take b' ' (b'/' ∷ s) (suc n) h).1,
  find_first-byte b' ' (b'/' ∷ s) (suc n) h,
)

-- Where a URI is read, a slash and a path stand, up to the space where the parser stops.
pub try_get_uri-drop :
    (text : Bytes) (o : ℕ) (u : Bytes) (p : ℕ)
    → try_get_uri text o ≡ got u p
    → (path : Bytes) × Free b' ' path
      × (drop o text ≡ (b'/' ∷ path) ++ ((b' ' ∷ []) ++ drop (p + 1) text))
unfolding try_get_uri
try_get_uri-drop text o u p h = elim (Option-cases (at text o)) [
  | inl past ↦ cc (rw past at h)
  | inr (c, here) ↦ elim (Bool-cases (c == b'/')) [
    | inr other ↦ cc (rw (here, other) at h)
    | inl slash ↦
        let (rest, cut) = at-drop text o c here in
        let cut' : drop o text ≡ b'/' ∷ rest = cut ∙ ap (λ x. x ∷ rest) ((==_iff c b'/').0 slash) in
        let found = uri_to-end text o u p _ (rw (here, slash) at h) in
        let (behind, first) = find-first (b' ' ∷ []) text o p found in
        let (path, free, splits) =
          slash-space rest (p - o)
            (subst (λ s. find_first (b' ' ∷ []) s ≡ some (p - o)) cut' first) in
        let left : drop (suc (p - o)) (b'/' ∷ rest) ≡ drop (p + 1) text =
          ap (drop (suc (p - o))) (sym cut')
          ∙ drop-drop (suc (p - o)) o text
          ∙ ap (λ k. drop k text) (omega arith) in
        (path, free, cut' ∙ splits ∙ ap (λ t. (b'/' ∷ path) ++ (b' ' ∷ t)) left)
  ]
]
