-- ===== src/Server/Served.antt =====
-- Which clients are in the map of the server (server/src/server.cpp) while `accept_clients` runs.
use pine_http.Prelude.{
  ℕ, ◌≡◌, ◌≢◌, ◌⊎◌, inl, inr, refl, ap, ◌∙◌, List, [], ◌∷◌, put, put-cases, arith, length, ◌≤◌,
}
use pine_http.IdMap.{erase}
use pine_http.ServerConnection.{ServerConnection}
use pine_http.Server.Callbacks.{key}
use pine_http.Server.Sections.{
  Holder, accepter, Accepting, at_head, in_accept, unlocking, has_returned, failing, announcing,
  welcoming, inserting, Stopping, over,
}

-- A call of `stop` has cleared the map.
abbrev pub Cleared : (ℕ → Stopping) → Type 0
Cleared q = (k : ℕ) × (q k ≡ over)

-- The map has this client alone, or none, and then a call of `stop` has cleared it.
abbrev pub IsServed : (ℕ → Stopping) → ServerConnection → List (ℕ × ServerConnection) → Type 0
IsServed q client m = (m ≡ (key client, client) ∷ []) ⊎ ((m ≡ []) × Cleared q)

-- Who holds the mutex and which clients are in the map, by where `accept_clients` stands.
abbrev pub Serves : Holder → (ℕ → Stopping) → List (ℕ × ServerConnection) → Accepting → Type 0
Serves h q m (inserting client) = (h ≡ accepter) × (m ≡ [])
Serves h q m (welcoming client callbacks) = (h ≡ accepter) × IsServed q client m
Serves h q m unlocking = (h ≡ accepter) × (m ≡ [])
Serves h q m _ = m ≡ []

module _ (q : ℕ → Stopping) (m : List (ℕ × ServerConnection)) where
  -- While another holds the mutex, no client is in the map.
  pub Serves-empty : (h : Holder) (a : Accepting) → h ≢ accepter → Serves h q m a → m ≡ []
  Serves-empty h (inserting client) other v = v.1
  Serves-empty h (welcoming client callbacks) other v = absurd (other v.0)
  Serves-empty h unlocking other v = v.1
  Serves-empty h at_head other v = v
  Serves-empty h in_accept other v = v
  Serves-empty h has_returned other v = v
  Serves-empty h (failing callbacks) other v = v
  Serves-empty h (announcing client callbacks) other v = v

  pub Serves-holder :
      (h h' : Holder) (a : Accepting) → h ≢ accepter → Serves h q m a → Serves h' q m a
  Serves-holder h h' (inserting client) other v = absurd (other v.0)
  Serves-holder h h' (welcoming client callbacks) other v = absurd (other v.0)
  Serves-holder h h' unlocking other v = absurd (other v.0)
  Serves-holder h h' at_head other v = v
  Serves-holder h h' in_accept other v = v
  Serves-holder h h' has_returned other v = v
  Serves-holder h h' (failing callbacks) other v = v
  Serves-holder h h' (announcing client callbacks) other v = v

  -- There is one client at most.
  pub Serves-few : (h : Holder) (a : Accepting) → Serves h q m a → length m ≤ 1
  Serves-few h (inserting client) v = omega (arith, ap length v.1)
  Serves-few h (welcoming client callbacks) (held, inl e) = omega (arith, ap length e)
  Serves-few h (welcoming client callbacks) (held, inr e) = omega (arith, ap length e.0)
  Serves-few h unlocking v = omega (arith, ap length v.1)
  Serves-few h at_head v = omega (arith, ap length v)
  Serves-few h in_accept v = omega (arith, ap length v)
  Serves-few h has_returned v = omega (arith, ap length v)
  Serves-few h (failing callbacks) v = omega (arith, ap length v)
  Serves-few h (announcing client callbacks) v = omega (arith, ap length v)

  module _ (h : Holder) (q' : ℕ → Stopping) where
    -- Calls of `stop` go on.
    pub Serves-stoppers :
        (a : Accepting) → (Cleared q → Cleared q') → Serves h q m a → Serves h q' m a
    Serves-stoppers (inserting client) keeps v = v
    Serves-stoppers (welcoming client callbacks) keeps (held, inl e) = (held, inl e)
    Serves-stoppers (welcoming client callbacks) keeps (held, inr e) = (held, inr (e.0, keeps e.1))
    Serves-stoppers unlocking keeps v = v
    Serves-stoppers at_head keeps v = v
    Serves-stoppers in_accept keeps v = v
    Serves-stoppers has_returned keeps v = v
    Serves-stoppers (failing callbacks) keeps v = v
    Serves-stoppers (announcing client callbacks) keeps v = v

    pub Serves-cleared : (a : Accepting) → Cleared q' → Serves h q m a → Serves h q' [] a
    Serves-cleared (inserting client) c v = (v.0, refl)
    Serves-cleared (welcoming client callbacks) c v = (v.0, inr (refl, c))
    Serves-cleared unlocking c v = (v.0, refl)
    Serves-cleared at_head c v = refl
    Serves-cleared in_accept c v = refl
    Serves-cleared has_returned c v = refl
    Serves-cleared (failing callbacks) c v = refl
    Serves-cleared (announcing client callbacks) c v = refl

pub erase-IsServed :
    (q : ℕ → Stopping) (client : ServerConnection) (m : List (ℕ × ServerConnection))
    → IsServed q client m
    → erase (key client) m ≡ []
unfolding erase
erase-IsServed q client m (inl e) = ap (erase (key client)) e ∙ ground arith
erase-IsServed q client m (inr e) = ap (erase (key client)) e.0

-- A call of `stop` that has not ended goes on.
pub Cleared-put :
    (q : ℕ → Stopping) (k : ℕ) (w : Stopping) → q k ≢ over → Cleared q → Cleared (put q k w)
Cleared-put q k w yet (i, e) =
    (i, put-cases (λ x. x ≡ over) q k w i (λ same. absurd (yet (ap q same ∙ e))) (λ other. e))
