-- ===== src/IdMap/Listing.antt =====
-- std::unordered_map: the order in which a map is iterated is not specified, so what a map holds is
-- a function of the identifiers, which has several listings.
use mathlib.Core.List.{Perm}
use mathlib.Core.List.Perm
use pine_http.Prelude.{
  ℕ, ◌≡◌, refl, sym, subst, inl, inr, List, [], ◌∷◌, Option, none, some, ◌==◌, if◌then◌else◌, arith,
  Bool-cases, ==_iff, ◌∙◌,
}
use pine_http.IdMap.{find, insert, erase, find-insert, find-erase}

module _ {ℓ} {V : Type ℓ} where
  -- No identifier stands in the list twice.
  abbrev pub IsDistinct : List (ℕ × V) → Type ℓ
  IsDistinct [] = Unit
  IsDistinct ((k, v) ∷ m) = (find k m ≡ none) × IsDistinct m

  -- `m` is a listing of the map that holds `f`.
  pub record Lists (f : ℕ → Option V) (m : List (ℕ × V)) : Type ℓ where
    pub distinct : IsDistinct m
    pub held : (k : ℕ) → find k m ≡ f k

  IsDistinct-insert : (k : ℕ) (v : V) (m : List (ℕ × V)) → IsDistinct m → IsDistinct (insert k v m)
  unfolding insert find
  IsDistinct-insert k v [] d = (refl, tt)
  IsDistinct-insert k v ((j, w) ∷ m) d = elim (Bool-cases (k == j)) [
    | inl same ↦ rw same d
    | inr other ↦ rw other (ground (arith, find-insert j k v m, d.0), IsDistinct-insert k v m d.1)
  ]

  IsDistinct-erase : (k : ℕ) (m : List (ℕ × V)) → IsDistinct m → IsDistinct (erase k m)
  unfolding erase find
  IsDistinct-erase k [] d = d
  IsDistinct-erase k ((j, w) ∷ m) d = elim (Bool-cases (k == j)) [
    | inl same ↦ rw same (IsDistinct-erase k m d.1)
    | inr other ↦ rw other (ground (arith, find-erase j k m, d.0), IsDistinct-erase k m d.1)
  ]

  pub Lists-insert :
      (f : ℕ → Option V) (m : List (ℕ × V)) (k : ℕ) (v : V)
      → Lists f m
      → Lists (λ j. if j == k then some v else f j) (insert k v m)
  Lists-insert f m k v l = record {
    distinct = IsDistinct-insert k v m l.distinct;
    held = λ j. rw (find-insert j k v m, l.held j) refl;
  }

  pub Lists-erase :
      (f : ℕ → Option V) (m : List (ℕ × V)) (k : ℕ)
      → Lists f m
      → Lists (λ j. if j == k then none else f j) (erase k m)
  Lists-erase f m k l = record {
    distinct = IsDistinct-erase k m l.distinct;
    held = λ j. rw (find-erase j k m, l.held j) refl;
  }

  pub erase-missing : (k : ℕ) (m : List (ℕ × V)) → find k m ≡ none → erase k m ≡ m
  unfolding erase find
  erase-missing k [] h = refl
  erase-missing k ((j, w) ∷ m) h = ground (arith, erase-missing k m)

  -- The client that is found stands somewhere, and nothing else is erased with it.
  Perm-erase :
      (k : ℕ) (v : V) (m : List (ℕ × V))
      → IsDistinct m
      → find k m ≡ some v
      → Perm m ((k, v) ∷ erase k m)
  unfolding erase find
  Perm-erase k v [] d h = absurd (ground arith)
  Perm-erase k v ((j, w) ∷ m) d h = elim (Bool-cases (k == j)) [
    | inl same ↦
        let is : k ≡ j = (==_iff k j).0 same in
        let missing : find k m ≡ none = subst (λ i. find i m ≡ none) (sym is) d.0 in
        let e : ((j, w) ∷ m) ≡ ((k, v) ∷ erase k ((j, w) ∷ m)) =
          ground (arith, erase-missing k m missing) in
        subst (λ l. Perm ((j, w) ∷ m) l) e (Perm.refl ((j, w) ∷ m))
    | inr other ↦ rw other (
        Perm.trans (Perm.cons (j, w) (Perm-erase k v m d.1 (ground (arith, h))))
          (Perm.swap (k, v) (j, w) (erase k m)))
  ]

  find-nothing : (m : List (ℕ × V)) → ((k : ℕ) → find k m ≡ none) → m ≡ []
  unfolding find
  find-nothing [] h = refl
  find-nothing ((j, v) ∷ m) h = ground (arith, h j)

  -- Two listings of one map differ in their order only.
  pub Lists-Perm : (f : ℕ → Option V) (m m' : List (ℕ × V)) → Lists f m → Lists f m' → Perm m m'
  unfolding find
  Lists-Perm f [] m' l l' =
      subst (Perm []) (sym (find-nothing m' (λ k. l'.held k ∙ sym (l.held k)))) Perm.nil
  Lists-Perm f ((k, v) ∷ m) m' l l' =
      Perm.trans (Perm.cons (k, v) (Lists-Perm g m (erase k m') rest (Lists-erase f m' k l')))
        (Perm.symm (Perm-erase k v m' l'.distinct (ground (arith, l'.held k, l.held k))))
    where
      g : ℕ → Option V
      g j = if j == k then none else f j

      rest : Lists g m
      rest = record { distinct = l.distinct.1; held = λ j. ground (arith, l.held j, l.distinct.0) }
