-- ===== src/OrderedMap/Laws.antt =====
-- What a look-up finds after each change of a map, and that changes keep the keys ascending.
use Prim.Native.Nat.{Ordering}
use pine_http.Prelude.{
  All, subst, Bool-cases, inl, inr, List, [], ◌∷◌, ◌++◌, ◌≡◌, refl, none, some, arith,
  if◌then◌else◌,
}
use pine_http.Text.{Bytes, equal}
use pine_http.OrderedMap.{compare_text, insert_or_assign, erase, lookup, Above, IsSorted}
use pine_http.OrderedMap.Order.{
  equal_iff, compare_text-eq_iff, compare_text_swap, compare_text_trans,
}

module _ {ℓ} {V : Type ℓ} where
  pub lookup-insert_or_assign :
      (j k : Bytes) (v : V) (m : List (Bytes × V))
      → lookup j (insert_or_assign k v m) ≡ (if equal j k then some v else lookup j m)
  unfolding lookup insert_or_assign
  lookup-insert_or_assign j k v [] = refl
  lookup-insert_or_assign j k v ((i, w) ∷ m) = ground (
    arith,
    equal_iff j k,
    equal_iff j i,
    compare_text-eq_iff k i,
    lookup-insert_or_assign j k v m,
  )

  pub lookup-erase :
      (j k : Bytes) (m : List (Bytes × V))
      → lookup j (erase k m) ≡ (if equal j k then none else lookup j m)
  unfolding lookup erase
  lookup-erase j k [] = ground arith
  lookup-erase j k ((i, w) ∷ m) =
      ground (arith, equal_iff j k, equal_iff j i, equal_iff k i, lookup-erase j k m)

  Above-insert_or_assign :
      (i k : Bytes) (v : V) (m : List (Bytes × V))
      → compare_text i k ≡ Ordering.lt
      → Above i m
      → Above i (insert_or_assign k v m)
  unfolding insert_or_assign
  Above-insert_or_assign i k v [] h a = (h, tt)
  Above-insert_or_assign i k v ((j, w) ∷ m) h a =
      ground (arith, Above-insert_or_assign i k v m h a.1)

  Above-trans :
      (i k : Bytes) (m : List (Bytes × V)) → compare_text i k ≡ Ordering.lt → Above k m → Above i m
  Above-trans i k [] h a = tt
  Above-trans i k ((j, w) ∷ m) h a = (compare_text_trans i k j h a.0, Above-trans i k m h a.1)

  pub insert_or_assign-IsSorted :
      (k : Bytes) (v : V) (m : List (Bytes × V)) → IsSorted m → IsSorted (insert_or_assign k v m)
  unfolding insert_or_assign
  insert_or_assign-IsSorted k v [] s = (tt, tt)
  insert_or_assign-IsSorted k v ((j, w) ∷ m) s = ground (
    arith,
    compare_text_swap k j,
    Above-trans k j m,
    Above-insert_or_assign j k v m,
    insert_or_assign-IsSorted k v m s.1,
  )

  Above-erase : (i k : Bytes) (m : List (Bytes × V)) → Above i m → Above i (erase k m)
  unfolding erase
  Above-erase i k [] a = tt
  Above-erase i k ((j, w) ∷ m) a = ground (arith, Above-erase i k m a.1)

  pub erase-IsSorted : (k : Bytes) (m : List (Bytes × V)) → IsSorted m → IsSorted (erase k m)
  unfolding erase
  erase-IsSorted k [] s = tt
  erase-IsSorted k ((j, w) ∷ m) s = ground (arith, Above-erase j k m s.0, erase-IsSorted k m s.1)

  -- Every key of the first map comes before every key of the second.
  abbrev pub Before : List (Bytes × V) → List (Bytes × V) → Type 0
  Before [] m = Unit {0}
  Before ((j, w) ∷ l) m = Above j m × Before l m

  -- A key after all others goes to the end.
  pub insert_or_assign_last :
      (k : Bytes) (v : V) (l m : List (Bytes × V))
      → Before l ((k, v) ∷ m)
      → insert_or_assign k v l ≡ l ++ ((k, v) ∷ [])
  unfolding insert_or_assign
  insert_or_assign_last k v [] m b = refl
  insert_or_assign_last k v ((j, w) ∷ l) m b =
      ground (arith, compare_text_swap k j, insert_or_assign_last k v l m b.1)

  pub Before-shift :
      (k : Bytes) (v : V) (l m : List (Bytes × V))
      → Above k m
      → Before l ((k, v) ∷ m)
      → Before (l ++ ((k, v) ∷ [])) m
  Before-shift k v [] m a b = (a, tt)
  Before-shift k v ((j, w) ∷ l) m a b = (b.0.1, Before-shift k v l m a b.1)

  -- What holds of every entry, and of the new one, holds after a change.
  pub insert_or_assign-All :
      (P : Bytes × V → Type 0) (k : Bytes) (v : V) (m : List (Bytes × V))
      → P (k, v)
      → All P m
      → All P (insert_or_assign k v m)
  unfolding insert_or_assign
  insert_or_assign-All P k v [] h a = (h, tt)
  insert_or_assign-All P k v ((j, w) ∷ m) h a =
      placed (compare_text k j) refl (insert_or_assign-All P k v m h a.1)
    where
      placed :
          (c : Ordering)
          → compare_text k j ≡ c
          → All P (insert_or_assign k v m)
          → All P (elim c [
            | Ordering.lt ↦ (k, v) ∷ (j, w) ∷ m
            | Ordering.eq ↦ (j, v) ∷ m
            | Ordering.gt ↦ (j, w) ∷ insert_or_assign k v m
          ])
      placed Ordering.lt e further = (h, a)
      placed Ordering.eq e further =
          (subst (λ key. P (key, v)) ((compare_text-eq_iff k j).0 e) h, a.1)
      placed Ordering.gt e further = (a.0, further)

  pub erase-All :
      (P : Bytes × V → Type 0) (k : Bytes) (m : List (Bytes × V)) → All P m → All P (erase k m)
  unfolding erase
  erase-All P k [] a = tt
  erase-All P k ((j, w) ∷ m) a = elim (Bool-cases (equal k j)) [
    | inl same ↦ rw same (erase-All P k m a.1)
    | inr other ↦ rw other (a.0, erase-All P k m a.1)
  ]

ruleset map_laws = (lookup-insert_or_assign, lookup-erase)
