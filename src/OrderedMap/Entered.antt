-- ===== src/OrderedMap/Entered.antt =====
-- Entries put into a map one after the other, as `insert_or_assign` is called in a loop.
use pine_http.Prelude.{
  List, [], ◌∷◌, ◌++◌, ◌≡◌, refl, sym, ap, ◌∙◌, Option, none, some, arith, append-nil, append_assoc,
  if◌then◌else◌,
}
use pine_http.Text.{Bytes, equal}
use pine_http.OrderedMap.{insert_or_assign, lookup, IsSorted}
use pine_http.OrderedMap.Laws.{
  lookup-insert_or_assign, insert_or_assign-IsSorted, Before, insert_or_assign_last, Before-shift,
}

module _ {ℓ} {V : Type ℓ} where
  -- The map that holds the entries, put into `result` from the first to the last.
  abbrev pub entered : List (Bytes × V) → List (Bytes × V) → List (Bytes × V)
  entered [] result = result
  entered ((k, v) ∷ entries) result = entered entries (insert_or_assign k v result)

  -- The last value that the entries have for a key.
  abbrev pub last_value : Bytes → List (Bytes × V) → Option V
  last_value key [] = none
  last_value key ((k, v) ∷ entries) = elim (last_value key entries) [
    | some w ↦ some w
    | none ↦ if equal key k then some v else none
  ]

  entered-lookup :
      (key : Bytes) (entries result : List (Bytes × V))
      → lookup key (entered entries result)
        ≡ elim (last_value key entries) [ some w ↦ some w | none ↦ lookup key result ]
  entered-lookup key [] result = refl
  entered-lookup key ((k, v) ∷ entries) result =
      entered-lookup key entries (insert_or_assign k v result)
      ∙ ground (arith, lookup-insert_or_assign key k v result)

  pub lookup-entered :
      (key : Bytes) (entries : List (Bytes × V))
      → lookup key (entered entries []) ≡ last_value key entries
  unfolding lookup
  lookup-entered key entries = entered-lookup key entries [] ∙ ground arith

  pub entered-IsSorted :
      (entries result : List (Bytes × V)) → IsSorted result → IsSorted (entered entries result)
  entered-IsSorted [] result s = s
  entered-IsSorted ((k, v) ∷ entries) result s =
      entered-IsSorted entries (insert_or_assign k v result)
        (insert_or_assign-IsSorted k v result s)

  -- Entries whose keys ascend, behind those of the map, are appended.
  pub entered-append :
      (entries result : List (Bytes × V))
      → IsSorted entries
      → Before result entries
      → entered entries result ≡ result ++ entries
  entered-append [] result s b = sym (append-nil result)
  entered-append ((k, v) ∷ entries) result s b =
      ap (entered entries) (insert_or_assign_last k v result entries b)
      ∙ entered-append entries (result ++ ((k, v) ∷ [])) s.1 (Before-shift k v result entries s.0 b)
      ∙ append_assoc result ((k, v) ∷ []) entries
