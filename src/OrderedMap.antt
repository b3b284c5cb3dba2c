-- ===== src/OrderedMap.antt =====
-- std::map<std::string, V>: the entries in the order in which the map is iterated, by ascending key.
-- The headers of a request and of a response are kept in such maps.
pub mod Order
pub mod Laws
pub mod Entered
use Prim.Native.Nat.{compare, Ordering}
use pine_http.Prelude.{List, [], ◌∷◌, Option, none, some, if◌then◌else◌, Bool, true, false, ◌≡◌}
use pine_http.Text.{Bytes, equal}

-- `std::string::compare`: by the first bytes that differ, as unsigned numbers.
unfoldable pub compare_text : Bytes → Bytes → Ordering
compare_text [] [] = Ordering.eq
compare_text [] (y ∷ ys) = Ordering.lt
compare_text (x ∷ xs) [] = Ordering.gt
compare_text (x ∷ xs) (y ∷ ys) = elim (compare x y) [
  | Ordering.lt ↦ Ordering.lt
  | Ordering.gt ↦ Ordering.gt
  | Ordering.eq ↦ compare_text xs ys
]

module _ {ℓ} {V : Type ℓ} where
  -- `map.insert_or_assign(key, value)`
  unfoldable pub insert_or_assign : Bytes → V → List (Bytes × V) → List (Bytes × V)
  insert_or_assign k v [] = (k, v) ∷ []
  insert_or_assign k v ((j, w) ∷ m) = elim (compare_text k j) [
    | Ordering.lt ↦ (k, v) ∷ (j, w) ∷ m
    | Ordering.eq ↦ (j, v) ∷ m
    | Ordering.gt ↦ (j, w) ∷ insert_or_assign k v m
  ]

  -- `map.erase(key)`
  unfoldable pub erase : Bytes → List (Bytes × V) → List (Bytes × V)
  erase k [] = []
  erase k ((j, w) ∷ m) = let rest = erase k m in if equal k j then rest else (j, w) ∷ rest

  -- `map.find(key)`, as `contains` and `at` use it: `none` is the end of the map.
  unfoldable pub lookup : Bytes → List (Bytes × V) → Option V
  lookup k [] = none
  lookup k ((j, w) ∷ m) = if equal k j then some w else lookup k m

  -- `map.contains(key)`
  unfoldable pub contains : Bytes → List (Bytes × V) → Bool
  contains k m = elim (lookup k m) [ none ↦ false | some v ↦ true ]

  -- Every key of the map comes after `k`.
  abbrev pub Above : Bytes → List (Bytes × V) → Type 0
  Above k [] = Unit {0}
  Above k ((j, w) ∷ m) = (compare_text k j ≡ Ordering.lt) × Above k m

  -- The keys ascend, so none of them occurs twice.
  abbrev pub IsSorted : List (Bytes × V) → Type 0
  IsSorted [] = Unit {0}
  IsSorted ((j, w) ∷ m) = Above j m × IsSorted m
