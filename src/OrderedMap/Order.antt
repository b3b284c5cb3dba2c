-- ===== src/OrderedMap/Order.antt =====
-- The order of the keys is a strict total order, and `equal` decides equality of texts.
use Prim.Native.Nat.{Ordering}
use pine_http.Prelude.{[], ◌∷◌, ◌≡◌, refl, ◌↔◌, true, arith}
use pine_http.Text.{Bytes, equal}
use pine_http.OrderedMap.{compare_text}

-- `==` of texts tells whether they are the same.
pub equal_iff : (key other : Bytes) → (equal key other ≡ true) ↔ (key ≡ other)
unfolding equal
equal_iff [] other = ground arith
equal_iff (c ∷ key) [] = ground arith
equal_iff (c ∷ key) (d ∷ other) = ground (arith, equal_iff key other)

pub equal_refl : (a : Bytes) → equal a a ≡ true
equal_refl a = (equal_iff a a).1 refl

pub compare_text-eq_iff : (a b : Bytes) → (compare_text a b ≡ Ordering.eq) ↔ (a ≡ b)
unfolding compare_text
compare_text-eq_iff (x ∷ a) (y ∷ b) = ground (arith, compare_text-eq_iff a b)
compare_text-eq_iff _ _ = ground arith

pub compare_text_swap :
    (a b : Bytes) → (compare_text a b ≡ Ordering.gt) ↔ (compare_text b a ≡ Ordering.lt)
unfolding compare_text
compare_text_swap (x ∷ a) (y ∷ b) = ground (arith, compare_text_swap a b)
compare_text_swap _ _ = ground arith

pub compare_text_trans :
    (a b c : Bytes)
    → compare_text a b ≡ Ordering.lt
    → compare_text b c ≡ Ordering.lt
    → compare_text a c ≡ Ordering.lt
unfolding compare_text
compare_text_trans (x ∷ a) (y ∷ b) (z ∷ c) p q = ground (arith, compare_text_trans a b c)
compare_text_trans _ _ _ p q = ground arith
