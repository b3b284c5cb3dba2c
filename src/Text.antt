-- ===== src/Text.antt =====
-- The parts of std::string and std::string_view that the parsers use. A text is the list of its
-- bytes; a position is an offset from its start, as `size_t` is in the sources.
pub mod Find
pub mod Slice
pub mod Cursor
pub mod Bounds
pub mod Decimal
use Prim.Native.Char.{code}
use Prim.Native.String.{String}
use mathlib.Core.Option
use pine_http.Prelude.{
  ℕ, suc, ◌+◌, ◌-◌, ◌/◌, ◌%◌, ◌≤◌, zero, min, Bool, true, false, ◌&&◌, List, [], ◌∷◌, ◌++◌, Option,
  none, some, leb, ltb, ◌==◌, if◌then◌else◌, length, take, drop,
}

abbrev pub Bytes : Type 0
Bytes = List ℕ

-- The bytes of an ASCII literal.
abbrev pub codes : String → Bytes
codes String.[] = []
codes (String.◌∷◌ c s) = code c ∷ codes s

-- `==` on texts.
unfoldable pub equal : Bytes → Bytes → Bool
equal [] [] = true
equal (x ∷ xs) (y ∷ ys) = x == y && equal xs ys
equal _ _ = false

-- `text.starts_with(prefix)`
unfoldable pub starts_with : Bytes → Bytes → Bool
starts_with [] text = true
starts_with (p ∷ ps) [] = false
starts_with (p ∷ ps) (c ∷ cs) = p == c && starts_with ps cs

-- The first place of `pattern`, counted from the start of the text.
unfoldable pub find_first : Bytes → Bytes → Option ℕ
unfolding starts_with
find_first pattern [] = if starts_with pattern [] then some 0 else none
find_first pattern (c ∷ cs) =
    if starts_with pattern (c ∷ cs) then some 0 else Option.map suc (find_first pattern cs)

-- `text.find(pattern, pos)`; `none` is `npos`.
unfoldable pub find : Bytes → Bytes → ℕ → Option ℕ
find pattern text pos =
    if leb pos (length text)
    then Option.map (λ n. pos + n) (find_first pattern (drop pos text))
    else none

-- `text.substr(pos, count)`; `none` is the exception std::out_of_range.
unfoldable pub substr : Bytes → ℕ → ℕ → Option Bytes
substr text pos count =
    if leb pos (length text)
    then some (take (min count (length text - pos)) (drop pos text))
    else none

-- `text.substr(pos)`
unfoldable pub substr_from : Bytes → ℕ → Option Bytes
substr_from text pos = if leb pos (length text) then some (drop pos text) else none

-- `text.at(pos)`; `none` is the exception std::out_of_range.
unfoldable pub at : Bytes → ℕ → Option ℕ
at [] pos = none
at (c ∷ cs) zero = some c
at (c ∷ cs) (suc pos) = at cs pos

-- `std::to_string` of an unsigned number: its digits, from the last. Fuel bounds their number.
unfoldable pub decimal_onto : ℕ → ℕ → Bytes → Bytes
decimal_onto zero n out = out
decimal_onto (suc fuel) n out =
    let rest = decimal_onto fuel (n / 10) ((b'0' + n % 10) ∷ out) in
    if ltb n 10 then (b'0' + n) ∷ out else rest

-- 20 digits hold every 64-bit number.
unfoldable pub to_decimal : ℕ → Bytes
unfolding decimal_onto
to_decimal n = decimal_onto 20 n []
