-- ===== src/Text/Cursor.antt =====
-- What is left to read at an offset, and what the string operations give there.
use mathlib.Core.Option
use pine_http.Prelude.{
  ℕ, ◌+◌, ◌≤◌, ◌≡◌, refl, [], ◌∷◌, ◌++◌, some, arith, ap, sym, ◌∙◌, length, length-append,
  append_assoc, take, drop, take-append-drop, length-take_full, drop-append,
}
use pine_http.Text.{Bytes, find_first, find, substr, substr_from, at}
use pine_http.Text.Find.{Free, find_first-Free, find-append}
use pine_http.Text.Slice.{substr_from-append, substr-append, substr-all, at-append}

-- At the offset `o` of the text, `rest` is left.
pub record At (text rest : Bytes) (o : ℕ) : Type 0 where
  pub before : Bytes
  pub splits : text ≡ before ++ rest
  pub offset : o ≡ length before

pub At-start : (text : Bytes) → At text text 0
At-start text = record { before = []; splits = refl; offset = refl }

-- Past a part that has been read.
pub At-skip :
    {text rest : Bytes} {o : ℕ} (a : Bytes) → At text (a ++ rest) o → At text rest (o + length a)
At-skip {rest = rest} a p = record {
  before = p.before ++ a;
  splits = p.splits ∙ sym (append_assoc p.before a rest);
  offset = omega (arith, length-append p.before a, p.offset);
}

module _ {text rest : Bytes} {o : ℕ} (p : At text rest o) where
  pub At-length : length text ≡ o + length rest
  At-length = omega (arith, ap length p.splits, length-append p.before rest, p.offset)

  pub At-substr_from : substr_from text o ≡ some rest
  At-substr_from = cc (p.splits, p.offset, substr_from-append p.before rest)

  pub At-find :
      (pattern : Bytes) → find pattern text o ≡ Option.map (λ n. o + n) (find_first pattern rest)
  At-find pattern = rw (p.splits, p.offset) (find-append pattern p.before rest)

  pub At-substr_all : (count : ℕ) → length rest ≤ count → substr text o count ≡ some rest
  At-substr_all count h = rw (p.splits, p.offset) (substr-all p.before rest count h)

module _ {text : Bytes} {o : ℕ} where
  pub At-substr : (a rest : Bytes) → At text (a ++ rest) o → substr text o (length a) ≡ some a
  At-substr a rest p = rw (p.splits, p.offset) (substr-append p.before a rest)

  pub At-at : (c : ℕ) (rest : Bytes) → At text (c ∷ rest) o → at text o ≡ some c
  At-at c rest p = rw (p.splits, p.offset) (at-append p.before c rest)

  pub At-find-Free :
      (c : ℕ) (ps mid rest : Bytes)
      → Free c mid
      → At text (mid ++ ((c ∷ ps) ++ rest)) o
      → find (c ∷ ps) text o ≡ some (o + length mid)
  At-find-Free c ps mid rest h p =
      At-find p (c ∷ ps) ∙ ap (Option.map (λ n. o + n)) (find_first-Free c ps mid rest h)

pub At-drop : (text : Bytes) (o : ℕ) → o ≤ length text → At text (drop o text) o
At-drop text o h = record {
  before = take o text;
  splits = sym (take-append-drop o text);
  offset = sym (length-take_full o text h);
}

pub At-drop_rest : {text rest : Bytes} {o : ℕ} → At text rest o → drop o text ≡ rest
At-drop_rest {text} {rest} {o} p = rw (p.splits, p.offset) (drop-append p.before rest)
