-- ===== src/Common/Text/Laws.antt =====
-- Splitting and parsing of texts that were put together.
use Prim.Native.Char.{Char, code}
use Prim.Native.String.{String}
use sens.Common.{
  ℕ, ◌+◌, ◌-◌, ◌*◌, String, ◌≡◌, refl, ap, ◌∙◌, inl, inr, true, false, ◌||◌, some, [], ◌∷◌, arith,
  ◌==◌, Bool-cases,
}
use sens.Common.Text.{◌⧺◌, has_char, begin_with, split, is_digit, digits_from, digits, parse_uint}

pub has_char-append : (c : ℕ) (s t : String) → has_char c (s ⧺ t) ≡ (has_char c s || has_char c t)
unfolding has_char
has_char-append c String.[] t = refl
has_char-append c (String.◌∷◌ d s) t = ground (arith, has_char-append c s t)

split_absent : (c : ℕ) (s : String) → has_char c s ≡ false → split c s ≡ s ∷ []
unfolding split has_char begin_with
split_absent c String.[] absent = refl
split_absent c (String.◌∷◌ d s) absent =
    let other : (code d == c) ≡ false = ground arith in
    rw (other, split_absent c s (ground arith)) refl

-- A text without the separator is split off.
pub split_off :
    (c : Char) (s t : String)
    → has_char (code c) s ≡ false
    → split (code c) (s ⧺ String.◌∷◌ c t) ≡ s ∷ split (code c) t
unfolding split has_char begin_with
split_off c String.[] t absent = let same : (code c == code c) ≡ true = ground arith in rw same refl
split_off c (String.◌∷◌ d s) t absent =
    let other : (code d == code c) ≡ false = ground arith in
    rw (other, split_off c s t (ground arith)) refl

pub split_pair :
    (c : Char) (s t : String)
    → has_char (code c) s ≡ false
    → has_char (code c) t ≡ false
    → split (code c) (s ⧺ String.◌∷◌ c t) ≡ s ∷ t ∷ []
split_pair c s t absent absent' =
    split_off c s t absent ∙ ap (λ parts. s ∷ parts) (split_absent (code c) t absent')

digits_from-has_char :
    (limit value c n : ℕ) (s : String)
    → is_digit c ≡ false
    → digits_from limit value s ≡ some n
    → has_char c s ≡ false
unfolding digits_from has_char
digits_from-has_char limit value c n String.[] other parsed = refl
digits_from-has_char limit value c n (String.◌∷◌ d s) other parsed =
    ground (arith, digits_from-has_char limit (value * 10 + (code d - 48)) c n s other)

digits-has_char :
    (limit c n : ℕ) (s : String)
    → is_digit c ≡ false
    → digits limit s ≡ some n
    → has_char c s ≡ false
unfolding digits
digits-has_char limit c n String.[] other parsed = cc parsed
digits-has_char limit c n (String.◌∷◌ d s) other parsed =
    digits_from-has_char limit 0 c n (String.◌∷◌ d s) other parsed

-- A text that parses as an unsigned number holds digits and plus signs only.
pub parse_uint-has_char :
    (limit c n : ℕ) (s : String)
    → is_digit c ≡ false
    → (43 == c) ≡ false
    → parse_uint limit s ≡ some n
    → has_char c s ≡ false
unfolding parse_uint has_char
parse_uint-has_char limit c n String.[] other no_plus parsed = refl
parse_uint-has_char limit c n (String.◌∷◌ d s) other no_plus parsed =
    elim (Bool-cases (code d == 43)) [
      | inl plus ↦ ground (arith, digits-has_char limit c n s other (rw plus at parsed))
      | inr digit ↦ digits-has_char limit c n (String.◌∷◌ d s) other (rw digit at parsed)
    ]
