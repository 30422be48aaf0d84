-- ===== src/Common/Text.antt =====
-- `str` as the repository uses it: splitting, trimming, prefixes, and the parsing and printing of
-- unsigned numbers.
pub mod Laws
use Prim.Native.Char.{Char, code}
use Prim.Native.String.{String}
use Prim.Native.String
use sens.Common.{
  ℕ, zero, suc, ◌+◌, ◌-◌, ◌*◌, ◌/◌, ◌%◌, ◌^◌, ◌≤◌, ◌<◌, min, max, String, ◌≡◌, refl, sym, ap, ◌∙◌,
  ◌≢◌, ◌↔◌, ◌⊎◌, inl, inr, Bool, true, false, not, ◌&&◌, ◌||◌, Option, none, some, List, [], ◌∷◌,
  ◌++◌, map, arith, dec_lt, ℕ_discrete, add-zero, add-suc, suc-add, add_comm, add_assoc, ltb, leb,
  ◌==◌, str_eq, if◌then◌else◌, is_any, set_if, is_some, unwrap_or, and_then, ltb→lt, leb→le, ==_iff,
  Bool-cases, Option-cases, length, length-append, trues, u32_mod, u64_mod, wrap32, wrap64,
  Readings, elapsed_ms, from_millis, IsChain, last_reading, le-last_reading, max_instant,
}

infixr 65 ◌⧺◌
abbrev pub ◌⧺◌ : String → String → String
String.[] ⧺ t = t
String.◌∷◌ c s ⧺ t = String.◌∷◌ c (s ⧺ t)

-- `s.starts_with(p)`
unfoldable pub starts_with : String → String → Bool
starts_with s String.[] = true
starts_with String.[] (String.◌∷◌ c p) = false
starts_with (String.◌∷◌ d s) (String.◌∷◌ c p) = code d == code c && starts_with s p

-- `s[n..]`, where the text begins with `n` ASCII characters.
unfoldable pub skip : ℕ → String → String
skip zero s = s
skip (suc n) String.[] = String.[]
skip (suc n) (String.◌∷◌ c s) = skip n s

-- `s.contains(c)`
unfoldable pub has_char : ℕ → String → Bool
has_char c String.[] = false
has_char c (String.◌∷◌ d s) = code d == c || has_char c s

-- A character before the first of the parts.
unfoldable pub begin_with : Char → List String → List String
begin_with c [] = String.◌∷◌ c String.[] ∷ []
begin_with c (p ∷ ps) = String.◌∷◌ c p ∷ ps

-- `s.split(c)`
unfoldable pub split : ℕ → String → List String
unfolding begin_with
split c String.[] = String.[] ∷ []
split c (String.◌∷◌ d s) =
    let rest = split c s in if code d == c then String.[] ∷ rest else begin_with d rest

-- `char::is_whitespace`
unfoldable pub is_whitespace : ℕ → Bool
is_whitespace c =
    (leb 9 c && leb c 13)
    || c == 32
    || c == 133
    || c == 160
    || c == 5760
    || (leb 8192 c && leb c 8202)
    || c == 8232
    || c == 8233
    || c == 8239
    || c == 8287
    || c == 12288

-- The words of a text; the first is "" exactly where the text begins with white space or is empty.
unfoldable pub words_from : String → List String
unfolding is_whitespace begin_with
words_from String.[] = String.[] ∷ []
words_from (String.◌∷◌ c s) =
    let rest = words_from s in
    if is_whitespace (code c) then String.[] ∷ rest else begin_with c rest

unfoldable pub without_empty : List String → List String
without_empty [] = []
without_empty (s ∷ ss) =
    let rest = without_empty ss in if str_eq s String.[] then rest else s ∷ rest

-- `s.split_whitespace()`
unfoldable pub split_whitespace : String → List String
unfolding words_from without_empty
split_whitespace s = without_empty (words_from s)

unfoldable pub trim_start : String → String
unfolding is_whitespace
trim_start String.[] = String.[]
trim_start (String.◌∷◌ c s) =
    let rest = trim_start s in if is_whitespace (code c) then rest else String.◌∷◌ c s

unfoldable pub trim_end : String → String
unfolding is_whitespace
trim_end String.[] = String.[]
trim_end (String.◌∷◌ c s) =
    let rest = trim_end s in
    if str_eq rest String.[] && is_whitespace (code c) then String.[] else String.◌∷◌ c rest

unfoldable pub trim : String → String
unfolding trim_start trim_end
trim s = trim_end (trim_start s)

abbrev pub is_digit : ℕ → Bool
is_digit c = leb 48 c && leb c 57

-- The digits of a number below `limit`, after digits that make `value`.
unfoldable pub digits_from : ℕ → ℕ → String → Option ℕ
digits_from limit value String.[] = some value
digits_from limit value (String.◌∷◌ c s) =
    let next = value * 10 + (code c - 48) in
    let rest = digits_from limit next s in
    if is_digit (code c) && ltb next limit then rest else none

unfoldable pub digits : ℕ → String → Option ℕ
unfolding digits_from
digits limit String.[] = none
digits limit (String.◌∷◌ c s) = digits_from limit 0 (String.◌∷◌ c s)

-- `s.parse()` to an unsigned integer below `limit`, which may have a plus sign.
unfoldable pub parse_uint : ℕ → String → Option ℕ
unfolding digits
parse_uint limit String.[] = none
parse_uint limit (String.◌∷◌ c s) =
    if code c == 43 then digits limit s else digits limit (String.◌∷◌ c s)

-- The characters of numbers below 10.
abbrev pub digit : ℕ → String
digit n =
    if n == 0
    then "0"
    else (if n == 1
        then "1"
        else (if n == 2
            then "2"
            else (if n == 3
                then "3"
                else (if n == 4
                    then "4"
                    else (if n == 5
                        then "5"
                        else (if n == 6
                            then "6"
                            else (if n == 7 then "7" else (if n == 8 then "8" else "9"))))))))

unfoldable pub show_from : ℕ → ℕ → String → String
show_from zero n after = after
show_from (suc fuel) n after =
    let more = show_from fuel (n / 10) (digit (n % 10) ⧺ after) in
    if ltb n 10 then digit n ⧺ after else more

-- `{}` of a `usize`, which has at most 20 digits.
unfoldable pub show : ℕ → String
unfolding show_from
show n = show_from 20 n String.[]

show_large : show 18446744073709551615 ≡ "18446744073709551615"
unfolding show
show_large = refl

pub starts_with-append : (p s : String) → starts_with (p ⧺ s) p ≡ true
unfolding starts_with
starts_with-append String.[] s = refl
starts_with-append (String.◌∷◌ c p) s =
    let h : (code c == code c && starts_with (p ⧺ s) p) ≡ true =
      ground (arith, starts_with-append p s) in
    h
