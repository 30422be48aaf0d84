-- ===== src/Scripting/Triggers/Cron.antt =====
-- What a field of a cron expression in src/scripting/triggers.rs matches.
use Prim.Native.String.{String}
use sens.Common.{
  ℕ, ◌+◌, ◌-◌, ◌<◌, String, ◌≡◌, refl, sym, ap, ◌∙◌, inl, inr, true, false, ◌&&◌, some, arith, leb,
  ◌==◌, str_eq, if◌then◌else◌, Bool-cases, u32_mod,
}
use text.Mathlib.TextEquality.{eq_iff}
use sens.Common.Text.{◌⧺◌, starts_with, has_char}
use sens.Common.Text.Laws.{has_char-append, split_pair, parse_uint-has_char}
use sens.Scripting.Triggers.{
  parse_u32, in_range, match_range, match_range_or_single, match_list_or_range, match_cron_field,
}

-- The steps forward from `a` to `b` around a field of `m` values.
abbrev pub steps : ℕ → ℕ → ℕ → ℕ
steps m a b = if leb a b then b - a else b + m - a

not_star : (s : String) → has_char b'-' s ≡ true → str_eq s "*" ≡ false
unfolding has_char
not_star s dash = elim (Bool-cases (str_eq s "*")) [
  | inr other ↦ other
  | inl same ↦ absurd (cc (sym dash ∙ ap (has_char b'-') ((eq_iff s "*").0 same)))
]

not_step : (a t : String) → has_char b'*' a ≡ false → starts_with (a ⧺ "-" ⧺ t) "*/" ≡ false
unfolding starts_with has_char
not_step String.[] t no_star = refl
not_step (String.◌∷◌ c a) t no_star = ground arith

module _ (lo hi : String) (start end : ℕ) (parses_lo : parse_u32 lo ≡ some start)
    (parses_hi : parse_u32 hi ≡ some end) where
  abbrev pattern : String
  pattern = lo ⧺ "-" ⧺ hi

  lo_without : (c : ℕ) → (leb 48 c && leb c 57) ≡ false → (43 == c) ≡ false → has_char c lo ≡ false
  lo_without c other no_plus = parse_uint-has_char u32_mod c start lo other no_plus parses_lo

  hi_without : (c : ℕ) → (leb 48 c && leb c 57) ≡ false → (43 == c) ≡ false → has_char c hi ≡ false
  hi_without c other no_plus = parse_uint-has_char u32_mod c end hi other no_plus parses_hi

  has_dash : has_char b'-' pattern ≡ true
  unfolding has_char
  has_dash = ground (arith, has_char-append b'-' lo ("-" ⧺ hi))

  no_comma : has_char b',' pattern ≡ false
  unfolding has_char
  no_comma = ground (
    arith,
    has_char-append b',' lo ("-" ⧺ hi),
    lo_without b',' refl refl,
    hi_without b',' refl refl,
  )

  pattern_matches : (value : ℕ) → match_cron_field pattern value ≡ in_range value start end
  unfolding match_cron_field match_list_or_range match_range_or_single match_range
  pattern_matches value =
      rw
        (
          not_star pattern has_dash,
          not_step lo hi (lo_without b'*' refl refl),
          no_comma,
          has_dash,
          split_pair "-" lo hi (lo_without b'-' refl refl) (hi_without b'-' refl refl),
          parses_lo,
          parses_hi,
        )
        refl

in_range-steps :
    (m value start end : ℕ)
    → value < m
    → start < m
    → end < m
    → in_range value start end ≡ leb (steps m start value) (steps m start end)
unfolding in_range
in_range-steps m value start end hv hs he = ground arith

-- A range `lo-hi` of two numbers, in a field of `m` values that holds both, matches exactly the
-- values that come no later than `hi` when one walks on from `lo`, around the end of the field where
-- `hi` is smaller.
pub range_matches :
    (lo hi : String) (start end m value : ℕ)
    → parse_u32 lo ≡ some start
    → parse_u32 hi ≡ some end
    → start < m
    → end < m
    → value < m
    → match_cron_field (lo ⧺ "-" ⧺ hi) value ≡ leb (steps m start value) (steps m start end)
range_matches lo hi start end m value parses_lo parses_hi hs he hv =
    pattern_matches lo hi start end parses_lo parses_hi value
    ∙ in_range-steps m value start end hv hs he
