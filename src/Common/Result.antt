-- ===== src/Common/Result.antt =====
-- Rust's `Result<A, E>`.
use Prim.Native.String.{String}
use mathlib.Core.Option.{Option, none, some}
use mathlib.Core.Bool.{Bool, true, false}
use mathlib.Core.Path.{◌≡◌, refl}
use mathlib.Core.Logic.{◌⊎◌, inl, inr}

pub data Result {ℓ κ} (A : Type ℓ) (E : Type κ) : Type (ℓ ⊔ κ) where
  ok : A → Result A E
  err : E → Result A E

abbrev pub is_ok {ℓ κ} : {A : Type ℓ} {E : Type κ} → Result A E → Bool
is_ok (ok a) = true
is_ok (err e) = false

pub Result-cases {ℓ κ} :
    {A : Type ℓ} {E : Type κ} (r : Result A E) → ((a : A) × (r ≡ ok a)) ⊎ ((e : E) × (r ≡ err e))
Result-cases (ok a) = inl (a, refl)
Result-cases (err e) = inr (e, refl)

-- `?` on a call that gives its error, if any.
abbrev pub unless {ℓ} : {A : Type ℓ} → Option String → (String → A) → A → A
unless none on_error rest = rest
unless (some e) on_error rest = on_error e

abbrev pub and_ok {ℓ κ} : {A : Type ℓ} {B : Type κ} → Result A String → (String → B) → (A → B) → B
and_ok (ok a) on_error rest = rest a
and_ok (err e) on_error rest = on_error e
