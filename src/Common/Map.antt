-- ===== src/Common/Map.antt =====
-- `HashMap<K, V>` as an association list with at most one entry for a key.
use Prim.Native.Nat.{ℕ}
use mathlib.Core.Path.{◌≡◌, refl}
use mathlib.Core.Logic.{◌↔◌}
use mathlib.Core.Bool.{not, ◌||◌, ◌&&◌, Bool, true}
use mathlib.Core.Option
use mathlib.Core.Path.{ap}
use mathlib.Core.Logic.{inl, inr}
use sens.Common.Tests.{Bool-cases}
use mathlib.Core.Option.{Option, none, some}
use mathlib.Core.List.{List, [], ◌∷◌}
use native.Mathlib.Omega.{arith}
use text.Mathlib.TextEquality.{eq_iff}
use Prim.Native.String.{String}
use sens.Common.Tests.{◌==◌ as nat_eq, ==_iff, str_eq, if◌then◌else◌, is_some}

-- Equality of keys, as the map's hashing needs it.
pub record Eq (K : Type 0) : Type 0 where
  pub beq : K → K → Bool
  pub beq_iff : (a b : K) → (beq a b ≡ true) ↔ (a ≡ b)

instance abbrev pub string_key : Eq String
string_key = record { beq = str_eq; beq_iff = eq_iff }

instance abbrev pub nat_key : Eq ℕ
nat_key = record { beq = nat_eq; beq_iff = ==_iff }

pub pair_beq_iff : (p q : String × ℕ) → ((str_eq p.0 q.0 && nat_eq p.1 q.1) ≡ true) ↔ (p ≡ q)
pair_beq_iff p q = ground (arith, eq_iff p.0 q.0)

-- A device and an address of its.
instance abbrev pub pair_key : Eq (String × ℕ)
pair_key = record { beq = λ p q. str_eq p.0 q.0 && nat_eq p.1 q.1; beq_iff = pair_beq_iff }

pub string_pair_beq_iff :
    (p q : String × String) → ((str_eq p.0 q.0 && str_eq p.1 q.1) ≡ true) ↔ (p ≡ q)
string_pair_beq_iff p q = ground (arith, eq_iff p.0 q.0, eq_iff p.1 q.1)

-- A script and a variable of its.
instance abbrev pub string_pair_key : Eq (String × String)
string_pair_key = record {
  beq = λ p q. str_eq p.0 q.0 && str_eq p.1 q.1;
  beq_iff = string_pair_beq_iff;
}

module _ {K V : Type 0} ⦃e : Eq K⦄ where
  unfoldable pub get : K → List (K × V) → Option V
  get k [] = none
  get k ((j, v) ∷ m) = if e.beq j k then some v else get k m

  unfoldable pub insert : K → V → List (K × V) → List (K × V)
  insert k v [] = (k, v) ∷ []
  insert k v ((j, w) ∷ m) = if e.beq j k then (j, v) ∷ m else (j, w) ∷ insert k v m

  unfoldable pub remove : K → List (K × V) → List (K × V)
  remove k [] = []
  remove k ((j, w) ∷ m) = if e.beq j k then remove k m else (j, w) ∷ remove k m

  -- `get_mut`, and a change of what it finds.
  unfoldable pub update : K → (V → V) → List (K × V) → List (K × V)
  update k f [] = []
  update k f ((j, w) ∷ m) = if e.beq j k then (j, f w) ∷ m else (j, w) ∷ update k f m

  abbrev pub contains_key : K → List (K × V) → Bool
  contains_key k m = is_some (get k m)

  pub get-insert :
      (k j : K) (v : V) (m : List (K × V))
      → get j (insert k v m) ≡ (if e.beq k j then some v else get j m)
  unfolding get insert
  get-insert k j v [] = refl
  get-insert k j v ((i, w) ∷ m) =
      ground (arith, e.beq_iff k j, e.beq_iff i k, e.beq_iff i j, get-insert k j v m)

  pub get-remove :
      (k j : K) (m : List (K × V)) → get j (remove k m) ≡ (if e.beq k j then none else get j m)
  unfolding get remove
  get-remove k j [] = ground arith
  get-remove k j ((i, w) ∷ m) =
      ground (arith, e.beq_iff k j, e.beq_iff i k, e.beq_iff i j, get-remove k j m)

pub beq_refl : {K : Type 0} ⦃e : Eq K⦄ (k : K) → e.beq k k ≡ true
beq_refl ⦃e⦄ k = (e.beq_iff k k).1 refl

module _ {K V : Type 0} ⦃e : Eq K⦄ where
  pub get-update :
      (k j : K) (f : V → V) (m : List (K × V))
      → get j (update k f m) ≡ (if e.beq k j then Option.map f (get j m) else get j m)
  unfolding get update
  get-update k j f [] = ground arith
  get-update k j f ((i, w) ∷ m) =
      ground (arith, e.beq_iff k j, e.beq_iff i k, e.beq_iff i j, get-update k j f m)

  -- `for (k, v) in &mut map`
  unfoldable pub map_values : (K → V → V) → List (K × V) → List (K × V)
  map_values f [] = []
  map_values f ((k, v) ∷ m) = (k, f k v) ∷ map_values f m

  pub get-map_values :
      (f : K → V → V) (j : K) (m : List (K × V))
      → get j (map_values f m) ≡ Option.map (f j) (get j m)
  unfolding get map_values
  get-map_values f j [] = refl
  get-map_values f j ((i, w) ∷ m) = elim (Bool-cases (e.beq i j)) [
    | inl same ↦ rw same (ap (λ k. some (f k w)) ((e.beq_iff i j).0 same))
    | inr other ↦ rw other (get-map_values f j m)
  ]

pub is_some-map : {A B : Type 0} (f : A → B) (o : Option A) → is_some (Option.map f o) ≡ is_some o
is_some-map f none = refl
is_some-map f (some a) = refl

-- The keys of a map after each change.
module _ {K V : Type 0} ⦃e : Eq K⦄ where
  pub contains-insert :
      (k j : K) (v : V) (m : List (K × V))
      → contains_key j (insert k v m) ≡ (e.beq k j || contains_key j m)
  contains-insert k j v m = rw (get-insert k j v m) (ground arith)

  pub contains-remove :
      (k j : K) (m : List (K × V))
      → contains_key j (remove k m) ≡ (not (e.beq k j) && contains_key j m)
  contains-remove k j m = rw (get-remove k j m) (ground arith)

  pub contains-map_values :
      (f : K → V → V) (j : K) (m : List (K × V))
      → contains_key j (map_values f m) ≡ contains_key j m
  contains-map_values f j m = rw (get-map_values f j m) (is_some-map (f j) (get j m))

  pub contains-update :
      (k j : K) (f : V → V) (m : List (K × V)) → contains_key j (update k f m) ≡ contains_key j m
  contains-update k j f m = rw (get-update k j f m) (ground (arith, is_some-map f (get j m)))
