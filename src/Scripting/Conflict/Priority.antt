-- ===== src/Scripting/Conflict/Priority.antt =====
-- The priorities of a whole execution cycle (src/scripting/conflict.rs, docs/ARCHITECTURE.md).
use text.Mathlib.TextEquality.{eq_iff}
use sens.Common.{
  ℕ, ◌≤◌, ◌<◌, String, ◌≡◌, refl, sym, ap, ◌∙◌, ◌≢◌, ◌⊎◌, inl, inr, true, false, Option, none, some,
  List, [], ◌∷◌, arith, str_eq, Option-cases,
}
use sens.Common.Map.{Eq, get, insert}
use sens.Scripting.Conflict.{PendingWrite, conflict_won, duplicate, value_eq, check_write, against}
use sens.Scripting.Conflict.Laws.{against-won, check-none, check-some, get-insert_self}

module _ {K : Type 0} ⦃e : Eq K⦄ (key : K) where
  -- The writes of a cycle to one target, in order.
  unfoldable pub check_all : List PendingWrite → List (K × PendingWrite) → List (K × PendingWrite)
  check_all [] writes = writes
  check_all (w ∷ ws) writes = check_all ws (check_write key w writes).0

  -- None of them repeats the value that another script has pending.
  unfoldable pub NoDuplicate : List PendingWrite → List (K × PendingWrite) → Type 0
  NoDuplicate [] writes = Unit
  NoDuplicate (w ∷ ws) writes =
      ((check_write key w writes).1 ≢ duplicate) × NoDuplicate ws (check_write key w writes).0

-- Every script writes with its own priority.
abbrev pub IsHonest : (String → ℕ) → PendingWrite → Type 0
IsHonest prio w = w.priority ≡ prio w.script_id

abbrev pub AllHonest : (String → ℕ) → List PendingWrite → Type 0
AllHonest prio [] = Unit
AllHonest prio (w ∷ ws) = IsHonest prio w × AllHonest prio ws

-- A write with a priority of at least `n` is pending.
abbrev pub Holds : ℕ → Option PendingWrite → Type 0
Holds n none = ⊥
Holds n (some p) = n ≤ p.priority

abbrev pub AllBelow : List PendingWrite → Option PendingWrite → Type 0
AllBelow [] o = Unit
AllBelow (w ∷ ws) o = Holds w.priority o × AllBelow ws o

abbrev HonestPending : (String → ℕ) → Option PendingWrite → Type 0
HonestPending prio none = Unit
HonestPending prio (some p) = IsHonest prio p

module _ {K : Type 0} ⦃e : Eq K⦄ (key : K) (prio : String → ℕ) where
  record Stepped (w : PendingWrite) (before after : Option PendingWrite) : Type 0 where
    honest : HonestPending prio after
    holds : Holds w.priority after
    keeps : (n : ℕ) → Holds n before → Holds n after

  same_priority :
      (p w : PendingWrite)
      → IsHonest prio p
      → IsHonest prio w
      → str_eq p.script_id w.script_id ≡ true
      → p.priority ≡ w.priority
  same_priority p w hp hw s = hp ∙ (ap prio ((eq_iff p.script_id w.script_id).0 s) ∙ sym hw)

  against-pending :
      (w p : PendingWrite) (writes : List (K × PendingWrite))
      → get key writes ≡ some p
      → IsHonest prio p
      → IsHonest prio w
      → (against p key w writes).1 ≢ duplicate
      → (get key (against p key w writes).0 ≡ some w) × (p.priority ≤ w.priority)
        ⊎ (get key (against p key w writes).0 ≡ some p) × (w.priority ≤ p.priority)
  unfolding against
  against-pending w p writes found hp hw nd =
      ground (arith, get-insert_self key w writes, same_priority p w hp hw)

  against-Stepped :
      (w p : PendingWrite) (writes : List (K × PendingWrite))
      → get key writes ≡ some p
      → IsHonest prio p
      → IsHonest prio w
      → (against p key w writes).1 ≢ duplicate
      → Stepped w (some p) (get key (against p key w writes).0)
  against-Stepped w p writes found hp hw nd = elim (against-pending w p writes found hp hw nd) [
    | inl (new, le) ↦
        rw new (record { honest = hw; holds = omega arith; keeps = λ n h. omega arith })
    | inr (old, le) ↦ rw old (record { honest = hp; holds = le; keeps = λ n h. h })
  ]

  check-Stepped :
      (w : PendingWrite) (writes : List (K × PendingWrite))
      → HonestPending prio (get key writes)
      → IsHonest prio w
      → (check_write key w writes).1 ≢ duplicate
      → Stepped w (get key writes) (get key (check_write key w writes).0)
  check-Stepped w writes hp hw nd = elim (Option-cases (get key writes)) [
    | inl free ↦
        rw (check-none key w writes free, free, get-insert_self key w writes)
          (record { honest = hw; holds = omega arith; keeps = λ n h. absurd h })
    | inr (p, found) ↦
        rw (check-some key w p writes found, found)
          (against-Stepped w p writes found (rw found at hp) hw
            (λ d. nd (ap (λ r. r.1) (check-some key w p writes found) ∙ d)))
  ]

  check_all-Holds :
      (n : ℕ) (ws : List PendingWrite) (writes : List (K × PendingWrite))
      → HonestPending prio (get key writes)
      → AllHonest prio ws
      → NoDuplicate key ws writes
      → Holds n (get key writes)
      → Holds n (get key (check_all key ws writes))
  unfolding check_all NoDuplicate
  check_all-Holds n [] writes hp hs nd h = h
  check_all-Holds n (w ∷ ws) writes hp hs nd h =
      let stepped = check-Stepped w writes hp hs.0 nd.0 in
      check_all-Holds n ws (check_write key w writes).0 stepped.honest hs.1 nd.1 (stepped.keeps n h)

  -- The highest priority wins the cycle: where every script writes to a target with its own
  -- priority, and no write repeats the value that another script has pending there, the write that
  -- is pending after any sequence of writes has a priority at least that of each of them.
  pub highest_priority_holds :
      (ws : List PendingWrite) (writes : List (K × PendingWrite))
      → HonestPending prio (get key writes)
      → AllHonest prio ws
      → NoDuplicate key ws writes
      → AllBelow ws (get key (check_all key ws writes))
  unfolding check_all NoDuplicate
  highest_priority_holds [] writes hp hs nd = tt
  highest_priority_holds (w ∷ ws) writes hp hs nd =
      let stepped = check-Stepped w writes hp hs.0 nd.0 in
      let rest = (check_write key w writes).0 in
      (
        check_all-Holds w.priority ws rest stepped.honest hs.1 nd.1 stepped.holds,
        highest_priority_holds ws rest stepped.honest hs.1 nd.1,
      )

against-duplicate :
    {K : Type 0} ⦃e : Eq K⦄ (key : K) (w p : PendingWrite) (writes : List (K × PendingWrite))
    → str_eq p.script_id w.script_id ≡ false
    → value_eq p.value w.value ≡ true
    → against p key w writes ≡ (writes, duplicate)
unfolding against
against-duplicate key w p writes s v = ground arith

-- A repeated value hides its priority: a script `a` has a write pending, a script `c` of a higher
-- priority writes the same value, and then a script `b` writes another value with a priority
-- between theirs. The write of `c` counts as a duplicate and is not registered, so `b` wins over the
-- value that the script of the highest priority has asked for.
pub duplicate_loses_priority :
    {K : Type 0} ⦃e : Eq K⦄ (key : K) (a b c : PendingWrite)
    → str_eq a.script_id c.script_id ≡ false
    → str_eq a.script_id b.script_id ≡ false
    → value_eq a.value c.value ≡ true
    → value_eq a.value b.value ≡ false
    → a.priority < b.priority
    → b.priority < c.priority
    → let writes = check_all key (a ∷ c ∷ []) [] in
      (get key writes ≡ some a)
      × ((check_write key b writes).1 ≡ conflict_won)
      × (get key (check_write key b writes).0 ≡ some b)
unfolding check_all
duplicate_loses_priority key a b c s t v u lt lt' =
    let pending = get-insert_self key a [] in
    let first = check-none key a [] (unfold get in refl) in
    let second : check_write key c (insert key a []) ≡ (insert key a [], duplicate) =
      check-some key c a (insert key a []) pending
      ∙ against-duplicate key c a (insert key a []) s v in
    let third : check_write key b (insert key a [])
        ≡ (insert key b (insert key a []), conflict_won) =
      check-some key b a (insert key a []) pending ∙ against-won key b a (insert key a []) t u lt in
    let both : check_all key (a ∷ c ∷ []) [] ≡ insert key a [] =
      ap (λ r. (check_write key c r.0).0) first ∙ ap (λ r. r.0) second in
    (rw both pending, rw (both, third), rw (both, third) (get-insert_self key b (insert key a [])))
