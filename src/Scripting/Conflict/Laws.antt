-- ===== src/Scripting/Conflict/Laws.antt =====
-- What one check does, and what two of them do in either order (src/scripting/conflict.rs). The
-- statements hold for the three kinds of targets at once: `K` is a pin, or a device and an address.
use sens.Common.{
  ◌<◌, ◌≡◌, ap, ◌∙◌, ◌↔◌, inl, inr, Bool, true, false, ◌&&◌, none, some, List, arith, str_eq,
  if◌then◌else◌, Option-cases,
}
use sens.Common.Map.{Eq, get, insert, get-insert, beq_refl}
use sens.Scripting.Conflict.{
  PendingWrite, ConflictResult, no_conflict, conflict_won, conflict_lost, duplicate, value_eq,
  check_write, against,
}

-- The caller goes on with the write.
abbrev pub proceeds : ConflictResult → Bool
proceeds no_conflict = true
proceeds conflict_won = true
proceeds conflict_lost = false
proceeds duplicate = false

module _ {K : Type 0} ⦃e : Eq K⦄ where
  pub check-none :
      (key : K) (w : PendingWrite) (writes : List (K × PendingWrite))
      → get key writes ≡ none
      → check_write key w writes ≡ (insert key w writes, no_conflict)
  unfolding check_write
  check-none key w writes h = rw (h, check_write)

  pub check-some :
      (key : K) (w p : PendingWrite) (writes : List (K × PendingWrite))
      → get key writes ≡ some p
      → check_write key w writes ≡ against p key w writes
  unfolding check_write
  check-some key w p writes h = rw (h, check_write)

  pub get-insert_self :
      (key : K) (w : PendingWrite) (writes : List (K × PendingWrite))
      → get key (insert key w writes) ≡ some w
  get-insert_self key w writes = rw (get-insert key key w writes, beq_refl key)

  against-lost :
      (key : K) (w p : PendingWrite) (writes : List (K × PendingWrite))
      → (against p key w writes).1 ≡ conflict_lost
      → (str_eq p.script_id w.script_id ≡ false)
        × (value_eq p.value w.value ≡ false)
        × (w.priority < p.priority)
  unfolding against
  against-lost key w p writes h = ground arith

  -- A script of a higher priority overrides, and one of a lower priority is blocked.
  pub against-won :
      (key : K) (w p : PendingWrite) (writes : List (K × PendingWrite))
      → str_eq p.script_id w.script_id ≡ false
      → value_eq p.value w.value ≡ false
      → p.priority < w.priority
      → against p key w writes ≡ (insert key w writes, conflict_won)
  unfolding against
  against-won key w p writes s v lt = ground arith

  against-blocked :
      (key : K) (w p : PendingWrite) (writes : List (K × PendingWrite))
      → str_eq p.script_id w.script_id ≡ false
      → value_eq p.value w.value ≡ false
      → w.priority < p.priority
      → against p key w writes ≡ (writes, conflict_lost)
  unfolding against
  against-blocked key w p writes s v lt = ground arith

  -- A write is registered as pending for its target exactly if the caller may go on with it; if
  -- not, what was pending stays. No other target is touched.
  pub registered_if_proceeds :
      (key j : K) (w : PendingWrite) (writes : List (K × PendingWrite))
      → let (writes', result) = check_write key w writes in
        get j writes' ≡ (if e.beq key j && proceeds result then some w else get j writes)
  unfolding check_write
  registered_if_proceeds key j w writes = ground (arith, get-insert key j w writes)

  -- A write is blocked exactly if another script with a strictly higher priority has a write of
  -- another value pending for the same target.
  pub lost_iff :
      (key : K) (w : PendingWrite) (writes : List (K × PendingWrite))
      → ((check_write key w writes).1 ≡ conflict_lost) ↔ (
          (p : PendingWrite) × (get key writes ≡ some p)
          × (str_eq p.script_id w.script_id ≡ false)
          × (value_eq p.value w.value ≡ false)
          × (w.priority < p.priority))
  unfolding check_write
  lost_iff key w writes = (there, back)
    where
      there :
          (check_write key w writes).1 ≡ conflict_lost
          → (p : PendingWrite) × (get key writes ≡ some p)
            × (str_eq p.script_id w.script_id ≡ false)
            × (value_eq p.value w.value ≡ false)
            × (w.priority < p.priority)
      there h = elim (Option-cases (get key writes)) [
        | inl free ↦ cc (ap (λ r. r.1) (check-none key w writes free))
        | inr (p, found) ↦
            let (s, v, lt) =
              against-lost key w p writes (rw (check-some key w p writes found) at h) in
            (p, found, s, v, lt)
      ]

      back :
          ((p : PendingWrite) × (get key writes ≡ some p)
            × (str_eq p.script_id w.script_id ≡ false)
            × (value_eq p.value w.value ≡ false)
            × (w.priority < p.priority))
          → (check_write key w writes).1 ≡ conflict_lost
      back (p, found, s, v, lt) =
          rw (check-some key w p writes found, against-blocked key w p writes s v lt)

  -- Between two scripts of different priorities that write different values to one target, the order
  -- does not matter: where neither the target nor any other writer is pending, both orders leave the
  -- write of the higher priority pending, and the lower one never overwrites it.
  pub order_irrelevant :
      (key : K) (a b : PendingWrite) (writes : List (K × PendingWrite))
      → get key writes ≡ none
      → str_eq a.script_id b.script_id ≡ false
      → str_eq b.script_id a.script_id ≡ false
      → value_eq a.value b.value ≡ false
      → value_eq b.value a.value ≡ false
      → a.priority < b.priority
      → (get key (check_write key b (check_write key a writes).0).0 ≡ some b)
        × (get key (check_write key a (check_write key b writes).0).0 ≡ some b)
        × ((check_write key a (check_write key b writes).0).1 ≡ conflict_lost)
        × ((check_write key b (check_write key a writes).0).1 ≡ conflict_won)
  order_irrelevant key a b writes free s s' v v' lt =
      let first_a = check-none key a writes free in
      let first_b = check-none key b writes free in
      let then_b : check_write key b (insert key a writes)
          ≡ (insert key b (insert key a writes), conflict_won) =
        check-some key b a (insert key a writes) (get-insert_self key a writes)
        ∙ against-won key b a (insert key a writes) s v lt in
      let then_a : check_write key a (insert key b writes) ≡ (insert key b writes, conflict_lost) =
        check-some key a b (insert key b writes) (get-insert_self key b writes)
        ∙ against-blocked key a b (insert key b writes) s' v' lt in
      (
        rw (first_a, then_b) (get-insert_self key b (insert key a writes)),
        rw (first_b, then_a) (get-insert_self key b writes),
        rw (first_b, then_a),
        rw (first_a, then_b),
      )
