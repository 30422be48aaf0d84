-- ===== src/FunctionBlocks/Block/Laws.antt =====
-- What holds of the trait's methods for every type of block (function_blocks/mod.rs).
use sens.Common.{
  and_then, [], ◌∷◌, is_any, String, ◌≡◌, refl, ap, Bool, true, false, Option, none, some,
  if◌then◌else◌, set_if,
}
use sens.Common.Json.{Json}
use sens.FunctionBlocks.Block.{
  FunctionBlock, ton, tof, tp, ctu, ctd, ctud, r_trig, f_trig, get_output, set_input,
}
use sens.FunctionBlocks.Timers.Ton
use sens.FunctionBlocks.Timers.Ton.{Ton}
use sens.FunctionBlocks.Timers.Tof
use sens.FunctionBlocks.Timers.Tof.{Tof}
use sens.FunctionBlocks.Timers.Tp
use sens.FunctionBlocks.Timers.Tp.{Tp}
use sens.FunctionBlocks.Counters.Ctu
use sens.FunctionBlocks.Counters.Ctu.{Ctu}
use sens.FunctionBlocks.Counters.Ctd
use sens.FunctionBlocks.Counters.Ctd.{Ctd}
use sens.FunctionBlocks.Counters.Ctud
use sens.FunctionBlocks.Counters.Ctud.{Ctud}
use sens.FunctionBlocks.Edges
use sens.FunctionBlocks.Edges.{Trig}

-- An outcome of `set_input` at the state `s`: a refusal leaves `s`, and the output `out` of `s`
-- stands in either case.
record IsInert {ℓ κ} {S : Type ℓ} {O : Type κ} (out : S → O) (s : S) (p : S × Bool)
    : Type (ℓ ⊔ κ) where
  refused : p.1 ≡ false → p.0 ≡ s
  kept : out p.0 ≡ out s

module _ {ℓ κ} {S : Type ℓ} {O : Type κ} (out : S → O) (s : S) where
  unknown-IsInert : IsInert out s (s, false)
  unknown-IsInert = record { refused = λ _. refl; kept = refl }

  set_if-IsInert :
      {A : Type 0} (o : Option A) (f : A → S)
      → ((a : A) → out (f a) ≡ out s)
      → IsInert out s (set_if o (λ a. (f a, true)) (s, false))
  set_if-IsInert none f keep = unknown-IsInert
  set_if-IsInert (some a) f keep = record { refused = λ h. cc; kept = keep a }

  if-IsInert :
      (b : Bool) (p q : S × Bool)
      → IsInert out s p
      → IsInert out s q
      → IsInert out s (if b then p else q)
  if-IsInert true p q hp hq = hp
  if-IsInert false p q hp hq = hq

module _ {Value : Type 0} (json : Json Value) where
  ton-IsInert :
      (name out : String) (value : Value) (b : Ton)
      → IsInert (Ton.get_output json out) b (Ton.set_input json name value b)
  unfolding Ton.set_input Ton.get_output
  ton-IsInert name out value b =
      if-IsInert _ _ (is_any name ("IN" ∷ "in" ∷ "input" ∷ [])) _ _
        (set_if-IsInert _ _ (json.as_bool value) _ (λ _. refl))
        (if-IsInert _ _ (is_any name ("PT" ∷ "pt" ∷ "preset" ∷ [])) _ _
          (set_if-IsInert _ _ (json.as_u64 value) _ (λ _. refl))
          (if-IsInert _ _ (is_any name ("MODE" ∷ "mode" ∷ [])) _ _
            (set_if-IsInert _ _ (and_then (json.as_str value) Ton.parse_mode) _ (λ _. refl))
            (if-IsInert _ _ (is_any name ("CYCLE_TIME" ∷ "cycle_time" ∷ [])) _ _
              (set_if-IsInert _ _ (json.as_u64 value) _ (λ _. refl)) (unknown-IsInert _ _))))

  tof-IsInert :
      (name out : String) (value : Value) (b : Tof)
      → IsInert (Tof.get_output json out) b (Tof.set_input json name value b)
  unfolding Tof.set_input Tof.get_output
  tof-IsInert name out value b =
      if-IsInert _ _ (is_any name ("IN" ∷ "in" ∷ "input" ∷ [])) _ _
        (set_if-IsInert _ _ (json.as_bool value) _ (λ _. refl))
        (if-IsInert _ _ (is_any name ("PT" ∷ "pt" ∷ "preset" ∷ [])) _ _
          (set_if-IsInert _ _ (json.as_u64 value) _ (λ _. refl)) (unknown-IsInert _ _))

  tp-IsInert :
      (name out : String) (value : Value) (b : Tp)
      → IsInert (Tp.get_output json out) b (Tp.set_input json name value b)
  unfolding Tp.set_input Tp.get_output
  tp-IsInert name out value b =
      if-IsInert _ _ (is_any name ("IN" ∷ "in" ∷ "input" ∷ [])) _ _
        (set_if-IsInert _ _ (json.as_bool value) _ (λ _. refl))
        (if-IsInert _ _ (is_any name ("PT" ∷ "pt" ∷ "preset" ∷ [])) _ _
          (set_if-IsInert _ _ (json.as_u64 value) _ (λ _. refl)) (unknown-IsInert _ _))

  ctu-IsInert :
      (name out : String) (value : Value) (b : Ctu)
      → IsInert (Ctu.get_output json out) b (Ctu.set_input json name value b)
  unfolding Ctu.set_input Ctu.get_output
  ctu-IsInert name out value b =
      if-IsInert _ _ (is_any name ("CU" ∷ "cu" ∷ "count_up" ∷ [])) _ _
        (set_if-IsInert _ _ (json.as_bool value) _ (λ _. refl))
        (if-IsInert _ _ (is_any name ("R" ∷ "r" ∷ "reset" ∷ [])) _ _
          (set_if-IsInert _ _ (json.as_bool value) _ (λ _. refl))
          (if-IsInert _ _ (is_any name ("PV" ∷ "pv" ∷ "preset" ∷ [])) _ _
            (set_if-IsInert _ _ (json.as_i64 value) _ (λ _. refl)) (unknown-IsInert _ _)))

  ctd-IsInert :
      (name out : String) (value : Value) (b : Ctd)
      → IsInert (Ctd.get_output json out) b (Ctd.set_input json name value b)
  unfolding Ctd.set_input Ctd.get_output
  ctd-IsInert name out value b =
      if-IsInert _ _ (is_any name ("CD" ∷ "cd" ∷ "count_down" ∷ [])) _ _
        (set_if-IsInert _ _ (json.as_bool value) _ (λ _. refl))
        (if-IsInert _ _ (is_any name ("LD" ∷ "ld" ∷ "load" ∷ [])) _ _
          (set_if-IsInert _ _ (json.as_bool value) _ (λ _. refl))
          (if-IsInert _ _ (is_any name ("PV" ∷ "pv" ∷ "preset" ∷ [])) _ _
            (set_if-IsInert _ _ (json.as_i64 value) _ (λ _. refl)) (unknown-IsInert _ _)))

  ctud-IsInert :
      (name out : String) (value : Value) (b : Ctud)
      → IsInert (Ctud.get_output json out) b (Ctud.set_input json name value b)
  unfolding Ctud.set_input Ctud.get_output
  ctud-IsInert name out value b =
      if-IsInert _ _ (is_any name ("CU" ∷ "cu" ∷ "count_up" ∷ [])) _ _
        (set_if-IsInert _ _ (json.as_bool value) _ (λ _. refl))
        (if-IsInert _ _ (is_any name ("CD" ∷ "cd" ∷ "count_down" ∷ [])) _ _
          (set_if-IsInert _ _ (json.as_bool value) _ (λ _. refl))
          (if-IsInert _ _ (is_any name ("R" ∷ "r" ∷ "reset" ∷ [])) _ _
            (set_if-IsInert _ _ (json.as_bool value) _ (λ _. refl))
            (if-IsInert _ _ (is_any name ("LD" ∷ "ld" ∷ "load" ∷ [])) _ _
              (set_if-IsInert _ _ (json.as_bool value) _ (λ _. refl))
              (if-IsInert _ _ (is_any name ("PV" ∷ "pv" ∷ "preset" ∷ [])) _ _
                (set_if-IsInert _ _ (json.as_i64 value) _ (λ _. refl)) (unknown-IsInert _ _)))))

  trig-IsInert :
      (name out : String) (value : Value) (b : Trig)
      → IsInert (Edges.get_output json out) b (Edges.set_input json name value b)
  unfolding Edges.set_input Edges.get_output
  trig-IsInert name out value b =
      if-IsInert _ _ (is_any name ("CLK" ∷ "clk" ∷ "clock" ∷ "IN" ∷ "in" ∷ "input" ∷ [])) _ _
        (set_if-IsInert _ _ (json.as_bool value) _ (λ _. refl)) (unknown-IsInert _ _)

  -- An input that is refused, for its name or for the type of its value, changes nothing, in a
  -- block of any type.
  pub set_input_refused :
      (name : String) (value : Value) (b : FunctionBlock)
      → (set_input json name value b).1 ≡ false
      → (set_input json name value b).0 ≡ b
  unfolding set_input
  set_input_refused name value (ton b) h = ap ton ((ton-IsInert name name value b).refused h)
  set_input_refused name value (tof b) h = ap tof ((tof-IsInert name name value b).refused h)
  set_input_refused name value (tp b) h = ap tp ((tp-IsInert name name value b).refused h)
  set_input_refused name value (ctu b) h = ap ctu ((ctu-IsInert name name value b).refused h)
  set_input_refused name value (ctd b) h = ap ctd ((ctd-IsInert name name value b).refused h)
  set_input_refused name value (ctud b) h = ap ctud ((ctud-IsInert name name value b).refused h)
  set_input_refused name value (r_trig b) h = ap r_trig ((trig-IsInert name name value b).refused h)
  set_input_refused name value (f_trig b) h = ap f_trig ((trig-IsInert name name value b).refused h)

  -- Between two scans no output changes: whatever input is set, a block of any type still gives
  -- the same value for every output name.
  pub outputs_change_in_scans_only :
      (name out : String) (value : Value) (b : FunctionBlock)
      → get_output json out (set_input json name value b).0 ≡ get_output json out b
  unfolding set_input get_output
  outputs_change_in_scans_only name out value (ton b) = (ton-IsInert name out value b).kept
  outputs_change_in_scans_only name out value (tof b) = (tof-IsInert name out value b).kept
  outputs_change_in_scans_only name out value (tp b) = (tp-IsInert name out value b).kept
  outputs_change_in_scans_only name out value (ctu b) = (ctu-IsInert name out value b).kept
  outputs_change_in_scans_only name out value (ctd b) = (ctd-IsInert name out value b).kept
  outputs_change_in_scans_only name out value (ctud b) = (ctud-IsInert name out value b).kept
  outputs_change_in_scans_only name out value (r_trig b) = (trig-IsInert name out value b).kept
  outputs_change_in_scans_only name out value (f_trig b) = (trig-IsInert name out value b).kept
