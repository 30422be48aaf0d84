-- ===== src/FunctionBlocks/Block.antt =====
-- `Box<dyn FunctionBlock>` (src/scripting/function_blocks/mod.rs): the trait's methods by the
-- block's type.
pub mod Laws
use sens.Common.{String, Bool, Option, Readings}
use sens.Common.Json.{Json}
use sens.FunctionBlocks.Timers.Ton
use sens.FunctionBlocks.Timers.Ton.{Ton}
use sens.FunctionBlocks.Timers.Tof
use sens.FunctionBlocks.Timers.Tof.{Tof}
use sens.FunctionBlocks.Timers.Tp
use sens.FunctionBlocks.Timers.Tp.{Tp}
use sens.FunctionBlocks.Counters.Ctu
use sens.FunctionBlocks.Counters.Ctu.{Ctu}
use sens.FunctionBlocks.Counters.Ctd
use sens.FunctionBlocks.Counters.Ctd.{Ctd}
use sens.FunctionBlocks.Counters.Ctud
use sens.FunctionBlocks.Counters.Ctud.{Ctud}
use sens.FunctionBlocks.Edges
use sens.FunctionBlocks.Edges.{Trig}

pub data FunctionBlock : Type 0 where
  ton : Ton → FunctionBlock
  tof : Tof → FunctionBlock
  tp : Tp → FunctionBlock
  ctu : Ctu → FunctionBlock
  ctd : Ctd → FunctionBlock
  ctud : Ctud → FunctionBlock
  r_trig : Trig → FunctionBlock
  f_trig : Trig → FunctionBlock

unfoldable pub fb_type : FunctionBlock → String
fb_type (ton t) = "TON"
fb_type (tof t) = "TOF"
fb_type (tp t) = "TP"
fb_type (ctu c) = "CTU"
fb_type (ctd c) = "CTD"
fb_type (ctud c) = "CTUD"
fb_type (r_trig t) = "R_TRIG"
fb_type (f_trig t) = "F_TRIG"

unfoldable pub execute : Readings → FunctionBlock → FunctionBlock
execute r (ton t) = ton (Ton.execute r t)
execute r (tof t) = tof (Tof.execute r t)
execute r (tp t) = tp (Tp.execute r t)
execute r (ctu c) = ctu (Ctu.execute c)
execute r (ctd c) = ctd (Ctd.execute c)
execute r (ctud c) = ctud (Ctud.execute c)
execute r (r_trig t) = r_trig (Edges.execute_r_trig t)
execute r (f_trig t) = f_trig (Edges.execute_f_trig t)

unfoldable pub reset : FunctionBlock → FunctionBlock
reset (ton t) = ton (Ton.reset t)
reset (tof t) = tof (Tof.reset t)
reset (tp t) = tp (Tp.reset t)
reset (ctu c) = ctu (Ctu.reset_counter c)
reset (ctd c) = ctd (Ctd.reset_counter c)
reset (ctud c) = ctud (Ctud.reset_counter c)
reset (r_trig t) = r_trig (Edges.reset t)
reset (f_trig t) = f_trig (Edges.reset t)

-- A method's new state, back under its constructor.
abbrev under {ℓ} : {A : Type ℓ} → (A → FunctionBlock) → A × Bool → FunctionBlock × Bool
under c (a, done) = (c a, done)

module _ {Value : Type 0} (json : Json Value) where
  unfoldable pub get_output : String → FunctionBlock → Option Value
  get_output name (ton t) = Ton.get_output json name t
  get_output name (tof t) = Tof.get_output json name t
  get_output name (tp t) = Tp.get_output json name t
  get_output name (ctu c) = Ctu.get_output json name c
  get_output name (ctd c) = Ctd.get_output json name c
  get_output name (ctud c) = Ctud.get_output json name c
  get_output name (r_trig t) = Edges.get_output json name t
  get_output name (f_trig t) = Edges.get_output json name t

  unfoldable pub set_input : String → Value → FunctionBlock → FunctionBlock × Bool
  set_input name value (ton t) = under ton (Ton.set_input json name value t)
  set_input name value (tof t) = under tof (Tof.set_input json name value t)
  set_input name value (tp t) = under tp (Tp.set_input json name value t)
  set_input name value (ctu c) = under ctu (Ctu.set_input json name value c)
  set_input name value (ctd c) = under ctd (Ctd.set_input json name value c)
  set_input name value (ctud c) = under ctud (Ctud.set_input json name value c)
  set_input name value (r_trig t) = under r_trig (Edges.set_input json name value t)
  set_input name value (f_trig t) = under f_trig (Edges.set_input json name value t)

  unfoldable pub serialize_state : FunctionBlock → Value
  serialize_state (ton t) = Ton.serialize_state json t
  serialize_state (tof t) = Tof.serialize_state json t
  serialize_state (tp t) = Tp.serialize_state json t
  serialize_state (ctu c) = Ctu.serialize_state json c
  serialize_state (ctd c) = Ctd.serialize_state json c
  serialize_state (ctud c) = Ctud.serialize_state json c
  serialize_state (r_trig t) = Edges.serialize_state json t
  serialize_state (f_trig t) = Edges.serialize_state json t

  unfoldable pub deserialize_state : Readings → Value → FunctionBlock → FunctionBlock × Bool
  deserialize_state r v (ton t) = under ton (Ton.deserialize_state json r v t)
  deserialize_state r v (tof t) = under tof (Tof.deserialize_state json r v t)
  deserialize_state r v (tp t) = under tp (Tp.deserialize_state json r v t)
  deserialize_state r v (ctu c) = under ctu (Ctu.deserialize_state json v c)
  deserialize_state r v (ctd c) = under ctd (Ctd.deserialize_state json v c)
  deserialize_state r v (ctud c) = under ctud (Ctud.deserialize_state json v c)
  deserialize_state r v (r_trig t) = under r_trig (Edges.deserialize_state json v t)
  deserialize_state r v (f_trig t) = under f_trig (Edges.deserialize_state json v t)
