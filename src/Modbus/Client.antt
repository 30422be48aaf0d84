-- ===== src/Modbus/Client.antt =====
-- The data of the client in src/modbus.rs and of its security settings in src/config.rs.
use sens.Common.{
  ℕ, String, Bool, false, ◌||◌, Option, none, some, List, [], ◌∷◌, ◌==◌, str_eq, if◌then◌else◌,
}
use sens.Common.Result.{Result, ok, err}
use sens.Resilience.CircuitBreaker.{CircuitBreaker}
use sens.Resilience.RateLimiter.{RateLimiter}
use sens.Modbus.Registers.{ByteOrder}

pub record ModbusRegisterConfig (F : Type 0) : Type 0 where
  pub name : String
  pub address : ℕ
  pub register_type : String
  pub data_type : String
  pub byte_order : ByteOrder
  pub scale : F
  pub unit : Option String

pub record ModbusSecurityConfig : Type 0 where
  pub enabled : Bool
  pub allowed_function_codes : List ℕ
  pub rate_limit_ops_per_sec : ℕ
  pub rate_limit_burst : ℕ
  pub max_register_count : ℕ
  pub allow_writes : Bool

-- `channel` says whether there is one.
pub record ModbusClient (F : Type 0) : Type 0 where
  pub name : String
  pub connection_type : String
  pub registers : List (ModbusRegisterConfig F)
  pub security : ModbusSecurityConfig
  pub channel : Bool
  pub circuit_breaker : CircuitBreaker
  pub rate_limiter : RateLimiter

pub record RegisterValue (F : Type 0) : Type 0 where
  pub name : String
  pub address : ℕ
  pub raw_value : ℕ
  pub scaled_value : F
  pub unit : Option String

pub data ModbusError : Type 0 where
  function_not_allowed : ℕ → ModbusError
  writes_not_allowed : ModbusError
  rate_limit_exceeded : ModbusError
  too_many_registers : ℕ → ModbusError
  unknown_register_type : String → ModbusError
  not_connected : ModbusError
  invalid_range : ModbusError
  circuit_open : String → ModbusError
  failed : String → ModbusError

pub record ModbusReadResult (F : Type 0) : Type 0 where
  pub device_name : String
  pub values : List (RegisterValue F)
  pub errors : List ModbusError

-- What goes out on the channel: a read with its function code, address and count, or a write.
pub data Request : Type 0 where
  read : ℕ → ℕ → ℕ → Request
  write_single_register : ℕ → ℕ → Request
  write_single_coil : ℕ → Bool → Request

-- What the channel answers to the call that is made of it.
pub record Channel : Type 0 where
  pub read_holding_registers : ℕ → ℕ → Result (List ℕ) String
  pub read_input_registers : ℕ → ℕ → Result (List ℕ) String
  pub read_coils : ℕ → ℕ → Result (List Bool) String
  pub read_discrete_inputs : ℕ → ℕ → Result (List Bool) String
  pub write_register : ℕ → ℕ → Result (Unit {0}) String
  pub write_coil : ℕ → Bool → Result (Unit {0}) String

-- The client after a call, the requests that it sent, and its result.
abbrev pub Outcome : Type 0 → Type 0 → Type 0
Outcome F A = ModbusClient F × List Request × Result A ModbusError

abbrev pub fc_read_coils : ℕ
fc_read_coils = 1

abbrev pub fc_read_discrete_inputs : ℕ
fc_read_discrete_inputs = 2

abbrev pub fc_read_holding_registers : ℕ
fc_read_holding_registers = 3

abbrev pub fc_read_input_registers : ℕ
fc_read_input_registers = 4

abbrev pub fc_write_single_coil : ℕ
fc_write_single_coil = 5

abbrev pub fc_write_single_register : ℕ
fc_write_single_register = 6

-- The kinds of register.
pub data RegisterType : Type 0 where
  holding input coil discrete : RegisterType

unfoldable pub register_type_of : String → Option RegisterType
register_type_of t =
    if str_eq t "holding"
    then some holding
    else (if str_eq t "input"
        then some input
        else (if str_eq t "coil"
            then some coil
            else (if str_eq t "discrete" then some discrete else none)))

abbrev pub function_code : RegisterType → ℕ
function_code holding = fc_read_holding_registers
function_code input = fc_read_input_registers
function_code coil = fc_read_coils
function_code discrete = fc_read_discrete_inputs

-- `contains`
unfoldable pub contains_code : List ℕ → ℕ → Bool
contains_code [] c = false
contains_code (d ∷ ds) c = d == c || contains_code ds c

-- The first value of a coil or an input, as a register.
abbrev pub first_bit : List Bool → List ℕ
first_bit [] = 0 ∷ []
first_bit (b ∷ bs) = (if b then 1 else 0) ∷ []

abbrev pub map_ok : {A B : Type 0} → (A → B) → Result A String → Result B String
map_ok f (ok a) = ok (f a)
map_ok f (err e) = err e

-- The raw values that a read of each kind gives; a coil and an input are read alone.
unfoldable pub raw_values : Channel → RegisterType → ℕ → ℕ → Result (List ℕ) String
raw_values ch holding address n = ch.read_holding_registers address n
raw_values ch input address n = ch.read_input_registers address n
raw_values ch coil address n = map_ok first_bit (ch.read_coils address 1)
raw_values ch discrete address n = map_ok first_bit (ch.read_discrete_inputs address 1)

abbrev pub wire_count : RegisterType → ℕ → ℕ
wire_count holding n = n
wire_count input n = n
wire_count coil n = 1
wire_count discrete n = 1

abbrev pub first_of : List ℕ → ℕ
first_of [] = 0
first_of (v ∷ vs) = v

-- How an attempt to connect ends; only TCP has a timeout.
pub data Attempt : Type 0 where
  connected : Attempt
  refused : String → Attempt
  timed_out : Attempt
