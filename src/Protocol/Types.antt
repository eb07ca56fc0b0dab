-- ===== src/Protocol/Types.antt =====
-- The data of protocol/message.go: the register structs, the Register interface as their sum, and
-- the message that carries one. A Go string or byte slice is its list of bytes; a time is a number that the parameter `Clock` of Register.Time reads.
use phev2mqtt.Base.{ℕ, Bool, true, false, List, [], ◌∷◌, Option, none, if◌then◌else◌}
use phev2mqtt.Protocol.Constants.{ack_flag, cmd_out_ping_req, cmd_in_ping_resp}

pub record RegisterGeneric : Type 0 where
  pub reg : ℕ
  pub value : List ℕ

pub record RegisterTime : Type 0 where
  pub time : ℕ
  pub raw : List ℕ

pub record RegisterSettings : Type 0 where
  pub register : ℕ
  pub raw : List ℕ

pub record RegisterVin : Type 0 where
  pub vin : List ℕ
  pub registrations : ℕ
  pub raw : List ℕ

pub record RegisterEcuVersion : Type 0 where
  pub version : List ℕ
  pub raw : List ℕ

pub record RegisterBatteryLevel : Type 0 where
  pub level : ℕ
  pub parking_lights : Bool
  pub raw : List ℕ

pub record RegisterBatteryWarning : Type 0 where
  pub warning : ℕ
  pub raw : List ℕ

pub record RegisterDoorStatus : Type 0 where
  pub locked : Bool
  pub driver : Bool
  pub front_passenger : Bool
  pub rear_left : Bool
  pub rear_right : Bool
  pub bonnet : Bool
  pub boot : Bool
  pub headlights : Bool
  pub raw : List ℕ

pub record RegisterChargeStatus : Type 0 where
  pub charging : Bool
  pub remaining : ℕ
  pub raw : List ℕ

-- A PreACState is an int8, held here as the byte of the same bits.
pub record RegisterPreAcState : Type 0 where
  pub state : ℕ
  pub raw : List ℕ

pub record RegisterAcOperStatus : Type 0 where
  pub operating : Bool
  pub raw : List ℕ

pub record RegisterAcMode : Type 0 where
  pub mode : List ℕ
  pub duration : ℕ
  pub raw : List ℕ

pub record RegisterChargePlug : Type 0 where
  pub connected : Bool
  pub raw : List ℕ

pub record RegisterWifiSsid : Type 0 where
  pub ssid : List ℕ
  pub raw : List ℕ

pub record RegisterLightStatus : Type 0 where
  pub interior : Bool
  pub hazard : Bool
  pub raw : List ℕ

-- A value of the interface Register is one of the structs.
pub data Register : Type 0 where
  generic : RegisterGeneric → Register
  time : RegisterTime → Register
  settings : RegisterSettings → Register
  vin : RegisterVin → Register
  ecu_version : RegisterEcuVersion → Register
  battery_level : RegisterBatteryLevel → Register
  battery_warning : RegisterBatteryWarning → Register
  door_status : RegisterDoorStatus → Register
  charge_status : RegisterChargeStatus → Register
  pre_ac_state : RegisterPreAcState → Register
  ac_oper_status : RegisterAcOperStatus → Register
  ac_mode : RegisterAcMode → Register
  charge_plug : RegisterChargePlug → Register
  wifi_ssid : RegisterWifiSsid → Register
  light_status : RegisterLightStatus → Register

pub record PhevMessage : Type 0 where
  pub typ : ℕ
  pub length : ℕ
  pub ack : ℕ
  pub register : ℕ
  pub data_bytes : List ℕ
  pub checksum : ℕ
  pub xor : ℕ
  pub original : List ℕ
  pub original_xored : List ℕ
  pub reg : Option Register

-- The zero value of a message.
abbrev pub empty_message : PhevMessage
empty_message = record {
  typ = 0;
  length = 0;
  ack = 0;
  register = 0;
  data_bytes = [];
  checksum = 0;
  xor = 0;
  original = [];
  original_xored = [];
  reg = none;
}

unfoldable pub new_message : ℕ → ℕ → Bool → List ℕ → PhevMessage
new_message typ register ack bytes =
    let msg : PhevMessage = record empty_message {
      typ = typ;
      register = register;
      data_bytes = bytes;
    } in
    if ack then record msg { ack = ack_flag } else msg

unfoldable pub new_ping_request_message : ℕ → PhevMessage
unfolding new_message
new_ping_request_message id = new_message cmd_out_ping_req id false (0x0 ∷ [])

unfoldable pub new_ping_response_message : ℕ → PhevMessage
unfolding new_message
new_ping_response_message id = new_message cmd_in_ping_resp id true (0x0 ∷ [])
