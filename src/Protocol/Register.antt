-- ===== src/Protocol/Register.antt =====
-- The interface Register of protocol/message.go: its methods, dispatched on the struct behind it.
pub mod Plain
pub mod Identity
pub mod Battery
pub mod Body
pub mod Climate
pub mod Laws
use phev2mqtt.Base.{ℕ, List, Outcome, ok, hex_encode}
use phev2mqtt.Protocol.Constants.{
  time_register, vin_register, ecu_version_register, battery_level_register,
  battery_warning_register, door_status_register, charge_status_register, pre_ac_state_register,
  ac_oper_status_register, ac_mode_register, charge_plug_register, wifi_ssid_register,
  light_status_register,
}
use phev2mqtt.Protocol.Types.{Register, PhevMessage}
use Plain.{
  Clock, decode_generic, encode_generic, string_generic, decode_settings, encode_settings,
  string_settings, decode_time, encode_time, string_time,
}
use Identity.{
  decode_vin, encode_vin, string_vin, decode_ecu_version, encode_ecu_version, string_ecu_version,
  decode_wifi_ssid, encode_wifi_ssid, string_wifi_ssid,
}
use Battery.{
  decode_battery_level, encode_battery_level, string_battery_level, decode_battery_warning,
  encode_battery_warning, string_battery_warning, decode_charge_status, encode_charge_status,
  string_charge_status, decode_charge_plug, encode_charge_plug, string_charge_plug,
}
use Body.{
  decode_door_status, encode_door_status, string_door_status, decode_light_status,
  encode_light_status, string_light_status,
}
use Climate.{
  decode_pre_ac_state, encode_pre_ac_state, string_pre_ac_state, decode_ac_oper_status,
  encode_ac_oper_status, string_ac_oper_status, decode_ac_mode, encode_ac_mode,
}

-- The method Register.
unfoldable pub register_number : Register → ℕ
register_number (Register.generic r) = r.reg
register_number (Register.time r) = time_register
register_number (Register.settings r) = r.register
register_number (Register.vin r) = vin_register
register_number (Register.ecu_version r) = ecu_version_register
register_number (Register.battery_level r) = battery_level_register
register_number (Register.battery_warning r) = battery_warning_register
register_number (Register.door_status r) = door_status_register
register_number (Register.charge_status r) = charge_status_register
register_number (Register.pre_ac_state r) = pre_ac_state_register
register_number (Register.ac_oper_status r) = ac_oper_status_register
register_number (Register.ac_mode r) = ac_mode_register
register_number (Register.charge_plug r) = charge_plug_register
register_number (Register.wifi_ssid r) = wifi_ssid_register
register_number (Register.light_status r) = light_status_register

-- The method Raw.
unfoldable pub raw_text : Register → List ℕ
raw_text (Register.generic r) = hex_encode r.value
raw_text (Register.time r) = hex_encode r.raw
raw_text (Register.settings r) = hex_encode r.raw
raw_text (Register.vin r) = hex_encode r.raw
raw_text (Register.ecu_version r) = hex_encode r.raw
raw_text (Register.battery_level r) = hex_encode r.raw
raw_text (Register.battery_warning r) = hex_encode r.raw
raw_text (Register.door_status r) = hex_encode r.raw
raw_text (Register.charge_status r) = hex_encode r.raw
raw_text (Register.pre_ac_state r) = hex_encode r.raw
raw_text (Register.ac_oper_status r) = hex_encode r.raw
raw_text (Register.ac_mode r) = hex_encode r.raw
raw_text (Register.charge_plug r) = hex_encode r.raw
raw_text (Register.wifi_ssid r) = hex_encode r.raw
raw_text (Register.light_status r) = hex_encode r.raw

module _ (clock : Clock) where
  -- The method Decode.
  unfoldable pub decode : Register → PhevMessage → Register
  decode (Register.generic r) m = Register.generic (decode_generic r m)
  decode (Register.time r) m = Register.time (decode_time clock r m)
  decode (Register.settings r) m = Register.settings (decode_settings r m)
  decode (Register.vin r) m = Register.vin (decode_vin r m)
  decode (Register.ecu_version r) m = Register.ecu_version (decode_ecu_version r m)
  decode (Register.battery_level r) m = Register.battery_level (decode_battery_level r m)
  decode (Register.battery_warning r) m = Register.battery_warning (decode_battery_warning r m)
  decode (Register.door_status r) m = Register.door_status (decode_door_status r m)
  decode (Register.charge_status r) m = Register.charge_status (decode_charge_status r m)
  decode (Register.pre_ac_state r) m = Register.pre_ac_state (decode_pre_ac_state r m)
  decode (Register.ac_oper_status r) m = Register.ac_oper_status (decode_ac_oper_status r m)
  decode (Register.ac_mode r) m = Register.ac_mode (decode_ac_mode r m)
  decode (Register.charge_plug r) m = Register.charge_plug (decode_charge_plug r m)
  decode (Register.wifi_ssid r) m = Register.wifi_ssid (decode_wifi_ssid r m)
  decode (Register.light_status r) m = Register.light_status (decode_light_status r m)

  -- The method Encode.
  unfoldable pub encode : Register → Outcome PhevMessage
  encode (Register.generic r) = ok (encode_generic r)
  encode (Register.time r) = ok (encode_time clock r)
  encode (Register.settings r) = ok (encode_settings r)
  encode (Register.vin r) = ok (encode_vin r)
  encode (Register.ecu_version r) = ok (encode_ecu_version r)
  encode (Register.battery_level r) = ok (encode_battery_level r)
  encode (Register.battery_warning r) = ok (encode_battery_warning r)
  encode (Register.door_status r) = ok (encode_door_status r)
  encode (Register.charge_status r) = ok (encode_charge_status r)
  encode (Register.pre_ac_state r) = encode_pre_ac_state r
  encode (Register.ac_oper_status r) = ok (encode_ac_oper_status r)
  encode (Register.ac_mode r) = ok (encode_ac_mode r)
  encode (Register.charge_plug r) = ok (encode_charge_plug r)
  encode (Register.wifi_ssid r) = encode_wifi_ssid r
  encode (Register.light_status r) = encode_light_status r

  -- The method String.
  unfoldable pub string : Register → Outcome (List ℕ)
  string (Register.generic r) = ok (string_generic r)
  string (Register.time r) = ok (string_time clock r)
  string (Register.settings r) = string_settings r
  string (Register.vin r) = ok (string_vin r)
  string (Register.ecu_version r) = ok (string_ecu_version r)
  string (Register.battery_level r) = ok (string_battery_level r)
  string (Register.battery_warning r) = ok (string_battery_warning r)
  string (Register.door_status r) = ok (string_door_status r)
  string (Register.charge_status r) = ok (string_charge_status r)
  string (Register.pre_ac_state r) = ok (string_pre_ac_state r)
  string (Register.ac_oper_status r) = ok (string_ac_oper_status r)
  string (Register.ac_mode r) = ok r.mode
  string (Register.charge_plug r) = ok (string_charge_plug r)
  string (Register.wifi_ssid r) = ok (string_wifi_ssid r)
  string (Register.light_status r) = ok (string_light_status r)
