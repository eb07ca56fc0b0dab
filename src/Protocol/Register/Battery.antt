-- ===== src/Protocol/Register/Battery.antt =====
-- RegisterBatteryLevel, RegisterBatteryWarning, RegisterChargeStatus and RegisterChargePlug of
-- protocol/message.go. Each index stands below the length that the guard before it has checked.
use phev2mqtt.Base.{
  ℕ, ◌*◌, ◌/◌, ◌%◌, bit_or, List, [], ◌∷◌, ◌++◌, ltb, ◌==◌, ◌&&◌, ◌||◌, if◌then◌else◌, length,
  get_or, set, replicate, byte, codes, decimal,
}
use phev2mqtt.Protocol.Constants.{
  battery_level_register, battery_warning_register, charge_status_register, charge_plug_register,
}
use phev2mqtt.Protocol.Types.{
  PhevMessage, empty_message, RegisterBatteryLevel, RegisterBatteryWarning, RegisterChargeStatus,
  RegisterChargePlug,
}

unfoldable pub decode_battery_level : RegisterBatteryLevel → PhevMessage → RegisterBatteryLevel
decode_battery_level r m =
    if (m.register == battery_level_register) && (length m.data_bytes == 4)
    then record {
      level = get_or m.data_bytes 0 0;
      parking_lights = get_or m.data_bytes 2 0 == 0x1;
      raw = m.data_bytes;
    }
    else r

unfoldable pub encode_battery_level : RegisterBatteryLevel → PhevMessage
encode_battery_level r =
    let bytes = byte r.level ∷ 0x0 ∷ 0x0 ∷ [] in
    record empty_message {
      register = battery_level_register;
      data_bytes = if r.parking_lights then set bytes 2 0x1 else bytes;
    }

unfoldable pub string_battery_level : RegisterBatteryLevel → List ℕ
string_battery_level r = codes "Battery level: " ++ decimal r.level

unfoldable pub decode_battery_warning :
    RegisterBatteryWarning → PhevMessage → RegisterBatteryWarning
decode_battery_warning r m =
    if (m.register == battery_warning_register) && (length m.data_bytes == 4)
    then record { warning = get_or m.data_bytes 2 0; raw = m.data_bytes }
    else r

unfoldable pub encode_battery_warning : RegisterBatteryWarning → PhevMessage
encode_battery_warning r = record empty_message {
  register = battery_warning_register;
  data_bytes = 0x0 ∷ 0x0 ∷ byte r.warning ∷ 0x0 ∷ [];
}

unfoldable pub string_battery_warning : RegisterBatteryWarning → List ℕ
string_battery_warning r = codes "Battery warning: " ++ decimal r.warning

unfoldable pub decode_charge_status : RegisterChargeStatus → PhevMessage → RegisterChargeStatus
decode_charge_status r m =
    let at = λ (i : ℕ). get_or m.data_bytes i 0 in
    if (m.register == charge_status_register) && (length m.data_bytes == 3)
    then record {
      charging = at 0 == 0x1;
      remaining = if at 2 == 0xff then 0 else bit_or (at 2 * 256) (at 1);
      raw = m.data_bytes;
    }
    else r

unfoldable pub encode_charge_status : RegisterChargeStatus → PhevMessage
encode_charge_status r = record empty_message {
  register = charge_status_register;
  data_bytes =
      if r.charging
      then 0x1 ∷ byte (r.remaining % 256) ∷ byte (r.remaining / 256) ∷ []
      else replicate 3 0;
}

unfoldable pub string_charge_status : RegisterChargeStatus → List ℕ
string_charge_status r =
    if r.charging
    then codes "Charging, " ++ (decimal r.remaining ++ codes " remaining.")
    else codes "Not charging"

unfoldable pub decode_charge_plug : RegisterChargePlug → PhevMessage → RegisterChargePlug
decode_charge_plug r m =
    if length m.data_bytes == 2
    then record {
      connected = ltb 0 (get_or m.data_bytes 1 0) || ltb 0 (get_or m.data_bytes 0 0);
      raw = m.data_bytes;
    }
    else r

unfoldable pub encode_charge_plug : RegisterChargePlug → PhevMessage
encode_charge_plug r =
    let bytes = replicate 2 0 in
    record empty_message {
      register = charge_plug_register;
      data_bytes = if r.connected then set bytes 1 0x1 else bytes;
    }

unfoldable pub string_charge_plug : RegisterChargePlug → List ℕ
string_charge_plug r =
    if r.connected then codes "Charger connected" else codes "Charger disconnected"
