-- ===== src/Protocol/Register/Identity.antt =====
-- RegisterVIN, RegisterECUVersion and RegisterWIFISSID of protocol/message.go. Each index and slice
-- bound stands below the length that the guard before it has checked.
use phev2mqtt.Base.{
  ℕ, ◌-◌, List, [], ◌∷◌, ◌++◌, map, ltb, ◌==◌, ◌&&◌, if◌then◌else◌, length, get_or, take, drop,
  replicate, byte, codes, Outcome, ok, panic, decimal,
}
use phev2mqtt.Protocol.Constants.{vin_register, ecu_version_register, wifi_ssid_register}
use phev2mqtt.Protocol.Types.{
  PhevMessage, empty_message, RegisterVin, RegisterEcuVersion, RegisterWifiSsid,
}

unfoldable pub decode_vin : RegisterVin → PhevMessage → RegisterVin
decode_vin r m =
    if (m.register == vin_register) && (length m.data_bytes == 20)
    then record {
      vin = take 16 (drop 1 m.data_bytes);
      registrations = get_or m.data_bytes 19 0;
      raw = m.data_bytes;
    }
    else r

unfoldable pub encode_vin : RegisterVin → PhevMessage
encode_vin r = record empty_message {
  register = vin_register;
  data_bytes = 0x3 ∷ (r.vin ++ (0x0 ∷ byte r.registrations ∷ []));
}

unfoldable pub string_vin : RegisterVin → List ℕ
string_vin r = codes "VIN: " ++ (r.vin ++ (codes " Registrations: " ++ decimal r.registrations))

unfoldable pub decode_ecu_version : RegisterEcuVersion → PhevMessage → RegisterEcuVersion
decode_ecu_version r m =
    if (m.register == ecu_version_register) && (length m.data_bytes == 13)
    then record { version = take 9 m.data_bytes; raw = m.data_bytes }
    else r

unfoldable pub encode_ecu_version : RegisterEcuVersion → PhevMessage
encode_ecu_version r = record empty_message {
  register = ecu_version_register;
  data_bytes = r.version ++ (0x11 ∷ 0x00 ∷ 0x00 ∷ []);
}

unfoldable pub string_ecu_version : RegisterEcuVersion → List ℕ
string_ecu_version r = codes "ECU Version: " ++ r.version

unfoldable pub decode_wifi_ssid : RegisterWifiSsid → PhevMessage → RegisterWifiSsid
decode_wifi_ssid r m =
    if (m.register == wifi_ssid_register) && (length m.data_bytes == 32)
    then record { ssid = map (λ b. if b == 0xff then 0x0 else b) m.data_bytes; raw = m.data_bytes }
    else r

-- make panics on a negative length.
unfoldable pub encode_wifi_ssid : RegisterWifiSsid → Outcome PhevMessage
encode_wifi_ssid r =
    if ltb 32 (length r.ssid)
    then panic
    else ok (record empty_message {
      register = wifi_ssid_register;
      data_bytes = r.ssid ++ replicate (32 - length r.ssid) 0;
    })

unfoldable pub string_wifi_ssid : RegisterWifiSsid → List ℕ
string_wifi_ssid r = codes "SSID: " ++ r.ssid
