-- ===== src/Tests/Registers.antt =====
-- Registers and settings at concrete inputs.
use phev2mqtt.Base.{ℕ, ◌≡◌, true, false, List, [], ◌∷◌, codes}
use phev2mqtt.Protocol.Types.{
  RegisterVin, RegisterEcuVersion, RegisterBatteryLevel, RegisterBatteryWarning, RegisterDoorStatus,
  RegisterChargeStatus, RegisterAcOperStatus, RegisterAcMode, RegisterChargePlug, RegisterWifiSsid,
}
use phev2mqtt.Protocol.Register.Battery.{decode_battery_level, encode_battery_level}
use phev2mqtt.Protocol.Register.Laws.{decode_battery_level-encode_battery_level}
use phev2mqtt.Protocol.Settings.{Settings}

abbrev doors : RegisterDoorStatus
doors = record {
  locked = true;
  driver = false;
  front_passenger = true;
  rear_left = true;
  rear_right = false;
  bonnet = false;
  boot = true;
  headlights = true;
  raw = [];
}

abbrev charge : RegisterChargeStatus
charge = record { charging = true; remaining = 300; raw = [] }

abbrev heat : RegisterAcMode
heat = record { mode = codes "heat"; duration = 30; raw = [] }

abbrev plug : RegisterChargePlug
plug = record { connected = true; raw = [] }

abbrev running : RegisterAcOperStatus
running = record { operating = true; raw = [] }

abbrev warned : RegisterBatteryWarning
warned = record { warning = 3; raw = [] }

abbrev network : RegisterWifiSsid
network = record { ssid = codes "REMOTE45cfsc"; raw = [] }

abbrev battery : RegisterBatteryLevel
battery = record { level = 80; parking_lights = false; raw = [] }

decode_battery_level-encode_battery_level_example :
    decode_battery_level (record battery { level = 10 }) (encode_battery_level battery)
    ≡ record battery { level = 10 }
decode_battery_level-encode_battery_level_example =
    decode_battery_level-encode_battery_level battery (record battery { level = 10 })

abbrev car_vin : RegisterVin
car_vin = record { vin = codes "JMAXDGG2WGZ000001"; registrations = 1; raw = [] }

abbrev ecu : RegisterEcuVersion
ecu = record { version = codes "01.02.034"; raw = [] }

abbrev no_settings : Settings
no_settings = record { settings = [] }

abbrev setting : List ℕ
setting = 0x2 ∷ 0x3a ∷ 0 ∷ 0x3b ∷ 0 ∷ 0x3c ∷ 0 ∷ 0 ∷ []

abbrev two_settings : Settings
two_settings = record { settings = 0x3c003b003a02 ∷ 0x10203 ∷ [] }
