-- ===== src/Protocol/Register/Body.antt =====
-- RegisterDoorStatus and RegisterLightStatus of protocol/message.go. Each index stands below the
-- length that the guard before it has checked.
use phev2mqtt.Base.{
  ℕ, bit_and, Bool, List, [], ◌++◌, ◌==◌, ◌&&◌, ◌||◌, if◌then◌else◌, length, get_or, set, replicate,
  codes, Outcome, panic,
}
use phev2mqtt.Protocol.Constants.{door_status_register}
use phev2mqtt.Protocol.Types.{PhevMessage, empty_message, RegisterDoorStatus, RegisterLightStatus}

unfoldable pub decode_door_status : RegisterDoorStatus → PhevMessage → RegisterDoorStatus
decode_door_status r m =
    let is_set = λ (i : ℕ). get_or m.data_bytes i 0 == 0x1 in
    if (m.register == door_status_register) && (length m.data_bytes == 10)
    then record {
      locked = is_set 0;
      driver = is_set 3;
      front_passenger = is_set 4;
      rear_left = is_set 6;
      rear_right = is_set 5;
      bonnet = is_set 8;
      boot = is_set 7;
      headlights = is_set 9;
      raw = m.data_bytes;
    }
    else r

-- `if flag { data[i] = 0x1 }`
abbrev set_if : Bool → ℕ → List ℕ → List ℕ
set_if flag i bytes = if flag then set bytes i 0x1 else bytes

unfoldable pub encode_door_status : RegisterDoorStatus → PhevMessage
encode_door_status r =
    let b = replicate 10 0 in
    let b = set_if r.locked 0 b in
    let b = set_if r.driver 3 b in
    let b = set_if r.front_passenger 4 b in
    let b = set_if r.rear_right 5 b in
    let b = set_if r.rear_left 6 b in
    let b = set_if r.boot 7 b in
    let b = set_if r.bonnet 8 b in
    let b = set_if r.headlights 9 b in
    record empty_message { register = door_status_register; data_bytes = b }

abbrev text_if : Bool → List ℕ → List ℕ
text_if flag t = if flag then t else []

unfoldable pub string_door_status : RegisterDoorStatus → List ℕ
string_door_status r =
    let is_open =
      r.front_passenger || r.driver || r.rear_right || r.rear_left || r.boot || r.bonnet in
    let open_str = text_if is_open (
      codes " Open:"
      ++ (text_if r.driver (codes " driver")
          ++ (text_if r.front_passenger (codes " front_passenger")
              ++ (text_if r.rear_right (codes " rear_right")
                  ++ (text_if r.rear_left (codes " rear_left")
                      ++ (text_if r.bonnet (codes " bonnet")
                          ++ text_if r.boot (codes " boot"))))))) in
    if r.locked then codes "Doors locked." ++ open_str else codes "Doors unlocked." ++ open_str

unfoldable pub decode_light_status : RegisterLightStatus → PhevMessage → RegisterLightStatus
decode_light_status r m =
    if length m.data_bytes == 5
    then record {
      interior = bit_and (get_or m.data_bytes 4 0) 0b11 == 1;
      hazard = bit_and (get_or m.data_bytes 3 0) 0b11 == 1;
      raw = m.data_bytes;
    }
    else r

-- The method panics: it is not implemented.
unfoldable pub encode_light_status : RegisterLightStatus → Outcome PhevMessage
encode_light_status r = panic

-- %t of a bool.
abbrev bool_text : Bool → List ℕ
bool_text b = if b then codes "true" else codes "false"

unfoldable pub string_light_status : RegisterLightStatus → List ℕ
string_light_status r =
    codes "Hazard lights: "
    ++ (bool_text r.hazard ++ (codes "; Interior lights: " ++ (bool_text r.interior ++ codes ".")))
