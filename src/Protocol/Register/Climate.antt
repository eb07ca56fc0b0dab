-- ===== src/Protocol/Register/Climate.antt =====
-- RegisterPreACState, RegisterACOperStatus and RegisterACMode of protocol/message.go. Each index
-- stands below the length that the guard before it has checked.
use phev2mqtt.Base.{
  ℕ, ◌-◌, bit_and, List, [], ◌∷◌, ◌++◌, ltb, ◌==◌, ◌||◌, if◌then◌else◌, length, get_or, set,
  replicate, codes, same_text, decimal, Outcome, panic, not,
}
use phev2mqtt.Protocol.Constants.{ac_oper_status_register, ac_mode_register}
use phev2mqtt.Protocol.Types.{
  PhevMessage, empty_message, RegisterPreAcState, RegisterAcOperStatus, RegisterAcMode,
}

abbrev pub pre_ac_off : ℕ
pre_ac_off = 0

abbrev pub pre_ac_on : ℕ
pre_ac_on = 2

abbrev pub pre_ac_terminated : ℕ
pre_ac_terminated = 3

unfoldable pub decode_pre_ac_state : RegisterPreAcState → PhevMessage → RegisterPreAcState
decode_pre_ac_state r m =
    if ltb (length m.data_bytes) 1
    then r
    else record { state = get_or m.data_bytes 0 0; raw = m.data_bytes }

-- The method panics: it is not implemented.
unfoldable pub encode_pre_ac_state : RegisterPreAcState → Outcome PhevMessage
encode_pre_ac_state r = panic

-- %v of the int8 with these bits.
abbrev int8_text : ℕ → List ℕ
int8_text n = if ltb n 128 then decimal n else codes "-" ++ decimal (256 - n)

unfoldable pub string_pre_ac_state : RegisterPreAcState → List ℕ
string_pre_ac_state r =
    if r.state == pre_ac_off
    then codes "Pre-AC off"
    else if r.state == pre_ac_on
    then codes "Pre-AC on"
    else if r.state == pre_ac_terminated
    then codes "Pre-AC terminated (door opened or battery low?)"
    else codes "Pre-AC: unknown (" ++ (int8_text r.state ++ codes ")")

unfoldable pub decode_ac_oper_status : RegisterAcOperStatus → PhevMessage → RegisterAcOperStatus
decode_ac_oper_status r m =
    if not (m.register == ac_oper_status_register) || ltb (length m.data_bytes) 2
    then r
    else record { operating = get_or m.data_bytes 1 0 == 1; raw = m.data_bytes }

unfoldable pub encode_ac_oper_status : RegisterAcOperStatus → PhevMessage
encode_ac_oper_status r =
    let bytes = replicate 5 0 in
    record empty_message {
      register = ac_oper_status_register;
      data_bytes = if r.operating then set bytes 1 0x1 else bytes;
    }

unfoldable pub string_ac_oper_status : RegisterAcOperStatus → List ℕ
string_ac_oper_status r = if r.operating then codes "AC on" else codes "AC off"

unfoldable pub decode_ac_mode : RegisterAcMode → PhevMessage → RegisterAcMode
decode_ac_mode r m =
    let low = bit_and (get_or m.data_bytes 0 0) 0x0f in
    let high = bit_and (get_or m.data_bytes 0 0) 0xf0 in
    if length m.data_bytes == 1
    then record {
      mode =
          if low == 0
          then codes "off"
          else if low == 1
          then codes "cool"
          else if low == 2
          then codes "heat"
          else if low == 3
          then codes "windscreen"
          else codes "unknown";
      duration =
          if high == 0x00
          then 10
          else if high == 0x10
          then 20
          else if high == 0x20
          then 30
          else r.duration;
      raw = m.data_bytes;
    }
    else r

unfoldable pub encode_ac_mode : RegisterAcMode → PhevMessage
encode_ac_mode r =
    let value =
      if same_text r.mode (codes "unknown")
      then 0x0
      else if same_text r.mode (codes "cool")
      then 0x1
      else if same_text r.mode (codes "heat")
      then 0x2
      else if same_text r.mode (codes "windscreen")
      then 0x3
      else 0x0 in
    record empty_message { register = ac_mode_register; data_bytes = value ∷ [] }
