-- ===== src/Protocol/Message.antt =====
-- The methods of PhevMessage in protocol/message.go: EncodeToBytes, DecodeFromBytes, ShortForm,
-- RawString and String. `clock` stands for package time. Log calls are left out.
pub mod Fill
pub mod Decode
pub mod Dispatch
pub mod Encode
pub mod Kinds
use phev2mqtt.Base.{
  ℕ, ◌+◌, ◌-◌, Bool, true, false, List, [], ◌∷◌, ◌++◌, ltb, ◌==◌, ◌&&◌, ◌||◌, if◌then◌else◌, length,
  get_elem?, byte, codes, Option, none, some, Outcome, ok, err, panic, in_range, ◌>>=◌, hex_encode,
  hex_byte, hex_short, decimal,
}
use phev2mqtt.Protocol.SecurityKey.{SecurityKey, update, r_key, s_key}
use phev2mqtt.Protocol.Frame.{
  Decoded, checksum, slice, xor_message_with, validate_and_decode_message,
}
use phev2mqtt.Protocol.Constants.{
  cmd_out_ping_req, cmd_in_ping_resp, cmd_out_send, cmd_in_resp, cmd_in_my24_start_req,
  cmd_out_my24_start_resp, cmd_in_my18_start_req, cmd_out_my18_start_resp, cmd_in_my14_start_req,
  cmd_out_my14_start_resp, cmd_in_bad_encoding, cmd_in_start_resp, cmd_out_start_send_my18,
  request_flag, ack_flag, time_register, vin_register, settings_register, ecu_version_register,
  battery_level_register, battery_warning_register, door_status_register, charge_status_register,
  pre_ac_state_register, ac_oper_status_register, ac_mode_register, charge_plug_register,
  wifi_ssid_register, light_status_register,
}
use phev2mqtt.Protocol.Types.{Register, PhevMessage}
use phev2mqtt.Protocol.Register.{decode, string}
use phev2mqtt.Protocol.Register.Plain.{Clock}

-- The six message types that are sent in the clear.
unfoldable pub is_start : ℕ → Bool
is_start t =
    t == cmd_in_my24_start_req
    || t == cmd_out_my24_start_resp
    || t == cmd_in_my18_start_req
    || t == cmd_out_my18_start_resp
    || t == cmd_in_my14_start_req
    || t == cmd_out_my14_start_resp

-- The switch on p.Type of EncodeToBytes: the xor byte, and the key after it.
unfoldable pub choose_xor : ℕ → SecurityKey → Outcome (ℕ × SecurityKey)
unfolding is_start
choose_xor t key =
    if is_start t
    then ok (0, key)
    else if t == cmd_out_send
    then s_key true key
    else s_key false key

-- The bytes, the message with its Xor field set, and the key.
unfoldable pub encode_to_bytes :
    PhevMessage → SecurityKey → Outcome (List ℕ × PhevMessage × SecurityKey)
unfolding choose_xor
encode_to_bytes p key = do
  let size = byte (length p.data_bytes + 3)
  let head = p.typ ∷ size ∷ p.ack ∷ p.register ∷ []
  let body = head ++ p.data_bytes
  sum ← checksum body
  (xor, key') ← choose_xor p.typ key
  ok (xor_message_with (body ++ (sum ∷ [])) xor, record p { xor = xor }, key')

-- The switch on p.Type of DecodeFromBytes.
unfoldable pub track_key : ℕ → List ℕ → SecurityKey → Outcome SecurityKey
track_key t original_xored key =
    if t == cmd_in_my24_start_req || t == cmd_in_my18_start_req || t == cmd_in_my14_start_req
    then update key original_xored
    else if t == cmd_in_resp
    then (do (_, key') ← r_key true key; ok key')
    else if t == cmd_out_send
    then (do (_, key') ← s_key true key; ok key')
    else ok key

pub zero_struct : ℕ → Register
zero_struct r =
    if r == vin_register
    then Register.vin (record { vin = []; registrations = 0; raw = [] })
    else if r == settings_register
    then Register.settings (record { register = 0; raw = [] })
    else if r == time_register
    then Register.time (record { time = 0; raw = [] })
    else if r == ecu_version_register
    then Register.ecu_version (record { version = []; raw = [] })
    else if r == battery_level_register
    then Register.battery_level (record { level = 0; parking_lights = false; raw = [] })
    else if r == battery_warning_register
    then Register.battery_warning (record { warning = 0; raw = [] })
    else if r == door_status_register
    then Register.door_status (record {
      locked = false;
      driver = false;
      front_passenger = false;
      rear_left = false;
      rear_right = false;
      bonnet = false;
      boot = false;
      headlights = false;
      raw = [];
    })
    else if r == charge_plug_register
    then Register.charge_plug (record { connected = false; raw = [] })
    else if r == charge_status_register
    then Register.charge_status (record { charging = false; remaining = 0; raw = [] })
    else if r == pre_ac_state_register
    then Register.pre_ac_state (record { state = 0; raw = [] })
    else if r == ac_oper_status_register
    then Register.ac_oper_status (record { operating = false; raw = [] })
    else if r == ac_mode_register
    then Register.ac_mode (record { mode = []; duration = 0; raw = [] })
    else if r == wifi_ssid_register
    then Register.wifi_ssid (record { ssid = []; raw = [] })
    else if r == light_status_register
    then Register.light_status (record { interior = false; hazard = false; raw = [] })
    else Register.generic (record { reg = 0; value = [] })

module _ (clock : Clock) where
  -- The switch on p.Register of DecodeFromBytes and the call of Decode behind it.
  unfoldable pub attach_register : PhevMessage → PhevMessage
  unfolding zero_struct
  attach_register p =
      if p.typ == cmd_in_resp && p.ack == request_flag
      then record p { reg = some (decode clock (zero_struct p.register) p) }
      else p

  -- What DecodeFromBytes does with the frame `d.frame` that it found in `bytes`. `p.Length-1` and
  -- `data[1]+2` are bytes and wrap.
  unfoldable pub fill_message :
      PhevMessage → List ℕ → Decoded → SecurityKey → Outcome (PhevMessage × SecurityKey)
  unfolding attach_register
  fill_message p bytes d key =
      let frame = d.frame in
      if ltb (length frame) 4 then err else (do
        typ ← in_range (get_elem? frame 0)
        size ← in_range (get_elem? frame 1)
        ack ← in_range (get_elem? frame 2)
        register ← in_range (get_elem? frame 3)
        let total = byte (size + 2)
        if ltb (length frame) total then err else (do
          payload ← slice frame 4 (byte (total + 255))
          sum ← in_range (get_elem? frame (byte (total + 255)))
          key' ← track_key typ bytes key
          ok (
            attach_register (record p {
              typ = typ;
              length = total;
              ack = ack;
              register = register;
              data_bytes = payload;
              checksum = sum;
              xor = d.xor;
              original = frame;
              original_xored = bytes;
            }),
            key',
          )))

  unfoldable pub decode_from_bytes :
      PhevMessage → List ℕ → SecurityKey → Outcome (PhevMessage × SecurityKey)
  unfolding fill_message
  decode_from_bytes p bytes key =
      if ltb (length bytes) 4
      then err
      else (do d ← validate_and_decode_message bytes; fill_message p bytes d key)

-- The map messageStr; a missing key gives the empty text.
abbrev message_str : ℕ → List ℕ
message_str t =
    if t == 0xf3
    then codes "PingReq"
    else if t == 0x3f
    then codes "PingResp"
    else if t == 0xf6
    then codes "SendCmd"
    else if t == 0x6f
    then codes "RespCmd"
    else if t == 0xe5
    then codes "StartResp18"
    else if t == 0x5e
    then codes "StartReq18"
    else if t == 0xf2
    then codes "StartSend"
    else if t == 0x2f
    then codes "StartResp"
    else if t == 0xe4
    then codes "StartResp14"
    else if t == 0x4e
    then codes "StartReq14"
    else if t == 0xe6
    then codes "StartResp24"
    else if t == 0x6e
    then codes "StartReq24"
    else []

unfoldable pub message_string : PhevMessage → List ℕ
message_string p =
    codes "Cmd: 0x"
    ++ (hex_short p.typ
        ++ (codes " ("
            ++ (message_str p.typ
                ++ (codes ") (len "
                    ++ (decimal p.length
                        ++ (codes "), Register 0x"
                            ++ (hex_short p.register
                                ++ (codes ", Data: " ++ hex_encode p.data_bytes))))))))

unfoldable pub raw_string : PhevMessage → List ℕ
raw_string p = hex_encode p.original

-- A line such as `START RECV18  (orig <bytes>)`.
abbrev with_original : List ℕ → PhevMessage → List ℕ
with_original label p = label ++ (hex_encode p.original ++ codes ")")

-- A line such as `REGISTER ACK  (reg 0x<register> data <bytes>)`.
abbrev with_register : List ℕ → PhevMessage → List ℕ
with_register label p =
    label
    ++ (codes "(reg 0x"
        ++ (hex_byte p.register ++ (codes " data " ++ (hex_encode p.data_bytes ++ codes ")"))))

module _ (clock : Clock) where
  notify_text : PhevMessage → Option Register → Outcome (List ℕ)
  notify_text p none = ok (with_register (codes "REGISTER NTFY ") p)
  notify_text p (some r) = do
    text ← string clock r
    ok (with_register (codes "REGISTER NTFY ") p ++ (codes " [" ++ (text ++ codes "]")))

  unfoldable pub short_form : PhevMessage → Outcome (List ℕ)
  unfolding notify_text
  short_form p =
      if p.typ == cmd_in_ping_resp
      then ok (codes "PING RESP     (id " ++ (hex_short p.register ++ codes ")"))
      else if p.typ == cmd_out_ping_req
      then ok (codes "PING REQ      (id " ++ (hex_short p.register ++ codes ")"))
      else if p.typ == cmd_out_start_send_my18
      then ok (with_original (codes "START SEND18  (orig  ") p)
      else if p.typ == cmd_in_start_resp
      then ok (with_original (codes "START RESP    (orig: ") p)
      else if p.typ == cmd_out_send
      then ok (
          if p.ack == ack_flag
          then with_register (codes "REGISTER ACK  ") p
          else with_register (codes "REGISTER SET  ") p)
      else if p.typ == cmd_in_resp
      then (if p.ack == request_flag
          then notify_text p p.reg
          else ok (with_register (codes "REGISTER SETACK ") p))
      else if p.typ == cmd_in_my24_start_req
      then ok (with_original (codes "START RECV24  (orig ") p)
      else if p.typ == cmd_out_my24_start_resp
      then ok (with_original (codes "START SEND24  (orig ") p)
      else if p.typ == cmd_in_my18_start_req
      then ok (with_original (codes "START RECV18  (orig ") p)
      else if p.typ == cmd_out_my18_start_resp
      then ok (with_original (codes "START SEND18  (orig ") p)
      else if p.typ == cmd_in_my14_start_req
      then ok (with_original (codes "START RECV14  (orig ") p)
      else if p.typ == cmd_out_my14_start_resp
      then ok (with_original (codes "START SEND14  (orig ") p)
      else if p.typ == cmd_in_bad_encoding
      then (do
        expected ← in_range (get_elem? p.data_bytes 0)
        ok (codes "BAD ENCODING  (exp: 0x" ++ (hex_byte expected ++ codes ")")))
      else ok (message_string p)
