-- ===== src/Tests/Messages.antt =====
-- Messages at concrete inputs.
use phev2mqtt.Base.{ℕ, ◌≡◌, refl, inl, List, arith, ok}
use phev2mqtt.Protocol.SecurityKey.{SecurityKey, new_key}
use phev2mqtt.Protocol.SecurityKey.Counters.{new_key-IsValid}
use phev2mqtt.Protocol.Frame.{Decoded, validate_and_decode_message}
use phev2mqtt.Protocol.Types.{PhevMessage, empty_message}
use phev2mqtt.Protocol.Message.{encode_to_bytes, decode_from_bytes}
use phev2mqtt.Protocol.Message.Decode.{Outcomes, decode_from_bytes-Outcomes}
use phev2mqtt.Protocol.Message.Encode.{IsCopy, decode_from_bytes-encode_to_bytes}
use phev2mqtt.Tests.Data.{test_clock, keyed, keyed-IsValid, ping_frame, lights_on}

decode_from_bytes-Outcomes_example :
    (d : Decoded) × (validate_and_decode_message ping_frame ≡ ok d)
    × Outcomes d (decode_from_bytes test_clock empty_message ping_frame keyed)
decode_from_bytes-Outcomes_example =
    decode_from_bytes-Outcomes test_clock empty_message ping_frame keyed (omega arith) keyed-IsValid

decode_from_bytes-encode_to_bytes_example :
    (bytes : List ℕ) × (p' : PhevMessage) × (sender' : SecurityKey) × (q : PhevMessage)
    × (receiver' : SecurityKey) × (encode_to_bytes lights_on keyed ≡ ok (bytes, p', sender'))
    × (decode_from_bytes test_clock empty_message bytes new_key ≡ ok (q, receiver'))
    × IsCopy lights_on p'.xor q
decode_from_bytes-encode_to_bytes_example =
    decode_from_bytes-encode_to_bytes test_clock lights_on empty_message keyed new_key
      (record { fits = omega arith; flag = inl refl }) keyed-IsValid new_key-IsValid
