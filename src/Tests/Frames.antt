-- ===== src/Tests/Frames.antt =====
-- Frames at concrete inputs.
use phev2mqtt.Base.{◌≡◌, refl, ◌⊎◌, arith, ok}
use phev2mqtt.Protocol.Frame.{Decoded, no_frame, validate_and_decode_message}
use phev2mqtt.Protocol.Frame.Checksum.{IsFrame}
use phev2mqtt.Protocol.Frame.Validate.{IsDecoded, validate_and_decode_message_sound}
use phev2mqtt.Tests.Data.{ping_frame, ack_frame}

ping_frame-IsFrame : IsFrame ping_frame
ping_frame-IsFrame = record { has_length = omega arith; length_byte = refl; sum_byte = refl }

ack_frame-IsFrame : IsFrame ack_frame
ack_frame-IsFrame = record { has_length = omega arith; length_byte = refl; sum_byte = refl }

validate_and_decode_message_sound_example :
    (d : Decoded) × (validate_and_decode_message ping_frame ≡ ok d)
    × ((d ≡ no_frame) ⊎ IsDecoded ping_frame d)
validate_and_decode_message_sound_example = validate_and_decode_message_sound ping_frame
