-- ===== src/Tests/Streams.antt =====
-- Reads of a stream at concrete inputs.
use phev2mqtt.Base.{ℕ, ◌≡◌, refl, List, [], ◌∷◌, ◌++◌, arith, some, Outcome, ok, panic}
use phev2mqtt.Protocol.SecurityKey.{SecurityKey, new_key}
use phev2mqtt.Protocol.SecurityKey.Counters.{new_key-IsValid}
use phev2mqtt.Protocol.Frame.{
  slice, xor_message_with, sum_bytes, checksum, validate_checksum, cut_frame,
  validate_and_decode_message,
}
use phev2mqtt.Protocol.Stream.{Scan, more, skip_byte, scan_step, new_from_bytes}
use phev2mqtt.Protocol.Stream.Terminates.{new_from_bytes_ends}
use phev2mqtt.Protocol.Stream.Keys.{scan_of, scan_step-key, Ends, new_from_bytes-Ends}
use phev2mqtt.Protocol.Stream.Panics.{short_frame, new_from_bytes-short_frame}
use phev2mqtt.Protocol.Stream.Roundtrip.{encode_all, Copies, new_from_bytes-encode_all}
use phev2mqtt.Tests.Data.{test_clock, keyed, keyed-IsValid, ping, lights_on, noise, start_packet}

new_from_bytes-encode_all_example :
    (bytes : List ℕ) × (sender' : SecurityKey) × (s : Scan) × (encode_all
        (ping ∷ lights_on ∷ [])
        keyed
      ≡ ok (bytes, sender'))
    × (new_from_bytes test_clock bytes new_key ≡ some (ok s))
    × Copies (ping ∷ lights_on ∷ []) s.msgs
new_from_bytes-encode_all_example =
    new_from_bytes-encode_all test_clock (ping ∷ lights_on ∷ []) keyed new_key
      (record { flag = refl; fits = omega arith }, (record { flag = refl; fits = omega arith }, tt))
      keyed-IsValid new_key-IsValid

new_from_bytes_ends_example :
    (r : Outcome Scan) × (new_from_bytes test_clock (noise ++ start_packet) keyed ≡ some r)
new_from_bytes_ends_example = new_from_bytes_ends test_clock (noise ++ start_packet) keyed

new_from_bytes-Ends_example :
    (r : Outcome Scan) × (new_from_bytes test_clock start_packet keyed ≡ some r)
    × Ends test_clock start_packet r
new_from_bytes-Ends_example =
    new_from_bytes-Ends test_clock start_packet keyed (omega arith) keyed-IsValid

-- A round at offset 1 of bytes without a frame.
abbrev before : Scan
before = record { bytes = noise; offset = 1; key = keyed; msgs = [] }

before_round : scan_step test_clock before ≡ ok (more (record before { offset = 2 }))
unfolding scan_step skip_byte slice validate_and_decode_message cut_frame validate_checksum checksum
    sum_bytes xor_message_with
before_round = refl

scan_step-key_example : (scan_of (more (record before { offset = 2 }))).key ≡ keyed
scan_step-key_example =
    scan_step-key test_clock before (more (record before { offset = 2 })) (omega arith)
      (omega arith) before_round

new_from_bytes-short_frame_example :
    new_from_bytes test_clock (xor_message_with (short_frame 0xf3) 0x5a ++ noise) keyed ≡ some panic
new_from_bytes-short_frame_example = new_from_bytes-short_frame test_clock 0xf3 0x5a noise keyed
