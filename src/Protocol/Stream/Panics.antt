-- ===== src/Protocol/Stream/Panics.antt =====
-- A frame of exactly four bytes, such as any peer can send, stops NewFromBytes with a panic.
use mathlib.Core.List.{append-nil}
use phev2mqtt.Base.{
  ℕ, ◌+◌, ◌%◌, ◌≡◌, refl, sym, ap, ◌∙◌, inl, List, [], ◌∷◌, some, ◌++◌, arith, take, ok, panic,
  zero-bit_xor, take-append_length,
}
use phev2mqtt.Protocol.SecurityKey.{SecurityKey}
use phev2mqtt.Protocol.Frame.{Decoded, xor_message_with, validate_and_decode_message}
use phev2mqtt.Protocol.Frame.Checksum.{IsFrame}
use phev2mqtt.Protocol.Frame.Validate.{IsDecoded, length-xor_message_with}
use phev2mqtt.Protocol.Frame.Roundtrip.{sent_byte, validate_and_decode_message-request}
use phev2mqtt.Protocol.Message.Decode.{decode_from_bytes_panic}
use phev2mqtt.Protocol.Types.{empty_message}
use phev2mqtt.Protocol.Register.Plain.{Clock}
use phev2mqtt.Protocol.Stream.{Scan, end_on_error, scan_loop, new_from_bytes}
use phev2mqtt.Protocol.Stream.Terminates.{scan_step-takes}

-- The type `t`, the length byte 2, no acknowledgement, and the checksum.
abbrev pub short_frame : ℕ → List ℕ
short_frame t = t ∷ 2 ∷ 0 ∷ (t + 2) % 256 ∷ []

short_frame-IsFrame : (t : ℕ) → IsFrame (short_frame t)
short_frame-IsFrame t = record {
  has_length = omega arith;
  length_byte = refl;
  sum_byte = omega arith;
}

module _ (clock : Clock) (t k : ℕ) (rest : List ℕ) (key : SecurityKey) where
  abbrev start : Scan
  start = record {
    bytes = xor_message_with (short_frame t) k ++ rest;
    offset = 0;
    key = key;
    msgs = [];
  }

  abbrev short : Decoded
  short = record { frame = short_frame t; xor = k; rest = rest }

  short-IsDecoded : IsDecoded (xor_message_with (short_frame t) k ++ rest) short
  short-IsDecoded = record {
    well_formed = short_frame-IsFrame t;
    joined = refl;
    key_byte = inl (
        sym (
          sent_byte (short_frame t) k rest (omega arith) (short_frame-IsFrame t) 2 (omega arith)
          ∙ zero-bit_xor k));
  }

  -- Whatever the type `t`, the xor byte `k` and the bytes behind it, a read that begins with the
  -- four-byte frame of length byte 2 makes NewFromBytes panic.
  pub new_from_bytes-short_frame :
      new_from_bytes clock (xor_message_with (short_frame t) k ++ rest) key ≡ some panic
  unfolding new_from_bytes scan_loop end_on_error
  new_from_bytes-short_frame =
      let bytes = xor_message_with (short_frame t) k in
      let alone : validate_and_decode_message bytes
          ≡ ok (record { frame = short_frame t; xor = k; rest = [] }) =
        ap validate_and_decode_message (sym (append-nil bytes))
        ∙ validate_and_decode_message-request (short_frame t) k [] (omega arith)
            (short_frame-IsFrame t) refl in
      let panics =
        decode_from_bytes_panic clock empty_message bytes
          (record { frame = short_frame t; xor = k; rest = [] }) key
          (omega (arith, length-xor_message_with (short_frame t) k)) alone (short_frame-IsFrame t)
          (inl refl) in
      let raw : take 4 (bytes ++ rest) ≡ bytes =
        ap (λ (n : ℕ). take n (bytes ++ rest)) (sym (length-xor_message_with (short_frame t) k))
        ∙ take-append_length bytes rest in
      rw
        (
          scan_step-takes clock start short (omega arith)
              (validate_and_decode_message-request (short_frame t) k rest (omega arith)
                (short_frame-IsFrame t) refl)
              short-IsDecoded,
          raw,
          panics,
        )
        refl
