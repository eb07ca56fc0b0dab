-- ===== src/Protocol/Stream.antt =====
-- NewFromBytes of protocol/message.go: the scan of a TCP read for frames, as a step function on
-- the variables of its loop. A key that a step hands on is the live key `key` of the source.
pub mod Terminates
pub mod Keys
pub mod Panics
pub mod Roundtrip
pub mod Single
pub mod Each
use phev2mqtt.Base.{
  ℕ, zero, suc, ◌+◌, Bool, List, [], ◌∷◌, ◌++◌, ltb, leb, ◌==◌, if◌then◌else◌, length, drop, Option,
  none, some, Outcome, ok, err, panic, ◌>>=◌,
}
use phev2mqtt.Protocol.SecurityKey.{SecurityKey, snapshot}
use phev2mqtt.Protocol.Frame.{Decoded, slice, validate_and_decode_message}
use phev2mqtt.Protocol.Types.{PhevMessage, empty_message}
use phev2mqtt.Protocol.Register.Plain.{Clock}
use phev2mqtt.Protocol.Message.{decode_from_bytes}

pub record Scan : Type 0 where
  pub bytes : List ℕ
  pub offset : ℕ
  pub key : SecurityKey
  pub msgs : List PhevMessage

-- `more` goes round the loop again and `done` leaves it.
pub data Next : Type 0 where
  more done : Scan → Next

-- No frame at this offset: go on to the next, but not into the last six bytes. The source compares
-- `offset >= len(data)-6` as signed integers.
unfoldable pub skip_byte : Scan → Next
skip_byte s =
    let next : Scan = record s { offset = s.offset + 1 } in
    if leb (length s.bytes) (next.offset + 6) then done next else more next

-- A message was decoded; `key` is the active key after it, which is the live key at offset 0 only.
unfoldable pub take_message : Scan → Decoded → PhevMessage → SecurityKey → Next
take_message s d p key =
    let next : Scan = record s {
      key = if ltb 0 s.offset then s.key else key;
      msgs = s.msgs ++ (p ∷ []);
    } in
    if ltb (length d.rest) 1 then done next else more (record next { bytes = d.rest; offset = 0 })

-- On a decode error the loop ends with the messages so far.
unfoldable pub end_on_error : Scan → Decoded → Outcome (PhevMessage × SecurityKey) → Outcome Next
unfolding take_message
end_on_error s d (ok (p, key)) = ok (take_message s d p key)
end_on_error s d err = ok (done s)
end_on_error s d panic = panic

-- Goes round again with `loop`, or stops.
follow : (Scan → Option (Outcome Scan)) → Outcome Next → Option (Outcome Scan)
follow loop (ok (more s)) = loop s
follow loop (ok (done s)) = some (ok s)
follow loop err = some err
follow loop panic = some panic

module _ (clock : Clock) where
  -- One round of the loop.
  unfoldable pub scan_step : Scan → Outcome Next
  unfolding skip_byte end_on_error
  scan_step s = do
    rest ← slice s.bytes s.offset (length s.bytes)
    d ← validate_and_decode_message rest
    if length d.frame == 0 then ok (skip_byte s) else (do
      raw_frame ← slice s.bytes s.offset (s.offset + length d.frame)
      let active_key = if ltb 0 s.offset then snapshot s.key else s.key
      end_on_error s d (decode_from_bytes clock empty_message raw_frame active_key))

  -- At most `fuel` rounds; `none` means that more were wanted.
  unfoldable pub scan_loop : ℕ → Scan → Option (Outcome Scan)
  unfolding follow
  scan_loop zero s = none
  scan_loop (suc fuel) s = follow (scan_loop fuel) (scan_step s)

  -- Each round takes at least one byte, so one round more than there are bytes is enough.
  unfoldable pub new_from_bytes : List ℕ → SecurityKey → Option (Outcome Scan)
  new_from_bytes bytes key =
      scan_loop (suc (length bytes)) (record { bytes = bytes; offset = 0; key = key; msgs = [] })
