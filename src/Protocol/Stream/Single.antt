-- ===== src/Protocol/Stream/Single.antt =====
-- A message that EncodeToBytes wrote, alone in one TCP read: NewFromBytes yields it and no other.
-- Also an acknowledgement comes back this way, which in a longer read it need not.
use mathlib.Core.Path.{subst}
use phev2mqtt.Base.{
  ℕ, ◌+◌, ◌≡◌, refl, sym, ap, ◌∙◌, inl, inr, List, [], ◌∷◌, some, arith, length, take, Outcome, ok,
  err, panic, take_all,
}
use phev2mqtt.Protocol.SecurityKey.{SecurityKey}
use phev2mqtt.Protocol.SecurityKey.Counters.{IsValid}
use phev2mqtt.Protocol.Frame.{Decoded, xor_message_with}
use phev2mqtt.Protocol.Frame.Validate.{
  IsDecoded, length-xor_message_with, validate_and_decode_message_sound,
}
use phev2mqtt.Protocol.Message.Decode.{decode_from_bytes-HasFrame}
use phev2mqtt.Protocol.Message.Encode.{
  IsSendable, frame_of, length-frame_of, frame_of-IsFrame, IsCopy, HasFrame-IsCopy,
  validate_and_decode_message-sendable,
}
use phev2mqtt.Protocol.Types.{PhevMessage, empty_message}
use phev2mqtt.Protocol.Register.Plain.{Clock}
use phev2mqtt.Protocol.Stream.{Scan, take_message, end_on_error, scan_loop, follow, new_from_bytes}
use phev2mqtt.Protocol.Stream.Terminates.{scan_step-takes}

abbrev frame_in : Decoded → Outcome Decoded → Decoded
frame_in d (ok e) = e
frame_in d err = d
frame_in d panic = d

module _ (clock : Clock) (p : PhevMessage) (x : ℕ) (key : SecurityKey) (v : IsSendable p) where
  abbrev sent : List ℕ
  sent = xor_message_with (frame_of p) x

  abbrev found : Decoded
  found = record { frame = frame_of p; xor = x; rest = [] }

  abbrev start_scan : Scan
  start_scan = record { bytes = sent; offset = 0; key = key; msgs = [] }

  length-sent : length sent ≡ length p.data_bytes + 5
  length-sent = omega (arith, length-xor_message_with (frame_of p) x, length-frame_of p)

  found-IsDecoded : IsDecoded sent found
  found-IsDecoded =
      let (d, e, cases) = validate_and_decode_message_sound sent in
      let same : d ≡ found =
        ap (frame_in found) (sym e ∙ validate_and_decode_message-sendable p x v) in
      elim cases [
        | inl nothing ↦ absurd (
            omega
              (arith, ap (λ (f : Decoded). length f.frame) (sym nothing ∙ same), length-frame_of p))
        | inr h ↦ subst (IsDecoded sent) same h
      ]

  -- A message is found, and the key stays valid.
  pub new_from_bytes-sendable :
      IsValid key
      → (s : Scan) × (q : PhevMessage) × (new_from_bytes clock sent key ≡ some (ok s))
        × (s.msgs ≡ q ∷ [])
        × IsCopy p x q
        × IsValid s.key
  unfolding new_from_bytes scan_loop follow end_on_error take_message
  new_from_bytes-sendable k =
      let (q, key', e, h, k') =
        decode_from_bytes-HasFrame clock empty_message sent found key (omega (arith, length-sent))
          (validate_and_decode_message-sendable p x v) (frame_of-IsFrame p)
          (omega (arith, length-frame_of p)) (omega (arith, length-frame_of p, v.fits)) k in
      let whole : take (length (frame_of p)) sent ≡ sent =
        take_all sent (length (frame_of p))
          (omega (arith, length-xor_message_with (frame_of p) x)) in
      let step =
        scan_step-takes clock start_scan found (omega arith)
          (validate_and_decode_message-sendable p x v) found-IsDecoded in
      (
        record start_scan { key = key'; msgs = q ∷ [] },
        q,
        rw (step, whole, e) refl,
        refl,
        HasFrame-IsCopy p q x [] h,
        k',
      )
