-- ===== src/Protocol/Stream/Terminates.antt =====
-- NewFromBytes ends on every input, and only a frame at offset 0 changes the live key.
use phev2mqtt.Base.{
  ℕ, zero, suc, ◌+◌, ◌-◌, ◌≤◌, ◌<◌, ◌≡◌, refl, ap, ◌∙◌, inl, inr, true, false, List, [], some,
  Option, ◌&&◌, ltb, leb, ◌==◌, arith, if◌then◌else◌, length, take, drop, Outcome, ok, err, panic,
  length-drop, take_all, Bool-cases,
}
use phev2mqtt.Protocol.SecurityKey.{SecurityKey, snapshot}
use phev2mqtt.Protocol.Frame.{Decoded, no_frame, slice, validate_and_decode_message}
use phev2mqtt.Protocol.Frame.Validate.{IsDecoded, validate_and_decode_message_sound}
use phev2mqtt.Protocol.Message.Fill.{length-frame}
use phev2mqtt.Protocol.Types.{PhevMessage, empty_message}
use phev2mqtt.Protocol.Message.{decode_from_bytes}
use phev2mqtt.Protocol.Register.Plain.{Clock}
use phev2mqtt.Protocol.Stream.{
  Scan, Next, more, done, skip_byte, take_message, end_on_error, follow, scan_step, scan_loop,
  new_from_bytes,
}

-- The bytes that are still to be looked at.
abbrev pub left : Scan → ℕ
left s = length s.bytes - s.offset

-- A round that goes on has an offset in range and fewer bytes left.
abbrev pub Advances : Scan → Outcome Next → Type 0
Advances s (ok (more t)) = (t.offset ≤ length t.bytes) × (left t < left s)
Advances s (ok (done t)) = Unit
Advances s err = Unit
Advances s panic = Unit

skip_byte-Advances : (s : Scan) → Advances s (ok (skip_byte s))
unfolding skip_byte
skip_byte-Advances s = elim (Bool-cases (leb (length s.bytes) (s.offset + 1 + 6))) [
  | inl e ↦ rw e tt
  | inr e ↦ rw e (ground arith)
]

take_message-Advances :
    (s : Scan) (d : Decoded) (p : PhevMessage) (key : SecurityKey)
    → length d.rest < left s
    → Advances s (ok (take_message s d p key))
unfolding take_message
take_message-Advances s d p key h = elim (Bool-cases (ltb (length d.rest) 1)) [
  | inl e ↦ rw e tt
  | inr e ↦ rw e (omega arith, omega arith)
]

end_on_error-Advances :
    (s : Scan) (d : Decoded) (r : Outcome (PhevMessage × SecurityKey))
    → length d.rest < left s
    → Advances s (end_on_error s d r)
unfolding end_on_error
end_on_error-Advances s d (ok (p, key)) h = take_message-Advances s d p key h
end_on_error-Advances s d err h = tt
end_on_error-Advances s d panic h = tt

slice_from : (bs : List ℕ) (i : ℕ) → i ≤ length bs → slice bs i (length bs) ≡ ok (drop i bs)
unfolding slice
slice_from bs i h =
    let whole : take (length bs - i) (drop i bs) ≡ drop i bs =
      take_all (drop i bs) (length bs - i) (omega (arith, length-drop i bs)) in
    let fits : leb i (length bs) && leb (length bs) (length bs) ≡ true = ground arith in
    rw (fits, whole) refl

slice_part :
    (bs : List ℕ) (i n : ℕ) → i + n ≤ length bs → slice bs i (i + n) ≡ ok (take n (drop i bs))
unfolding slice
slice_part bs i n h =
    let fits : leb i (i + n) && leb (i + n) (length bs) ≡ true = ground arith in
    let size : i + n - i ≡ n = omega arith in rw (fits, size) refl

follow_ends :
    (s : Scan) (fuel : ℕ) (loop : Scan → Option (Outcome Scan))
    → ((t : Scan)
        → t.offset ≤ length t.bytes
        → left t < fuel
        → (r : Outcome Scan) × (loop t ≡ some r))
    → (o : Outcome Next) → left s < suc fuel
    → Advances s o
    → (r : Outcome Scan) × (follow loop o ≡ some r)
unfolding follow
follow_ends s fuel loop ih (ok (more t)) lt a = ih t a.0 (omega (arith, a.1))
follow_ends s fuel loop ih (ok (done t)) lt a = (ok t, refl)
follow_ends s fuel loop ih err lt a = (err, refl)
follow_ends s fuel loop ih panic lt a = (panic, refl)

-- The key that a frame is decoded with.
abbrev pub active_key : Scan → SecurityKey
active_key s = if ltb 0 s.offset then snapshot s.key else s.key

module _ (clock : Clock) where
  pub scan_step-skips :
      (s : Scan)
      → s.offset ≤ length s.bytes
      → validate_and_decode_message (drop s.offset s.bytes) ≡ ok no_frame
      → scan_step clock s ≡ ok (skip_byte s)
  unfolding scan_step
  scan_step-skips s h e = rw (slice_from s.bytes s.offset h, e) refl

  pub scan_step-takes :
      (s : Scan) (d : Decoded)
      → s.offset ≤ length s.bytes
      → validate_and_decode_message (drop s.offset s.bytes) ≡ ok d
      → IsDecoded (drop s.offset s.bytes) d
      → scan_step clock s
        ≡ end_on_error s d (
            decode_from_bytes clock empty_message
              (take (length d.frame) (drop s.offset s.bytes))
              (active_key s))
  unfolding scan_step
  scan_step-takes s d h e v =
      let some_frame : (length d.frame == 0) ≡ false = ground (arith, v.well_formed.has_length) in
      let fits : s.offset + length d.frame ≤ length s.bytes =
        omega (arith, length-frame v, length-drop s.offset s.bytes) in
      rw
        (
          slice_from s.bytes s.offset h,
          e,
          some_frame,
          slice_part s.bytes s.offset (length d.frame) fits,
        )
        refl

  pub scan_step-Advances : (s : Scan) → s.offset ≤ length s.bytes → Advances s (scan_step clock s)
  scan_step-Advances s h =
      let (d, e, found) = validate_and_decode_message_sound (drop s.offset s.bytes) in
      elim found [
        | inl none_found ↦ rw (scan_step-skips s h (e ∙ ap ok none_found)) (skip_byte-Advances s)
        | inr v ↦ rw (scan_step-takes s d h e v) (
            end_on_error-Advances s d _ (
              omega
                (arith, length-frame v, length-drop s.offset s.bytes, v.well_formed.has_length)))
      ]

  scan_loop_ends :
      (fuel : ℕ) (s : Scan)
      → s.offset ≤ length s.bytes
      → left s < fuel
      → (r : Outcome Scan) × (scan_loop clock fuel s ≡ some r)
  unfolding scan_loop
  scan_loop_ends zero s h lt = absurd (omega arith)
  scan_loop_ends (suc fuel) s h lt =
      follow_ends s fuel (scan_loop clock fuel) (scan_loop_ends fuel) (scan_step clock s) lt
        (scan_step-Advances s h)

  -- NewFromBytes ends on every input: its rounds never run out.
  pub new_from_bytes_ends :
      (bytes : List ℕ) (key : SecurityKey)
      → (r : Outcome Scan) × (new_from_bytes clock bytes key ≡ some r)
  unfolding new_from_bytes
  new_from_bytes_ends bytes key =
      scan_loop_ends (suc (length bytes))
        (record { bytes = bytes; offset = 0; key = key; msgs = [] }) (omega arith) (omega arith)
