-- ===== src/Protocol/Stream/Keys.antt =====
-- The live key across NewFromBytes: valid throughout, and touched only by frames at offset 0; and
-- the only way in which the scan can panic.
use mathlib.Core.Path.{subst}
use mathlib.Core.Option.{some-injective}
use phev2mqtt.Base.{
  ℕ, zero, suc, ◌+◌, ◌≤◌, ◌<◌, ◌≡◌, refl, sym, ap, ◌∙◌, ◌⊎◌, inl, inr, List, [], some, Option, ◌++◌,
  ltb, leb, arith, if◌then◌else◌, length, take, drop, Outcome, ok, err, panic, IsByte, IsBytes,
  Bool-cases, All-take, All-drop, drop-drop, drop-append_length,
}
use phev2mqtt.Protocol.SecurityKey.{SecurityKey, snapshot}
use phev2mqtt.Protocol.SecurityKey.Counters.{IsValid}
use phev2mqtt.Protocol.Frame.{Decoded, xor_message_with, validate_and_decode_message}
use phev2mqtt.Protocol.Frame.Validate.{
  IsDecoded, validate_and_decode_message_sound, length-xor_message_with,
}
use phev2mqtt.Protocol.Message.Decode.{Outcomes, decode_from_bytes-Outcomes}
use phev2mqtt.Protocol.Types.{PhevMessage, empty_message}
use phev2mqtt.Protocol.Register.Plain.{Clock}
use phev2mqtt.Protocol.Stream.{
  Scan, Next, more, done, skip_byte, take_message, end_on_error, follow, scan_step, scan_loop,
  new_from_bytes,
}
use phev2mqtt.Protocol.Stream.Terminates.{
  active_key, scan_step-skips, scan_step-takes, new_from_bytes_ends,
}

abbrev pub scan_of : Next → Scan
scan_of (more s) = s
scan_of (done s) = s

skip_byte-key : (s : Scan) → (scan_of (skip_byte s)).key ≡ s.key
unfolding skip_byte
skip_byte-key s = ground arith

end_on_error-key :
    (s : Scan) (d : Decoded) (r : Outcome (PhevMessage × SecurityKey)) (n : Next)
    → 0 < s.offset
    → end_on_error s d r ≡ ok n
    → (scan_of n).key ≡ s.key
unfolding end_on_error take_message
end_on_error-key s d (ok (p, key)) n h e = ground arith
end_on_error-key s d err n h e = ground arith
end_on_error-key s d panic n h e = ground arith

module _ (clock : Clock) where
  -- A round at an offset past the start but in range, where frame alignment was lost, leaves the live key as it
  -- was, whatever it finds.
  pub scan_step-key :
      (s : Scan) (n : Next)
      → 0 < s.offset
      → s.offset ≤ length s.bytes
      → scan_step clock s ≡ ok n
      → (scan_of n).key ≡ s.key
  scan_step-key s n pos h e =
      let (d, f, found) = validate_and_decode_message_sound (drop s.offset s.bytes) in
      elim found [
        | inl none_found ↦
            let same : ok n ≡ ok (skip_byte s) =
              sym e ∙ scan_step-skips clock s h (f ∙ ap ok none_found) in
            let m : n ≡ skip_byte s = ground (arith, same) in rw m (skip_byte-key s)
        | inr v ↦ end_on_error-key s d _ n pos (sym (scan_step-takes clock s d h f v) ∙ e)
      ]

-- Some slice of the bytes decodes to a frame of exactly 4 or 257 bytes.
abbrev pub HasBadFrame : List ℕ → Type 0
HasBadFrame bytes =
    (i : ℕ) × (n : ℕ) × (d : Decoded) × (validate_and_decode_message (take n (drop i bytes)) ≡ ok d)
    × ((length d.frame ≡ 4) ⊎ (length d.frame ≡ 257))

-- What holds of the loop's variables: they describe a suffix of the bytes read, and a valid key.
record Inv (bytes : List ℕ) (s : Scan) : Type 0 where
  in_bytes : s.offset ≤ length s.bytes
  are_bytes : IsBytes s.bytes
  suffix : (i : ℕ) × (s.bytes ≡ drop i bytes)
  valid : IsValid s.key

-- A round keeps the invariant, leaves a valid key, or panics at a bad frame.
abbrev Keeps : List ℕ → Outcome Next → Type 0
Keeps bytes (ok (more s)) = Inv bytes s
Keeps bytes (ok (done s)) = IsValid s.key
Keeps bytes err = ⊥
Keeps bytes panic = HasBadFrame bytes

rest_lem : {m : List ℕ} {d : Decoded} → IsDecoded m d → d.rest ≡ drop (length d.frame) m
rest_lem {m} {d} v =
    sym (drop-append_length (xor_message_with d.frame d.xor) d.rest)
    ∙ ap (λ (n : ℕ). drop n (xor_message_with d.frame d.xor ++ d.rest))
        (length-xor_message_with d.frame d.xor)
    ∙ ap (drop (length d.frame)) (sym v.joined)

module _ (bytes : List ℕ) (s : Scan) (inv : Inv bytes s) where
  skip_byte-Keeps : Keeps bytes (ok (skip_byte s))
  unfolding skip_byte
  skip_byte-Keeps = elim (Bool-cases (leb (length s.bytes) (s.offset + 1 + 6))) [
    | inl e ↦ rw e inv.valid
    | inr e ↦ rw e (record {
      in_bytes = ground arith;
      are_bytes = inv.are_bytes;
      suffix = inv.suffix;
      valid = inv.valid;
    })
  ]

  module _ (d : Decoded) (v : IsDecoded (drop s.offset s.bytes) d) where
    rest_suffix : (i : ℕ) × (d.rest ≡ drop i bytes)
    rest_suffix =
        let (i, e) = inv.suffix in
        (
          i + (s.offset + length d.frame),
          rest_lem v
              ∙ drop-drop s.offset (length d.frame) s.bytes
              ∙ ap (drop (s.offset + length d.frame)) e
              ∙ drop-drop i (s.offset + length d.frame) bytes,
        )

    take_message-Keeps :
        (p : PhevMessage) (key : SecurityKey)
        → IsValid key
        → Keeps bytes (ok (take_message s d p key))
    unfolding take_message
    take_message-Keeps p key k =
        let live : IsValid (if ltb 0 s.offset then s.key else key) =
          elim (Bool-cases (ltb 0 s.offset)) [ inl e ↦ rw e inv.valid | inr e ↦ rw e k ] in
        elim (Bool-cases (ltb (length d.rest) 1)) [
          | inl e ↦ rw e live
          | inr e ↦ rw e (record {
            in_bytes = omega arith;
            are_bytes = rw (rest_lem v) (
                All-drop IsByte (length d.frame) (drop s.offset s.bytes)
                  (All-drop IsByte s.offset s.bytes inv.are_bytes));
            suffix = rest_suffix;
            valid = live;
          })
        ]

    active_key-IsValid : IsValid (active_key s)
    active_key-IsValid = elim (Bool-cases (ltb 0 s.offset)) [
      | inl e ↦ rw e (
          unfold snapshot in
          record {
            mapped = inv.valid.mapped;
            send_byte = inv.valid.send_byte;
            receive_byte = inv.valid.receive_byte;
          })
      | inr e ↦ rw e inv.valid
    ]

    end_on_error-Keeps :
        (raw : List ℕ) (d' : Decoded) (r : Outcome (PhevMessage × SecurityKey))
        → raw ≡ take (length d.frame) (drop s.offset s.bytes)
        → validate_and_decode_message raw ≡ ok d'
        → Outcomes d' r
        → Keeps bytes (end_on_error s d r)
    unfolding end_on_error
    end_on_error-Keeps raw d' r cut e (inl (_, refused)) = rw refused inv.valid
    end_on_error-Keeps raw d' r cut e (inr (inl (size, panics))) =
        let (i, f) = inv.suffix in
        rw panics (
          i + s.offset,
          length d.frame,
          d',
          ap validate_and_decode_message (
                ap (take (length d.frame))
                  (sym (drop-drop i s.offset bytes) ∙ ap (drop s.offset) (sym f))
                ∙ sym cut)
              ∙ e,
          size,
        )
    end_on_error-Keeps raw d' r cut e (inr (inr (_, _, (q, key', done_well, _, k)))) =
        rw done_well (take_message-Keeps q key' k)

module _ (clock : Clock) (bytes : List ℕ) where
  scan_step-Keeps : (s : Scan) → Inv bytes s → Keeps bytes (scan_step clock s)
  scan_step-Keeps s inv =
      let (d, e, found) = validate_and_decode_message_sound (drop s.offset s.bytes) in
      elim found [
        | inl none_found ↦
            rw (scan_step-skips clock s inv.in_bytes (e ∙ ap ok none_found))
              (skip_byte-Keeps bytes s inv)
        | inr v ↦
            let raw = take (length d.frame) (drop s.offset s.bytes) in
            let are_bytes : IsBytes raw =
              All-take IsByte (length d.frame) (drop s.offset s.bytes)
                (All-drop IsByte s.offset s.bytes inv.are_bytes) in
            let (d', f, outcomes) =
              decode_from_bytes-Outcomes clock empty_message raw (active_key s) are_bytes
                (active_key-IsValid bytes s inv d v) in
            rw (scan_step-takes clock s d inv.in_bytes e v)
              (end_on_error-Keeps bytes s inv d v raw d' _ refl f outcomes)
      ]

  -- How a scan ends: with a valid key, or in a panic at a bad frame.
  abbrev pub Ends : Outcome Scan → Type 0
  Ends (ok s) = IsValid s.key
  Ends err = ⊥
  Ends panic = HasBadFrame bytes

  follow-Ends :
      (loop : Scan → Option (Outcome Scan))
      → ((t : Scan) (r : Outcome Scan) → Inv bytes t → loop t ≡ some r → Ends r)
      → (o : Outcome Next) (r : Outcome Scan) → Keeps bytes o
      → follow loop o ≡ some r
      → Ends r
  unfolding follow
  follow-Ends loop ih (ok (more t)) r k e = ih t r k e
  follow-Ends loop ih (ok (done t)) r k e = subst Ends (some-injective (ok t) r e) k
  follow-Ends loop ih err r k e = absurd k
  follow-Ends loop ih panic r k e = subst Ends (some-injective panic r e) k

  scan_loop-Ends :
      (fuel : ℕ) (s : Scan) (r : Outcome Scan)
      → Inv bytes s
      → scan_loop clock fuel s ≡ some r
      → Ends r
  unfolding scan_loop
  scan_loop-Ends zero s r inv e = cc
  scan_loop-Ends (suc fuel) s r inv e =
      follow-Ends (scan_loop clock fuel) (scan_loop-Ends fuel) (scan_step clock s) r
        (scan_step-Keeps s inv) e

  -- With a valid key NewFromBytes ends with a valid key again, unless a slice of the bytes decodes
  -- to a frame of exactly 4 or 257 bytes, where it may panic.
  pub new_from_bytes-Ends :
      (key : SecurityKey)
      → IsBytes bytes
      → IsValid key
      → (r : Outcome Scan) × (new_from_bytes clock bytes key ≡ some r) × Ends r
  unfolding new_from_bytes
  new_from_bytes-Ends key b k =
      let start : Scan = record { bytes = bytes; offset = 0; key = key; msgs = [] } in
      let inv : Inv bytes start = record {
        in_bytes = omega arith;
        are_bytes = b;
        suffix = (0, refl);
        valid = k;
      } in
      let (r, e) = new_from_bytes_ends clock bytes key in
      (r, e, scan_loop-Ends (suc (length bytes)) start r inv e)
