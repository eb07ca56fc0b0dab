-- ===== src/Protocol/Stream/Roundtrip.antt =====
-- What a sender writes with EncodeToBytes, one request after another, NewFromBytes reads back.
use mathlib.Core.List.{append-nil, append_assoc}
use phev2mqtt.Base.{
  ℕ, zero, suc, ◌+◌, ◌≤◌, ◌<◌, ◌≡◌, refl, sym, ap, ◌∙◌, inl, false, List, [], ◌∷◌, some, Option,
  ◌++◌, ltb, arith, All, if◌then◌else◌, length, take, Outcome, ok, ◌>>=◌, length-append, le→ltb,
  take-append_length, bit_xor, zero-bit_xor,
}
use phev2mqtt.Protocol.SecurityKey.{SecurityKey}
use phev2mqtt.Protocol.SecurityKey.Counters.{IsValid}
use phev2mqtt.Protocol.Frame.{Decoded, slice, xor_message_with, validate_and_decode_message}
use phev2mqtt.Protocol.Frame.Validate.{IsDecoded, length-xor_message_with}
use phev2mqtt.Protocol.Frame.Roundtrip.{sent_byte, validate_and_decode_message-request}
use phev2mqtt.Protocol.Message.{encode_to_bytes}
use phev2mqtt.Protocol.Message.Decode.{decode_from_bytes-HasFrame}
use phev2mqtt.Protocol.Message.Encode.{
  frame_of, length-frame_of, frame_of-IsFrame, IsCopy, HasFrame-IsCopy, encode_to_bytes_lem,
}
use phev2mqtt.Protocol.Types.{PhevMessage, empty_message}
use phev2mqtt.Protocol.Register.Plain.{Clock}
use phev2mqtt.Protocol.Stream.{
  Scan, more, done, take_message, end_on_error, scan_step, scan_loop, new_from_bytes,
}
use phev2mqtt.Protocol.Stream.Terminates.{scan_step-takes}

-- The bytes of the messages in a row, and the sender's key after them.
abbrev pub encode_all : List PhevMessage → SecurityKey → Outcome (List ℕ × SecurityKey)
encode_all [] key = ok ([], key)
encode_all (p ∷ ps) key = do
  (bytes, _, key') ← encode_to_bytes p key
  (others, key'') ← encode_all ps key'
  ok (bytes ++ others, key'')

pub record IsRequest (p : PhevMessage) : Type 0 where
  pub flag : p.ack ≡ 0
  pub fits : length p.data_bytes ≤ 251

-- The messages of the second list say what those of the first do, in order.
abbrev pub Copies : List PhevMessage → List PhevMessage → Type 0
Copies [] [] = Unit
Copies [] (q ∷ qs) = ⊥
Copies (p ∷ ps) [] = ⊥
Copies (p ∷ ps) (q ∷ qs) = ((x : ℕ) × IsCopy p x q) × Copies ps qs

-- Where the loop stands before it reads `bytes`.
abbrev scan_at : List ℕ → SecurityKey → List PhevMessage → Scan
scan_at bytes key msgs = record { bytes = bytes; offset = 0; key = key; msgs = msgs }

module _ (p : PhevMessage) (x : ℕ) (others : List ℕ) (v : IsRequest p) where
  abbrev found : Decoded
  found = record { frame = frame_of p; xor = x; rest = others }

  long : 4 ≤ length (frame_of p)
  long = omega (arith, length-frame_of p)

  found-IsDecoded : IsDecoded (xor_message_with (frame_of p) x ++ others) found
  found-IsDecoded = record {
    well_formed = frame_of-IsFrame p;
    joined = refl;
    key_byte = inl (
        sym (
          sent_byte (frame_of p) x others long (frame_of-IsFrame p) 2 (omega (arith, long))
          ∙ ap (λ (a : ℕ). bit_xor a x) v.flag
          ∙ zero-bit_xor x));
  }

  raw_frame :
      take (length (frame_of p)) (xor_message_with (frame_of p) x ++ others)
      ≡ xor_message_with (frame_of p) x
  raw_frame =
      ap (λ (n : ℕ). take n (xor_message_with (frame_of p) x ++ others))
        (sym (length-xor_message_with (frame_of p) x))
      ∙ take-append_length (xor_message_with (frame_of p) x) others

  -- One round of the loop reads the request.
  scan_step_request :
      (clock : Clock) (key : SecurityKey) (msgs : List PhevMessage)
      → IsValid key
      → (q : PhevMessage) × (key' : SecurityKey) × (scan_step clock
            (scan_at (xor_message_with (frame_of p) x ++ others) key msgs)
          ≡ ok (
              take_message
                (scan_at (xor_message_with (frame_of p) x ++ others) key msgs)
                found
                q
                key'))
        × IsCopy p x q
        × IsValid key'
  unfolding end_on_error
  scan_step_request clock key msgs k =
      let bytes = xor_message_with (frame_of p) x in
      let alone : validate_and_decode_message bytes
          ≡ ok (record { frame = frame_of p; xor = x; rest = [] }) =
        ap validate_and_decode_message (sym (append-nil bytes))
        ∙ validate_and_decode_message-request (frame_of p) x [] long (frame_of-IsFrame p) v.flag in
      let (q, key', e, h, k') =
        decode_from_bytes-HasFrame clock empty_message bytes
          (record { frame = frame_of p; xor = x; rest = [] }) key
          (omega (arith, length-xor_message_with (frame_of p) x, long)) alone (frame_of-IsFrame p)
          (omega (arith, length-frame_of p)) (omega (arith, length-frame_of p, v.fits)) k in
      (
        q,
        key',
        scan_step-takes clock (scan_at (bytes ++ others) key msgs) found (omega arith)
              (validate_and_decode_message-request (frame_of p) x others long (frame_of-IsFrame p)
                v.flag)
              found-IsDecoded
            ∙ rw (raw_frame, e) refl,
        HasFrame-IsCopy p q x [] h,
        k',
      )

-- `bytes` are the frames of the messages in a row, each under some xor byte.
abbrev Written : List PhevMessage → List ℕ → Type 0
Written [] bytes = bytes ≡ []
Written (p ∷ ps) bytes =
    (x : ℕ) × (others : List ℕ) × (bytes ≡ xor_message_with (frame_of p) x ++ others)
    × Written ps others

encode_all-Written :
    (ps : List PhevMessage) (key : SecurityKey)
    → All IsRequest ps
    → IsValid key
    → (bytes : List ℕ) × (key' : SecurityKey) × (encode_all ps key ≡ ok (bytes, key'))
      × Written ps bytes
encode_all-Written [] key v k = ([], key, refl, refl)
encode_all-Written (p ∷ ps) key v k =
    let (x, key', e, k') = encode_to_bytes_lem p key (omega (arith, v.0.fits)) k in
    let (others, key'', f, w) = encode_all-Written ps key' v.1 k' in
    (xor_message_with (frame_of p) x ++ others, key'', rw (e, f) refl, (x, others, refl, w))

length-written :
    (p : PhevMessage) (x : ℕ) (others : List ℕ)
    → length (xor_message_with (frame_of p) x ++ others) ≡ length p.data_bytes + 5 + length others
length-written p x others = omega (
  arith,
  length-append (xor_message_with (frame_of p) x) others,
  length-xor_message_with (frame_of p) x,
  length-frame_of p,
)

-- A scan of written bytes that ends with a copy of each message.
abbrev Reads : List PhevMessage → List PhevMessage → Option (Outcome Scan) → Type 0
Reads ps acc r =
    (s : Scan) × (qs : List PhevMessage) × (r ≡ some (ok s)) × (s.msgs ≡ acc ++ qs) × Copies ps qs

module _ (clock : Clock) where
  last_request :
      (s : Scan) (d : Decoded) (q : PhevMessage) (key : SecurityKey)
      → d.rest ≡ []
      → take_message s d q key
        ≡ done (record s { key = if ltb 0 s.offset then s.key else key; msgs = s.msgs ++ (q ∷ []) })
  unfolding take_message
  last_request s d q key e = rw e refl

  next_request :
      (s : Scan) (d : Decoded) (q : PhevMessage) (key : SecurityKey)
      → s.offset ≡ 0
      → 1 ≤ length d.rest
      → take_message s d q key ≡ more (scan_at d.rest key (s.msgs ++ (q ∷ [])))
  unfolding take_message
  next_request s d q key e h =
      let some_left : ltb (length d.rest) 1 ≡ false = le→ltb _ _ h in rw (some_left, e) refl

  scan_loop-Reads :
      (fuel : ℕ) (p : PhevMessage) (ps : List PhevMessage) (bytes : List ℕ) (key : SecurityKey)
      (acc : List PhevMessage)
      → All IsRequest (p ∷ ps)
      → Written (p ∷ ps) bytes
      → IsValid key
      → length bytes < fuel
      → Reads (p ∷ ps) acc (scan_loop clock fuel (scan_at bytes key acc))
  unfolding scan_loop
  scan_loop-Reads zero p ps bytes key acc v w k h = absurd (omega arith)
  scan_loop-Reads (suc fuel) p [] bytes key acc v (x, others, e, empty) k h =
      let (q, key', step, copy, _) = scan_step_request p x others v.0 clock key acc k in
      let before = scan_at (xor_message_with (frame_of p) x ++ others) key acc in
      rw (e, step, last_request before (found p x others v.0) q key' empty)
        (record before { key = key'; msgs = acc ++ (q ∷ []) }, q ∷ [], refl, refl, ((x, copy), tt))
  scan_loop-Reads (suc fuel) p (p' ∷ ps) bytes key acc v (x, others, e, (x', others', e', w)) k h =
      let (q, key', step, copy, k') = scan_step_request p x others v.0 clock key acc k in
      let size = length-written p x others in
      let more_left : 1 ≤ length others =
        omega (arith, ap length e', length-written p' x' others') in
      let (s, qs, r, m, copies) =
        scan_loop-Reads fuel p' ps others key' (acc ++ (q ∷ [])) v.1 (x', others', e', w) k'
          (omega (arith, ap length e, size)) in
      let before = scan_at (xor_message_with (frame_of p) x ++ others) key acc in
      rw (e, step, next_request before (found p x others v.0) q key' refl more_left)
        (s, q ∷ qs, r, m ∙ append_assoc acc (q ∷ []) qs, ((x, copy), copies))

  scan_loop_empty :
      (key : SecurityKey)
      → scan_loop clock 1 (scan_at [] key [])
        ≡ some (ok (record (scan_at [] key []) { offset = 1 }))
  unfolding scan_loop scan_step slice validate_and_decode_message
  scan_loop_empty key = refl

  -- Any requests of at most 251 data bytes each, written one after another under a valid key and
  -- read in one piece with any valid key, come back as the same messages in the same order.
  pub new_from_bytes-encode_all :
      (ps : List PhevMessage) (sender receiver : SecurityKey)
      → All IsRequest ps
      → IsValid sender
      → IsValid receiver
      → (bytes : List ℕ) × (sender' : SecurityKey) × (s : Scan) × (encode_all ps sender
          ≡ ok (bytes, sender'))
        × (new_from_bytes clock bytes receiver ≡ some (ok s))
        × Copies ps s.msgs
  new_from_bytes-encode_all ps sender receiver v vs vr =
      let (bytes, sender', e, w) = encode_all-Written ps sender v vs in
      let (s, qs, r, m, copies) = reads ps bytes v w in
      (bytes, sender', s, e, unfold new_from_bytes in r, rw m copies)
    where
      reads :
          (ps : List PhevMessage) (bytes : List ℕ)
          → All IsRequest ps
          → Written ps bytes
          → Reads ps [] (scan_loop clock (suc (length bytes)) (scan_at bytes receiver []))
      reads [] bytes v w =
          rw w
            (record (scan_at [] receiver []) { offset = 1 }, [], scan_loop_empty receiver, refl, tt)
      reads (p ∷ ps) bytes v w =
          scan_loop-Reads (suc (length bytes)) p ps bytes receiver [] v w vr (omega arith)
