-- ===== src/Protocol/Message/Decode.antt =====
-- DecodeFromBytes on every input: which bytes it refuses, on which it panics, and what it returns.
use phev2mqtt.Base.{
  ℕ, ◌≤◌, ◌<◌, ◌≡◌, refl, ◌⊎◌, inl, inr, true, List, ltb, arith, dec_lt, length, get_or, Outcome,
  ok, err, panic, IsBytes, Bool-cases, le→ltb, ltb→lt, ℕ_discrete,
}
use phev2mqtt.Protocol.SecurityKey.{SecurityKey}
use phev2mqtt.Protocol.SecurityKey.Counters.{IsValid}
use phev2mqtt.Protocol.Frame.{Decoded, no_frame, validate_and_decode_message}
use phev2mqtt.Protocol.Frame.Checksum.{IsFrame}
use phev2mqtt.Protocol.Frame.Validate.{IsDecoded, validate_and_decode_message_sound}
use phev2mqtt.Protocol.Types.{PhevMessage}
use phev2mqtt.Protocol.Register.Plain.{Clock}
use phev2mqtt.Protocol.Message.{track_key, attach_register, fill_message, decode_from_bytes}
use phev2mqtt.Protocol.Message.Fill.{
  track_key-IsValid, length-frame, length-frame-le, HasFrame, spelled, spelled-HasFrame,
  attach_register-HasFrame, fill_message_short, fill_message_panic, fill_message_lem,
}

-- The three outcomes, by the length of the frame that the bytes start with.
abbrev pub Outcomes : (d : Decoded) → Outcome (PhevMessage × SecurityKey) → Type 0
Outcomes d r =
    let n = length d.frame in
    ((n < 4) × (r ≡ err))
    ⊎ (((n ≡ 4) ⊎ (n ≡ 257)) × (r ≡ panic))
    ⊎ ((5 ≤ n)
        × (n ≤ 256)
        × ((q : PhevMessage) × (key' : SecurityKey) × (r ≡ ok (q, key'))
            × HasFrame d q
            × IsValid key'))

module _ (clock : Clock) where
  fill_message-Outcomes :
      (p : PhevMessage) (bytes : List ℕ) (d : Decoded) (key : SecurityKey)
      → IsDecoded bytes d
      → IsBytes bytes
      → IsValid key
      → Outcomes d (fill_message clock p bytes d key)
  fill_message-Outcomes p bytes d key v b k =
      let f = v.well_formed in
      let n = length d.frame in
      let top : n ≤ 257 = length-frame-le v b in
      let (key', e, k') = track_key-IsValid (get_or d.frame 0 0) bytes key k in
      elim (dec_lt n 4) [
        | yes short ↦ inl (short, fill_message_short clock p bytes d key short)
        | no long ↦ elim (ℕ_discrete n 4) [
          | yes four ↦ inr (inl (inl four, fill_message_panic clock p bytes d key f (inl four)))
          | no more ↦ elim (ℕ_discrete n 257) [
            | yes full ↦ inr (inl (inr full, fill_message_panic clock p bytes d key f (inr full)))
            | no less ↦ inr (
                inr (
                  omega arith,
                  omega arith,
                  (
                    attach_register clock (spelled p bytes d),
                    key',
                    fill_message_lem clock p bytes d key f key' (omega arith) (omega arith) e,
                    attach_register-HasFrame clock d (spelled p bytes d)
                        (spelled-HasFrame p bytes d),
                    k',
                  ),
                ))
          ]
        ]
      ]

  -- With a valid key DecodeFromBytes refuses bytes that start with no frame of four bytes or more,
  -- panics on a frame of exactly 4 or 257 bytes, and on any other returns the message that the
  -- frame spells and a valid key.
  pub decode_from_bytes-Outcomes :
      (p : PhevMessage) (bytes : List ℕ) (key : SecurityKey)
      → IsBytes bytes
      → IsValid key
      → (d : Decoded) × (validate_and_decode_message bytes ≡ ok d)
        × Outcomes d (decode_from_bytes clock p bytes key)
  unfolding decode_from_bytes
  decode_from_bytes-Outcomes p bytes key b k =
      let (d, e, found) = validate_and_decode_message_sound bytes in
      (
        d,
        e,
        elim (Bool-cases (ltb (length bytes) 4)) [
          | inl short ↦ rw short (inl (too_short d found short, refl))
          | inr long ↦
              rw (long, e)
                (elim found [
                  | inl none_found ↦
                      let empty : length d.frame < 4 = rw none_found (omega arith) in
                      inl (empty, fill_message_short clock p bytes d key empty)
                  | inr v ↦ fill_message-Outcomes p bytes d key v b k
                ])
        ],
      )
    where
      too_short :
          (d : Decoded)
          → (d ≡ no_frame) ⊎ IsDecoded bytes d
          → ltb (length bytes) 4 ≡ true
          → length d.frame < 4
      too_short d (inl none_found) short = rw none_found (omega arith)
      too_short d (inr v) short = omega (arith, length-frame v, ltb→lt (length bytes) 4 short)

  -- The successful case, for a frame that is known, with the key that comes out.
  pub decode_from_bytes-key :
      (p : PhevMessage) (bytes : List ℕ) (d : Decoded) (key key' : SecurityKey)
      → 4 ≤ length bytes
      → validate_and_decode_message bytes ≡ ok d
      → IsFrame d.frame
      → 5 ≤ length d.frame
      → length d.frame ≤ 256
      → track_key (get_or d.frame 0 0) bytes key ≡ ok key'
      → (q : PhevMessage) × (decode_from_bytes clock p bytes key ≡ ok (q, key')) × HasFrame d q
  unfolding decode_from_bytes
  decode_from_bytes-key p bytes d key key' long e f lo hi t = (
    attach_register clock (spelled p bytes d),
    rw (le→ltb (length bytes) 4 long, e) (fill_message_lem clock p bytes d key f key' lo hi t),
    attach_register-HasFrame clock d (spelled p bytes d) (spelled-HasFrame p bytes d),
  )

  pub decode_from_bytes-HasFrame :
      (p : PhevMessage) (bytes : List ℕ) (d : Decoded) (key : SecurityKey)
      → 4 ≤ length bytes
      → validate_and_decode_message bytes ≡ ok d
      → IsFrame d.frame
      → 5 ≤ length d.frame
      → length d.frame ≤ 256
      → IsValid key
      → (q : PhevMessage) × (key' : SecurityKey) × (decode_from_bytes clock p bytes key
          ≡ ok (q, key'))
        × HasFrame d q
        × IsValid key'
  decode_from_bytes-HasFrame p bytes d key long e f lo hi k =
      let (key', t, k') = track_key-IsValid (get_or d.frame 0 0) bytes key k in
      let (q, g, h) = decode_from_bytes-key p bytes d key key' long e f lo hi t in
      (q, key', g, h, k')

  -- The panicking case, for a frame that is known.
  pub decode_from_bytes_panic :
      (p : PhevMessage) (bytes : List ℕ) (d : Decoded) (key : SecurityKey)
      → 4 ≤ length bytes
      → validate_and_decode_message bytes ≡ ok d
      → IsFrame d.frame
      → (length d.frame ≡ 4) ⊎ (length d.frame ≡ 257)
      → decode_from_bytes clock p bytes key ≡ panic
  unfolding decode_from_bytes
  decode_from_bytes_panic p bytes d key long e f size =
      rw (le→ltb (length bytes) 4 long, e) (fill_message_panic clock p bytes d key f size)
