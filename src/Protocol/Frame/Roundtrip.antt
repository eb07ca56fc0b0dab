-- ===== src/Protocol/Frame/Roundtrip.antt =====
-- A frame that was sent under a key byte comes back from ValidateAndDecodeMessage.
use phev2mqtt.Base.{
  ℕ, ◌+◌, ◌%◌, ◌≤◌, ◌<◌, ◌≡◌, refl, sym, ap, ◌∙◌, true, false, List, [], ◌++◌, ltb, arith, length,
  get_or, take, drop, ok, bit_xor, le→ltb, length-append, get_or-append, take-append,
  take-append_length, drop-append_length, bit_xor_comm, bit_xor_assoc, bit_xor_cancel, bit_xor-one,
  zero-bit_xor, bit_xor_self,
}
use phev2mqtt.Protocol.Frame.{xor_message_with, validate_and_decode_message}
use phev2mqtt.Protocol.Frame.Checksum.{IsFrame}
use phev2mqtt.Protocol.Frame.Validate.{
  length-xor_message_with, xor_message_with_cancel, xor_message_with-append,
  get_or-xor_message_with, starts_frame, read_frame, validate_and_decode_message_lem,
}

module _ (f : List ℕ) (k : ℕ) (rest : List ℕ) (fits : 4 ≤ length f) (v : IsFrame f) where
  abbrev pub sent : List ℕ
  sent = xor_message_with f k ++ rest

  unsent : xor_message_with sent k ≡ f ++ xor_message_with rest k
  unsent =
      rw (xor_message_with-append (xor_message_with f k) rest k, xor_message_with_cancel f k) refl

  length-sent : length sent ≡ length f + length rest
  length-sent =
      length-append (xor_message_with f k) rest
      ∙ ap (λ (n : ℕ). n + length rest) (length-xor_message_with f k)

  pub sent_byte : (i : ℕ) → i < length f → get_or sent i 0 ≡ bit_xor (get_or f i 0) k
  sent_byte i h =
      get_or-append (xor_message_with f k) rest i 0 (rw (length-xor_message_with f k) h)
      ∙ get_or-xor_message_with f i k h

  unsent_byte : (i : ℕ) → i < length f → get_or (xor_message_with sent k) i 0 ≡ get_or f i 0
  unsent_byte i h = rw unsent (get_or-append f (xor_message_with rest k) i 0 h)

  pub starts_frame-sent : starts_frame (xor_message_with sent k) ≡ true
  starts_frame-sent = ground (
    arith,
    v.has_length,
    v.length_byte,
    v.sum_byte,
    length-xor_message_with sent k,
    length-sent,
    unsent_byte 1,
    unsent_byte (get_or f 1 0 + 1),
    ap (take (get_or f 1 0 + 1)) unsent,
    take-append f (xor_message_with rest k) (get_or f 1 0 + 1),
  )

  pub read_frame-sent : read_frame sent k ≡ record { frame = f; xor = k; rest = rest }
  read_frame-sent =
      let size : get_or (xor_message_with sent k) 1 0 + 2 ≡ length f =
        omega (arith, unsent_byte 1, v.length_byte) in
      let cut : take (length f) (xor_message_with sent k) ≡ f =
        ap (take (length f)) unsent ∙ take-append_length f (xor_message_with rest k) in
      let left : drop (length f) sent ≡ rest =
        ap (λ (n : ℕ). drop n sent) (sym (length-xor_message_with f k))
        ∙ drop-append_length (xor_message_with f k) rest in
      rw (size, cut, left) refl

-- A request, whose byte at index 2 is 0, always comes back, whatever follows it.
pub validate_and_decode_message-request :
    (f : List ℕ) (k : ℕ) (rest : List ℕ)
    → 4 ≤ length f
    → IsFrame f
    → get_or f 2 0 ≡ 0
    → validate_and_decode_message (xor_message_with f k ++ rest)
      ≡ ok (record { frame = f; xor = k; rest = rest })
validate_and_decode_message-request f k rest fits v z =
    let key : get_or (xor_message_with f k ++ rest) 2 0 ≡ k =
      sent_byte f k rest fits v 2 (omega arith) ∙ ap (λ (a : ℕ). bit_xor a k) z ∙ zero-bit_xor k in
    let long : ltb (length (xor_message_with f k ++ rest)) 4 ≡ false =
      le→ltb _ _ (omega (arith, length-sent f k rest fits v)) in
    rw
      (
        validate_and_decode_message_lem,
        key,
        long,
        starts_frame-sent f k rest fits v,
        read_frame-sent f k rest fits v,
      )
      refl

-- An acknowledgement, whose byte at index 2 is 1, comes back where the bytes under the flipped
-- key byte are no frame.
pub validate_and_decode_message-ack :
    (f : List ℕ) (k : ℕ) (rest : List ℕ)
    → 4 ≤ length f
    → IsFrame f
    → get_or f 2 0 ≡ 1
    → starts_frame (xor_message_with (xor_message_with f k ++ rest) (bit_xor 1 k)) ≡ false
    → validate_and_decode_message (xor_message_with f k ++ rest)
      ≡ ok (record { frame = f; xor = k; rest = rest })
validate_and_decode_message-ack f k rest fits v z miss =
    let key : get_or (xor_message_with f k ++ rest) 2 0 ≡ bit_xor 1 k =
      sent_byte f k rest fits v 2 (omega arith) ∙ ap (λ (a : ℕ). bit_xor a k) z in
    let back : bit_xor (bit_xor 1 k) 1 ≡ k =
      ap (λ (a : ℕ). bit_xor a 1) (bit_xor_comm 1 k) ∙ bit_xor_cancel k 1 in
    let long : ltb (length (xor_message_with f k ++ rest)) 4 ≡ false =
      le→ltb _ _ (omega (arith, length-sent f k rest fits v)) in
    rw
      (
        validate_and_decode_message_lem,
        key,
        long,
        miss,
        back,
        starts_frame-sent f k rest fits v,
        read_frame-sent f k rest fits v,
      )
      refl

-- Flipping the key byte flips the length byte, so an even one grows past the end of the bytes.
flipped_length : (a k : ℕ) → bit_xor (bit_xor a k) (bit_xor 1 k) ≡ bit_xor a 1
flipped_length a k =
    ap (bit_xor (bit_xor a k)) (bit_xor_comm 1 k)
    ∙ bit_xor_assoc a k (bit_xor k 1)
    ∙ ap (bit_xor a)
        (sym (bit_xor_assoc k k 1) ∙ ap (λ (b : ℕ). bit_xor b 1) (bit_xor_self k) ∙ zero-bit_xor 1)

-- An acknowledgement with an even length byte, as of one data byte, comes back when it stands
-- alone.
pub validate_and_decode_message-ack_alone :
    (f : List ℕ) (k : ℕ)
    → 4 ≤ length f
    → IsFrame f
    → get_or f 2 0 ≡ 1
    → get_or f 1 0 % 2 ≡ 0
    → validate_and_decode_message (xor_message_with f k ++ [])
      ≡ ok (record { frame = f; xor = k; rest = [] })
validate_and_decode_message-ack_alone f k fits v z even =
    let m = xor_message_with f k ++ [] in
    let size : get_or (xor_message_with m (bit_xor 1 k)) 1 0 ≡ get_or f 1 0 + 1 = omega (
      arith,
      get_or-xor_message_with m 1 (bit_xor 1 k) (omega (arith, length-sent f k [] fits v)),
      ap (λ (a : ℕ). bit_xor a (bit_xor 1 k)) (sent_byte f k [] fits v 1 (omega arith)),
      flipped_length (get_or f 1 0) k,
      bit_xor-one (get_or f 1 0),
    ) in
    validate_and_decode_message-ack f k [] fits v z (
      ground (
        arith,
        size,
        length-sent f k [] fits v,
        length-xor_message_with m (bit_xor 1 k),
        v.length_byte,
      ))
