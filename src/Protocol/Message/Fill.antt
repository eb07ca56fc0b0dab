-- ===== src/Protocol/Message/Fill.antt =====
-- The steps of DecodeFromBytes behind the frame: the key switch, and what a frame says of a message.
use phev2mqtt.Base.{
  ℕ, ◌+◌, ◌-◌, ◌≤◌, ◌<◌, ◌≡◌, refl, ap, ◌∙◌, ◌⊎◌, inl, inr, Bool, true, false, List, some, ◌&&◌,
  ◌||◌, ltb, leb, ◌==◌, arith, if◌then◌else◌, length, get_elem?, get_or, take, drop, Outcome, ok,
  err, panic, bit_xor, byte, IsByte, IsBytes, All-get_or, bit_xor-lt, bit_xor_cancel, get_or-append,
  length-append, get_elem?-eq-get_or, Bool-cases, lt→ltb, le→ltb,
}
use phev2mqtt.Protocol.SecurityKey.{SecurityKey}
use phev2mqtt.Protocol.SecurityKey.Counters.{IsValid, update-IsValid, r_key-IsValid, s_key-IsValid}
use phev2mqtt.Protocol.Frame.{Decoded, slice, xor_message_with}
use phev2mqtt.Protocol.Frame.Checksum.{IsFrame}
use phev2mqtt.Protocol.Frame.Validate.{IsDecoded, length-xor_message_with, get_or-xor_message_with}
use phev2mqtt.Protocol.Types.{PhevMessage}
use phev2mqtt.Protocol.Register.Plain.{Clock}
use phev2mqtt.Protocol.Message.{track_key, attach_register, fill_message}

-- With a valid key the key switch does not panic, and leaves a valid key.
pub track_key-IsValid :
    (t : ℕ) (bytes : List ℕ) (key : SecurityKey)
    → IsValid key
    → (key' : SecurityKey) × (track_key t bytes key ≡ ok key') × IsValid key'
unfolding track_key
track_key-IsValid t bytes key v =
    let (u, eu, vu) = update-IsValid key bytes in
    let (_, r, er, vr) = r_key-IsValid true key v in
    let (_, s, es, vs) = s_key-IsValid true key v in
    choose (t == 0x6e || t == 0x5e || t == 0x4e) (t == 0x6f) (t == 0xf6) (u, eu, vu)
      (r, rw er refl, vr) (s, rw es refl, vs) (key, refl, v)
  where
    choose :
        (a b c : Bool) {x y z w : Outcome SecurityKey}
        → (k : SecurityKey) × (x ≡ ok k) × IsValid k
        → (k : SecurityKey) × (y ≡ ok k) × IsValid k
        → (k : SecurityKey) × (z ≡ ok k) × IsValid k
        → (k : SecurityKey) × (w ≡ ok k) × IsValid k
        → (k : SecurityKey) × ((if a then x else if b then y else if c then z else w) ≡ ok k)
          × IsValid k
    choose true b c p q r s = p
    choose false true c p q r s = q
    choose false false true p q r s = r
    choose false false false p q r s = s

module _ {m : List ℕ} {d : Decoded} (v : IsDecoded m d) where
  pub length-frame : length m ≡ length d.frame + length d.rest
  length-frame =
      ap length v.joined
      ∙ length-append (xor_message_with d.frame d.xor) d.rest
      ∙ ap (λ (n : ℕ). n + length d.rest) (length-xor_message_with d.frame d.xor)

  -- The length byte of a frame cut from bytes is a byte, so a frame has 257 bytes at most.
  pub length-frame-le : IsBytes m → length d.frame ≤ 257
  length-frame-le b =
      let two : 2 ≤ length d.frame = v.well_formed.has_length in
      let at = λ (i : ℕ). All-get_or IsByte m i 0 b (omega arith) in
      let sent : get_or m 1 0 ≡ bit_xor (get_or d.frame 1 0) d.xor =
        ap (λ (bs : List ℕ). get_or bs 1 0) v.joined
        ∙ get_or-append (xor_message_with d.frame d.xor) d.rest 1 0
            (omega (arith, length-xor_message_with d.frame d.xor))
        ∙ get_or-xor_message_with d.frame 1 d.xor (omega arith) in
      let back : bit_xor (get_or m 1 0) d.xor ≡ get_or d.frame 1 0 =
        ap (λ (a : ℕ). bit_xor a d.xor) sent ∙ bit_xor_cancel (get_or d.frame 1 0) d.xor in
      let key : d.xor < 256 = elim v.key_byte [
        | inl e ↦ omega (arith, e, at 2)
        | inr e ↦ omega (arith, e, at 2, bit_xor-lt (get_or m 2 0) 1)
      ] in
      omega (arith, v.well_formed.length_byte, back, bit_xor-lt (get_or m 1 0) d.xor, at 1, key)

-- What the bytes of a frame say of a message.
pub record HasFrame (d : Decoded) (q : PhevMessage) : Type 0 where
  pub typ : q.typ ≡ get_or d.frame 0 0
  pub ack : q.ack ≡ get_or d.frame 2 0
  pub register : q.register ≡ get_or d.frame 3 0
  pub data_bytes : q.data_bytes ≡ take (length d.frame - 5) (drop 4 d.frame)
  pub checksum : q.checksum ≡ get_or d.frame (length d.frame - 1) 0
  pub original : q.original ≡ d.frame
  pub xor : q.xor ≡ d.xor

-- The message that a frame spells, before its register is attached.
abbrev pub spelled : PhevMessage → List ℕ → Decoded → PhevMessage
spelled p bytes d = record p {
  typ = get_or d.frame 0 0;
  length = byte (length d.frame);
  ack = get_or d.frame 2 0;
  register = get_or d.frame 3 0;
  data_bytes = take (length d.frame - 5) (drop 4 d.frame);
  checksum = get_or d.frame (length d.frame - 1) 0;
  xor = d.xor;
  original = d.frame;
  original_xored = bytes;
}

pub spelled-HasFrame :
    (p : PhevMessage) (bytes : List ℕ) (d : Decoded) → HasFrame d (spelled p bytes d)
spelled-HasFrame p bytes d = record {
  typ = refl;
  ack = refl;
  register = refl;
  data_bytes = refl;
  checksum = refl;
  original = refl;
  xor = refl;
}

module _ (clock : Clock) where
  pub attach_register-HasFrame :
      (d : Decoded) (p : PhevMessage) → HasFrame d p → HasFrame d (attach_register clock p)
  unfolding attach_register
  attach_register-HasFrame d p h = elim (Bool-cases ((p.typ == 0x6f) && (p.ack == 0x0))) [
    | inl e ↦ rw e (record {
      typ = h.typ;
      ack = h.ack;
      register = h.register;
      data_bytes = h.data_bytes;
      checksum = h.checksum;
      original = h.original;
      xor = h.xor;
    })
    | inr e ↦ rw e h
  ]

  pub fill_message_short :
      (p : PhevMessage) (bytes : List ℕ) (d : Decoded) (key : SecurityKey)
      → length d.frame < 4
      → fill_message clock p bytes d key ≡ err
  unfolding fill_message
  fill_message_short p bytes d key h = rw (lt→ltb _ _ h) refl

  module _ (p : PhevMessage) (bytes : List ℕ) (d : Decoded) (key : SecurityKey)
      (f : IsFrame d.frame) where
    at_frame : (i : ℕ) → i < length d.frame → get_elem? d.frame i ≡ some (get_or d.frame i 0)
    at_frame i h = get_elem?-eq-get_or d.frame i 0 h

    pub fill_message_panic :
        (length d.frame ≡ 4) ⊎ (length d.frame ≡ 257) → fill_message clock p bytes d key ≡ panic
    unfolding fill_message slice
    fill_message_panic (inl h) =
        ground (arith, h, f.length_byte, at_frame 0, at_frame 1, at_frame 2, at_frame 3)
    fill_message_panic (inr h) =
        ground (arith, h, f.length_byte, at_frame 0, at_frame 1, at_frame 2, at_frame 3)

    pub fill_message_lem :
        (key' : SecurityKey)
        → 5 ≤ length d.frame
        → length d.frame ≤ 256
        → track_key (get_or d.frame 0 0) bytes key ≡ ok key'
        → fill_message clock p bytes d key ≡ ok (attach_register clock (spelled p bytes d), key')
    unfolding fill_message slice
    fill_message_lem key' lo hi e =
        let last : byte (byte (get_or d.frame 1 0 + 2) + 255) ≡ length d.frame - 1 =
          omega (arith, f.length_byte) in
        let size : byte (get_or d.frame 1 0 + 2) ≡ byte (length d.frame) =
          omega (arith, f.length_byte) in
        let fits : ltb (length d.frame) (byte (length d.frame)) ≡ false =
          le→ltb _ _ (omega arith) in
        let long : ltb (length d.frame) 4 ≡ false = le→ltb _ _ (omega arith) in
        let four : length d.frame - 1 - 4 ≡ length d.frame - 5 = omega arith in
        let inside : leb 4 (length d.frame - 1) && leb (length d.frame - 1) (length d.frame)
            ≡ true =
          ground arith in
        rw
          (
            long,
            at_frame 0 (omega arith),
            at_frame 1 (omega arith),
            at_frame 2 (omega arith),
            at_frame 3 (omega arith),
            last,
            size,
            fits,
            inside,
            four,
            at_frame (length d.frame - 1) (omega arith),
            e,
          )
          refl
