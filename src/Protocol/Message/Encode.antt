-- ===== src/Protocol/Message/Encode.antt =====
-- EncodeToBytes writes a well-formed frame, and DecodeFromBytes reads it back.
use phev2mqtt.Base.{
  ℕ, ◌+◌, ◌-◌, ◌%◌, ◌≤◌, ◌≡◌, refl, sym, ap, ◌∙◌, ◌⊎◌, inl, inr, true, false, List, [], ◌∷◌, ◌++◌,
  ◌==◌, arith, length, get_or, take, drop, ok, byte, length-append, take-append_length, take_all,
  Bool-cases,
}
use phev2mqtt.Protocol.SecurityKey.{SecurityKey}
use phev2mqtt.Protocol.SecurityKey.Counters.{IsValid, s_key-IsValid}
use phev2mqtt.Protocol.Frame.{checksum, xor_message_with, validate_and_decode_message}
use phev2mqtt.Protocol.Frame.Checksum.{IsFrame, sum, checksum_lem}
use phev2mqtt.Protocol.Frame.Validate.{length-xor_message_with}
use phev2mqtt.Protocol.Frame.Roundtrip.{
  validate_and_decode_message-request, validate_and_decode_message-ack_alone,
}
use phev2mqtt.Protocol.Message.Fill.{HasFrame}
use phev2mqtt.Protocol.Message.Decode.{decode_from_bytes-HasFrame}
use mathlib.Core.List.{append-nil}
use phev2mqtt.Protocol.Types.{PhevMessage}
use phev2mqtt.Protocol.Register.Plain.{Clock}
use phev2mqtt.Protocol.Message.{is_start, choose_xor, encode_to_bytes, decode_from_bytes}

-- A message whose header fits in bytes and whose length byte does not wrap.
pub record IsSendable (p : PhevMessage) : Type 0 where
  pub fits : length p.data_bytes ≤ 251
  pub flag : (p.ack ≡ 0) ⊎ ((p.ack ≡ 1) × (length p.data_bytes % 2 ≡ 1))

abbrev pub body_of : PhevMessage → List ℕ
body_of p = p.typ ∷ (length p.data_bytes + 3) ∷ p.ack ∷ p.register ∷ p.data_bytes

-- The frame that a message is sent as, before the xor byte is applied.
abbrev pub frame_of : PhevMessage → List ℕ
frame_of p = body_of p ++ (sum (body_of p) % 256 ∷ [])

pub length-frame_of : (p : PhevMessage) → length (frame_of p) ≡ length p.data_bytes + 5
length-frame_of p = omega (arith, length-append p.data_bytes (sum (body_of p) % 256 ∷ []))

get_or-last {ℓ} : {A : Type ℓ} (xs : List A) (a d : A) → get_or (xs ++ (a ∷ [])) (length xs) d ≡ a
get_or-last [] a d = refl
get_or-last (x ∷ xs) a d = get_or-last xs a d

pub frame_of-IsFrame : (p : PhevMessage) → IsFrame (frame_of p)
frame_of-IsFrame p =
    let n : length (frame_of p) - 1 ≡ length (body_of p) = omega (arith, length-frame_of p) in
    record {
      has_length = omega (arith, length-frame_of p);
      length_byte = omega (arith, length-frame_of p);
      sum_byte = rw n (
          get_or-last (body_of p) (sum (body_of p) % 256) 0
          ∙ ap (λ (bs : List ℕ). sum bs % 256)
              (sym (take-append_length (body_of p) (sum (body_of p) % 256 ∷ []))));
    }

pub choose_xor-IsValid :
    (t : ℕ) (key : SecurityKey)
    → IsValid key
    → (x : ℕ) × (key' : SecurityKey) × (choose_xor t key ≡ ok (x, key')) × IsValid key'
unfolding choose_xor
choose_xor-IsValid t key v = elim (Bool-cases (is_start t)) [
  | inl e ↦ (0, key, unfold choose_xor in rw e refl, v)
  | inr e ↦ elim (Bool-cases (t == 0xf6)) [
    | inl f ↦ let (x, k, q, w) = s_key-IsValid true key v in (x, k, rw (e, f) q, w)
    | inr f ↦ let (x, k, q, w) = s_key-IsValid false key v in (x, k, rw (e, f) q, w)
  ]
]

-- The bytes are the frame of the message under the xor byte that the switch chooses.
pub encode_to_bytes-choose_xor :
    (p : PhevMessage) (key : SecurityKey) (x : ℕ) (key' : SecurityKey)
    → length p.data_bytes ≤ 252
    → choose_xor p.typ key ≡ ok (x, key')
    → encode_to_bytes p key ≡ ok (xor_message_with (frame_of p) x, record p { xor = x }, key')
unfolding encode_to_bytes
encode_to_bytes-choose_xor p key x key' h e =
    let size : byte (length p.data_bytes + 3) ≡ length p.data_bytes + 3 = omega arith in
    let all : take (length p.data_bytes + 3 + 1) (body_of p) ≡ body_of p =
      take_all (body_of p) (length p.data_bytes + 3 + 1) (omega arith) in
    let total : checksum (body_of p) ≡ ok (sum (body_of p) % 256) =
      checksum_lem (body_of p) (omega arith) (omega arith)
      ∙ ap (λ (bs : List ℕ). ok (sum bs % 256)) all in
    rw (size, total, e) refl

-- With a valid key and at most 252 data bytes EncodeToBytes does not panic: the bytes are the frame of the message under the
-- xor byte that the key gives, whatever the message's Xor field held.
pub encode_to_bytes_lem :
    (p : PhevMessage) (key : SecurityKey)
    → length p.data_bytes ≤ 252
    → IsValid key
    → (x : ℕ) × (key' : SecurityKey) × (encode_to_bytes p key
        ≡ ok (xor_message_with (frame_of p) x, record p { xor = x }, key'))
      × IsValid key'
encode_to_bytes_lem p key h v =
    let (x, key', e, v') = choose_xor-IsValid p.typ key v in
    (x, key', encode_to_bytes-choose_xor p key x key' h e, v')

-- `q` says what `p` says, under the xor byte `x`.
pub record IsCopy (p : PhevMessage) (x : ℕ) (q : PhevMessage) : Type 0 where
  pub typ : q.typ ≡ p.typ
  pub ack : q.ack ≡ p.ack
  pub register : q.register ≡ p.register
  pub data_bytes : q.data_bytes ≡ p.data_bytes
  pub xor : q.xor ≡ x

pub HasFrame-IsCopy :
    (p q : PhevMessage) (x : ℕ) (rest : List ℕ)
    → HasFrame (record { frame = frame_of p; xor = x; rest = rest }) q
    → IsCopy p x q
HasFrame-IsCopy p q x rest h =
    let n : length (frame_of p) - 5 ≡ length p.data_bytes = omega (arith, length-frame_of p) in
    record {
      typ = h.typ;
      ack = h.ack;
      register = h.register;
      data_bytes =
          h.data_bytes
          ∙ ap (λ (k : ℕ). take k (drop 4 (frame_of p))) n
          ∙ take-append_length p.data_bytes (sum (body_of p) % 256 ∷ []);
      xor = h.xor;
    }

pub validate_and_decode_message-sendable :
    (p : PhevMessage) (x : ℕ)
    → IsSendable p
    → validate_and_decode_message (xor_message_with (frame_of p) x)
      ≡ ok (record { frame = frame_of p; xor = x; rest = [] })
validate_and_decode_message-sendable p x v =
    let long : 4 ≤ length (frame_of p) = omega (arith, length-frame_of p) in
    let read : validate_and_decode_message (xor_message_with (frame_of p) x ++ [])
        ≡ ok (record { frame = frame_of p; xor = x; rest = [] }) =
      elim v.flag [
        | inl request ↦
            validate_and_decode_message-request (frame_of p) x [] long (frame_of-IsFrame p) request
        | inr (ack, odd) ↦
            validate_and_decode_message-ack_alone (frame_of p) x long (frame_of-IsFrame p) ack
              (omega (arith, odd))
      ] in
    ap validate_and_decode_message (sym (append-nil (xor_message_with (frame_of p) x))) ∙ read

module _ (clock : Clock) where
  -- A request of at most 251 data bytes, or an acknowledgement with an odd number of them, that
  -- EncodeToBytes has written under a valid key is read back by DecodeFromBytes under any other
  -- valid key: the type, flag, register and data are those sent, and Xor is the byte applied.
  pub decode_from_bytes-encode_to_bytes :
      (p p₀ : PhevMessage) (sender receiver : SecurityKey)
      → IsSendable p
      → IsValid sender
      → IsValid receiver
      → (bytes : List ℕ) × (p' : PhevMessage) × (sender' : SecurityKey) × (q : PhevMessage)
        × (receiver' : SecurityKey) × (encode_to_bytes p sender ≡ ok (bytes, p', sender'))
        × (decode_from_bytes clock p₀ bytes receiver ≡ ok (q, receiver'))
        × IsCopy p p'.xor q
  decode_from_bytes-encode_to_bytes p p₀ sender receiver v vs vr =
      let (x, sender', e, _) = encode_to_bytes_lem p sender (omega (arith, v.fits)) vs in
      let bytes = xor_message_with (frame_of p) x in
      let (q, receiver', g, h, _) =
        decode_from_bytes-HasFrame clock p₀ bytes
          (record { frame = frame_of p; xor = x; rest = [] }) receiver
          (omega (arith, length-xor_message_with (frame_of p) x, length-frame_of p))
          (validate_and_decode_message-sendable p x v) (frame_of-IsFrame p)
          (omega (arith, length-frame_of p)) (omega (arith, length-frame_of p, v.fits)) vr in
      (bytes, record p { xor = x }, sender', q, receiver', e, g, HasFrame-IsCopy p q x [] h)
