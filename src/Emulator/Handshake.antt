-- ===== src/Emulator/Handshake.antt =====
-- The key exchange between the emulator and the client: the proposal that the emulator sends is
-- the one that it later accepts, and the client derives the same keys from it.
use mathlib.Core.List.{append_assoc}
use phev2mqtt.Base.{
  ℕ, ◌+◌, ◌<◌, ◌≡◌, refl, sym, ap, ◌∙◌, inl, inr, Bool-cases, ◌%◌, true, false, List, [], ◌∷◌, ◌++◌,
  arith, length, replicate, bit_xor-zero, get_or-append, length-append, ok,
}
use phev2mqtt.Protocol.SecurityKey.{
  SecurityKey, security_key_accepted, extract_key, update, accept_proposal, generate_proposal,
}
use phev2mqtt.Protocol.SecurityKey.Schedule.{IsKeyMap, update-same_keys}
use phev2mqtt.Protocol.Frame.{xor_message_with, validate_and_decode_message}
use phev2mqtt.Protocol.Frame.Checksum.{sum}
use phev2mqtt.Protocol.Types.{PhevMessage, new_message}
use phev2mqtt.Protocol.Register.Plain.{Clock}
use phev2mqtt.Protocol.Message.{choose_xor, encode_to_bytes, decode_from_bytes, track_key}
use phev2mqtt.Protocol.Message.Decode.{decode_from_bytes-key}
use phev2mqtt.Protocol.Message.Encode.{
  encode_to_bytes-choose_xor, frame_of, body_of, frame_of-IsFrame, length-frame_of, IsCopy,
  HasFrame-IsCopy, validate_and_decode_message-sendable,
}
use phev2mqtt.Emulator.Connection.{Connection, rekey, in_register_start}

xor_message_with-zero : (bs : List ℕ) → xor_message_with bs 0 ≡ bs
unfolding xor_message_with
xor_message_with-zero [] = refl
xor_message_with-zero (b ∷ bs) = rw (bit_xor-zero b, xor_message_with-zero bs) refl

-- The proposal as it is sent: the eight bytes, and a byte 1 behind them.
abbrev pub proposal : List ℕ → PhevMessage
proposal drawn = new_message 0x5e 0x1 false (drawn ++ (0x1 ∷ []))

extract_key-same :
    (a b c d a' b' c' d' : ℕ) (xs rest : List ℕ)
    → length xs ≡ 8
    → extract_key (a ∷ b ∷ c ∷ d ∷ (xs ++ rest)) ≡ extract_key (a' ∷ b' ∷ c' ∷ d' ∷ xs)
unfolding extract_key
extract_key-same a b c d a' b' c' d' xs rest h =
    let at = λ (i : ℕ) (p : i < 8). get_or-append xs rest i 0 (rw h p) in
    rw
      (
        at 0 (omega arith),
        at 1 (omega arith),
        at 2 (omega arith),
        at 3 (omega arith),
        at 4 (omega arith),
        at 5 (omega arith),
        at 6 (omega arith),
        at 7 (omega arith),
      )
      refl

extract_key-frame :
    (drawn : List ℕ)
    → length drawn ≡ 8
    → extract_key (frame_of (proposal drawn)) ≡ extract_key (0x0 ∷ 0x0 ∷ 0x0 ∷ 0x0 ∷ drawn)
unfolding new_message
extract_key-frame drawn eight =
    let p = proposal drawn in
    let end = sum (body_of p) % 256 ∷ [] in
    ap (λ (bs : List ℕ). extract_key (p.typ ∷ (length p.data_bytes + 3) ∷ p.ack ∷ p.register ∷ bs))
      (append_assoc drawn (0x1 ∷ []) end)
    ∙ extract_key-same p.typ (length p.data_bytes + 3) p.ack p.register 0 0 0 0 drawn
        ((0x1 ∷ []) ++ end) eight

-- The client that decodes the frame of `m` with `receiver`, and the emulator that accepts its
-- proposal with `sender`, get the same keys. The frame is sent in the clear.
abbrev pub Agree : Clock → PhevMessage → SecurityKey → SecurityKey → PhevMessage → Type 0
Agree clock p₀ sender receiver m =
    (m' : PhevMessage) × (q : PhevMessage) × (client : SecurityKey) × (car : SecurityKey)
    × (encode_to_bytes m sender ≡ ok (frame_of m, m', sender))
    × (decode_from_bytes clock p₀ (frame_of m) receiver ≡ ok (q, client))
    × (accept_proposal sender ≡ ok car)
    × IsCopy m 0 q
    × IsKeyMap client.key_map
    × (client.key_map ≡ car.key_map)
    × (client.security_key ≡ car.security_key)
    × ((client.s_num ≡ 0) × (client.r_num ≡ 0) × (car.s_num ≡ 0) × (car.r_num ≡ 0))

accept_proposal-update :
    (s t : SecurityKey) (drawn : List ℕ)
    → s.proposed_key ≡ drawn
    → update s (0x0 ∷ 0x0 ∷ 0x0 ∷ 0x0 ∷ drawn) ≡ ok t
    → accept_proposal s ≡ ok (record t { state = security_key_accepted })
unfolding accept_proposal
accept_proposal-update s t drawn same e =
    let at : update s (0x0 ∷ 0x0 ∷ 0x0 ∷ 0x0 ∷ s.proposed_key) ≡ ok t =
      ap (λ (d : List ℕ). update s (0x0 ∷ 0x0 ∷ 0x0 ∷ 0x0 ∷ d)) same ∙ e in
    rw at refl

module _ (clock : Clock) (p₀ : PhevMessage) (sender receiver : SecurityKey) (drawn : List ℕ)
    (eight : length drawn ≡ 8) (same : sender.proposed_key ≡ drawn) where
  proposal-Agree : Agree clock p₀ sender receiver (proposal drawn)
  unfolding new_message choose_xor track_key
  proposal-Agree =
      let p = proposal drawn in
      let bytes = frame_of p in
      let size : length (drawn ++ (0x1 ∷ [])) ≡ 9 =
        omega (arith, length-append drawn (0x1 ∷ []), eight) in
      let long : length bytes ≡ 14 = omega (arith, length-frame_of p, size) in
      let plain : xor_message_with bytes 0 ≡ bytes = xor_message_with-zero bytes in
      let sent : encode_to_bytes p sender
          ≡ ok (xor_message_with bytes 0, record p { xor = 0 }, sender) =
        encode_to_bytes-choose_xor p sender 0 sender (omega (arith, size)) refl in
      let found : validate_and_decode_message bytes
          ≡ ok (record { frame = bytes; xor = 0; rest = [] }) =
        ap validate_and_decode_message (sym plain)
        ∙ validate_and_decode_message-sendable p 0
            (record { fits = omega (arith, size); flag = inl refl }) in
      let (client, car, at_client, at_car, rekeyed, same_map, same_key, s_zero, r_zero) =
        update-same_keys receiver sender bytes (0x0 ∷ 0x0 ∷ 0x0 ∷ 0x0 ∷ drawn) (omega (arith, long))
          (omega (arith, eight)) (extract_key-frame drawn eight) in
      let (q, read, h) =
        decode_from_bytes-key clock p₀ bytes (record { frame = bytes; xor = 0; rest = [] }) receiver
          client (omega (arith, long)) found (frame_of-IsFrame p) (omega (arith, long))
          (omega (arith, long)) at_client in
      (
        record p { xor = 0 },
        q,
        client,
        record car { state = security_key_accepted },
        sent ∙ ap (λ (bs : List ℕ). ok (bs, record p { xor = 0 }, sender)) plain,
        read,
        accept_proposal-update sender car drawn same at_car,
        HasFrame-IsCopy p q 0 [] h,
        rekeyed.is_key_map,
        same_map,
        same_key,
        (rekeyed.send_reset, rekeyed.receive_reset, s_zero, r_zero),
      )

-- In the step that sends it the proposal comes last, and what is accepted is what was drawn.
pub rekey-sent :
    (rand_read : List ℕ → List ℕ) (s : Connection)
    → (before : List PhevMessage) × ((rekey rand_read s).sent
        ≡ before ++ (proposal (rand_read (replicate 8 0)) ∷ []))
      × ((rekey rand_read s).key.proposed_key ≡ rand_read (replicate 8 0))
unfolding rekey new_message generate_proposal
rekey-sent rand_read s = elim (Bool-cases (in_register_start s.state)) [
  | inl e ↦ (s.sent ++ (new_message 0x5e 0x1 true (0x0 ∷ []) ∷ []), rw e refl, refl)
  | inr e ↦ (s.sent, rw e refl, refl)
]

-- When eight bytes are drawn, the last message that rekey puts on Send is a proposal of them. Its frame is
-- sent in the clear; a client that decodes it and the emulator that accepts it derive the same key
-- byte and the same key map, a permutation of all bytes, and both start at index 0.
pub rekey-Agree :
    (clock : Clock) (rand_read : List ℕ → List ℕ) (s : Connection) (p₀ : PhevMessage)
    (receiver : SecurityKey)
    → length (rand_read (replicate 8 0)) ≡ 8
    → (before : List PhevMessage) × (m : PhevMessage) × ((rekey rand_read s).sent
        ≡ before ++ (m ∷ []))
      × Agree clock p₀ (rekey rand_read s).key receiver m
rekey-Agree clock rand_read s p₀ receiver eight =
    let (before, sent, same) = rekey-sent rand_read s in
    (
      before,
      proposal (rand_read (replicate 8 0)),
      sent,
      proposal-Agree clock p₀ (rekey rand_read s).key receiver (rand_read (replicate 8 0)) eight
          same,
    )
