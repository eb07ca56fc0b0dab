-- ===== src/Protocol/Message/Kinds.antt =====
-- The register that DecodeFromBytes attaches to a message is of the type that its register number
-- asks for.
use phev2mqtt.Base.{
  ℕ, ◌≤◌, ◌≡◌, refl, sym, ◌∙◌, ◌⊎◌, inl, inr, Bool, true, false, List, [], ◌==◌, ◌&&◌, ltb, arith,
  if◌then◌else◌, length, none, some, ok, Bool-cases, hex_encode, Gives, >>=-Gives, if-Gives,
  ok-Gives, err-Gives, Gives-ok, in_range, get_elem?, byte, ◌+◌,
}
use phev2mqtt.Protocol.Types.{Register, PhevMessage, empty_message}
use phev2mqtt.Protocol.SecurityKey.{SecurityKey}
use phev2mqtt.Protocol.Frame.{Decoded, slice, validate_and_decode_message}
use phev2mqtt.Protocol.Register.{decode, register_number, raw_text}
use phev2mqtt.Protocol.Register.Plain.{Clock, decode_generic, decode_time, decode_settings}
use phev2mqtt.Protocol.Register.Identity.{decode_vin, decode_ecu_version, decode_wifi_ssid}
use phev2mqtt.Protocol.Register.Battery.{
  decode_battery_level, decode_battery_warning, decode_charge_status, decode_charge_plug,
}
use phev2mqtt.Protocol.Register.Body.{decode_door_status, decode_light_status}
use phev2mqtt.Protocol.Register.Climate.{decode_pre_ac_state, decode_ac_oper_status, decode_ac_mode}
use phev2mqtt.Protocol.Constants.{
  vin_register, settings_register, time_register, ecu_version_register, battery_level_register,
  battery_warning_register, door_status_register, charge_plug_register, charge_status_register,
  pre_ac_state_register, ac_oper_status_register, ac_mode_register, wifi_ssid_register,
  light_status_register,
}
use phev2mqtt.Protocol.Message.Dispatch.{kind_of, kinds, kind_in, zero_struct-kind, decode-kind}
use phev2mqtt.Protocol.Message.{
  attach_register, zero_struct, track_key, fill_message, decode_from_bytes,
}

-- A register value that belongs to the message: it is of the type of the message's register number,
-- its number is the message's, and its raw bytes are the message's data, or none where Decode
-- refused them.
pub record BelongsTo (m : PhevMessage) (r : Register) : Type 0 where
  pub kind : kind_of r ≡ kind_in kinds m.register
  pub number : register_number r ≡ m.register
  pub raw : (raw_text r ≡ hex_encode m.data_bytes) ⊎ (raw_text r ≡ [])

-- A message has a register just when it is a notification, and then one that belongs to it.
abbrev pub IsTyped : PhevMessage → Type 0
IsTyped m =
    let notifies = m.typ == 0x6f && m.ack == 0 in
    ((notifies ≡ false) × (m.reg ≡ none))
    ⊎ ((notifies ≡ true) × ((r : Register) × (m.reg ≡ some r) × BelongsTo m r))

if-raw {ℓ} :
    {A : Type ℓ} (text : A → List ℕ) (whole : List ℕ) (b : Bool) (x y : A)
    → text x ≡ whole
    → text y ≡ []
    → (text (if b then x else y) ≡ whole) ⊎ (text (if b then x else y) ≡ [])
if-raw text whole true x y h k = inl h
if-raw text whole false x y h k = inr k

if-raw_not {ℓ} :
    {A : Type ℓ} (text : A → List ℕ) (whole : List ℕ) (b : Bool) (x y : A)
    → text x ≡ []
    → text y ≡ whole
    → (text (if b then x else y) ≡ whole) ⊎ (text (if b then x else y) ≡ [])
if-raw_not text whole true x y h k = inr h
if-raw_not text whole false x y h k = inl k

-- The number and the raw bytes of a register value are the message's.
record Fitting (m : PhevMessage) (r : Register) : Type 0 where
  number : register_number r ≡ m.register
  raw : (raw_text r ≡ hex_encode m.data_bytes) ⊎ (raw_text r ≡ [])

module _ (clock : Clock) (m : PhevMessage) where
  -- What the zero value of a kind decodes to.
  abbrev Fits : Register → Type 0
  Fits r = Fitting m (decode clock r m)

  if-Fits : (a b : ℕ) (x y : Register) → (a ≡ b → Fits x) → Fits y → Fits (if a == b then x else y)
  if-Fits a b x y h k = elim (Bool-cases (a == b)) [
    | inl e ↦ rw e (h (ground (arith, e)))
    | inr e ↦ rw e k
  ]

  zero_struct-Fits : Fits (zero_struct m.register)
  unfolding zero_struct decode register_number raw_text hex_encode decode_generic decode_time
      decode_settings decode_vin decode_ecu_version decode_wifi_ssid decode_battery_level
      decode_battery_warning decode_charge_status decode_charge_plug decode_door_status
      decode_light_status decode_pre_ac_state decode_ac_oper_status decode_ac_mode
  zero_struct-Fits =
      if-Fits m.register vin_register _ _ (λ e. record { number = sym e; raw = ground arith })
        (if-Fits m.register settings_register _ _
          (λ e. record { number = refl; raw = ground arith })
          (if-Fits m.register time_register _ _ (λ e. record { number = sym e; raw = ground arith })
            (if-Fits m.register ecu_version_register _ _
              (λ e. record { number = sym e; raw = ground arith })
              (if-Fits m.register battery_level_register _ _
                (λ e. record { number = sym e; raw = ground arith })
                (if-Fits m.register battery_warning_register _ _
                  (λ e. record { number = sym e; raw = ground arith })
                  (if-Fits m.register door_status_register _ _
                    (λ e. record { number = sym e; raw = ground arith })
                    (if-Fits m.register charge_plug_register _ _
                      (λ e. record { number = sym e; raw = ground arith })
                      (if-Fits m.register charge_status_register _ _
                        (λ e. record { number = sym e; raw = ground arith })
                        (if-Fits m.register pre_ac_state_register _ _
                          (λ e. record { number = sym e; raw = ground arith })
                          (if-Fits m.register ac_oper_status_register _ _
                            (λ e. record { number = sym e; raw = ground arith })
                            (if-Fits m.register ac_mode_register _ _
                              (λ e. record { number = sym e; raw = ground arith })
                              (if-Fits m.register wifi_ssid_register _ _
                                (λ e. record { number = sym e; raw = ground arith })
                                (if-Fits m.register light_status_register _ _
                                  (λ e. record { number = sym e; raw = ground arith })
                                  (record { number = refl; raw = ground arith }))))))))))))))

  attach_register-IsTyped : m.reg ≡ none → IsTyped (attach_register clock m)
  unfolding attach_register
  attach_register-IsTyped empty = elim (Bool-cases (m.typ == 0x6f && m.ack == 0)) [
    | inl e ↦
        rw (e, e)
          (inr (
            refl,
            (
              decode clock (zero_struct m.register) m,
              refl,
              (record {
                kind = decode-kind clock (zero_struct m.register) m ∙ zero_struct-kind m.register;
                number = zero_struct-Fits.number;
                raw = zero_struct-Fits.raw;
              }),
            ),
          ))
    | inr e ↦ rw (e, e) (inl (refl, empty))
  ]

-- As a decoded message is: its register is of the right kind, and its frame has four bytes or more.
abbrev pub IsRead : PhevMessage × SecurityKey → Type 0
IsRead (q, key) = IsTyped q × (4 ≤ length q.original)

attach_register-original :
    (clock : Clock) (m : PhevMessage) → (attach_register clock m).original ≡ m.original
unfolding attach_register
attach_register-original clock m = ground arith

long-original :
    (clock : Clock) (m : PhevMessage)
    → 4 ≤ length m.original
    → 4 ≤ length (attach_register clock m).original
long-original clock m h = rw (attach_register-original clock m) h

module _ (clock : Clock) where
  fill_message-Gives :
      (bytes : List ℕ) (d : Decoded) (key : SecurityKey)
      → Gives IsRead (fill_message clock empty_message bytes d key)
  unfolding fill_message
  fill_message-Gives bytes d key = elim (Bool-cases (ltb (length d.frame) 4)) [
    | inl short ↦ rw short (err-Gives IsRead)
    | inr long ↦
        let four : 4 ≤ length d.frame = ground (arith, long) in
        let at = λ (i : ℕ). in_range (get_elem? d.frame i) in
        let total = λ (size : ℕ). byte (size + 2) in
        rw long (
          >>=-Gives IsRead (at 0) _ (λ typ. >>=-Gives IsRead (at 1) _ (λ size.
            >>=-Gives IsRead (at 2) _ (λ ack. >>=-Gives IsRead (at 3) _ (λ register.
              if-Gives IsRead (ltb (length d.frame) (total size)) _ _ (err-Gives IsRead) (
                >>=-Gives IsRead (slice d.frame 4 (byte (total size + 255))) _ (λ payload.
                  >>=-Gives IsRead (at (byte (total size + 255))) _ (λ sum.
                    >>=-Gives IsRead (track_key typ bytes key) _ (λ key'.
                      let m : PhevMessage = record empty_message {
                        typ = typ;
                        length = total size;
                        ack = ack;
                        register = register;
                        data_bytes = payload;
                        checksum = sum;
                        xor = d.xor;
                        original = d.frame;
                        original_xored = bytes;
                      } in
                      ok-Gives IsRead (attach_register clock m, key')
                        (attach_register-IsTyped clock m refl, long-original clock m four))))))))))
  ]

  -- A message that DecodeFromBytes yields from the zero value comes from a frame of at least four
  -- bytes. It has a register just when it is a notification, and then that register's number is the
  -- message's, and its raw bytes are the message's data, or none where Decode refused them.
  pub decode_from_bytes-IsRead :
      (bytes : List ℕ) (key key' : SecurityKey) (q : PhevMessage)
      → decode_from_bytes clock empty_message bytes key ≡ ok (q, key')
      → IsTyped q × (4 ≤ length q.original)
  unfolding decode_from_bytes
  decode_from_bytes-IsRead bytes key key' q e =
      Gives-ok IsRead _ (q, key')
        (if-Gives IsRead (ltb (length bytes) 4) _ _ (err-Gives IsRead) (
          >>=-Gives IsRead (validate_and_decode_message bytes) _
            (λ d. fill_message-Gives bytes d key)))
        e
