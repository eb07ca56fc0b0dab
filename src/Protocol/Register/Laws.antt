-- ===== src/Protocol/Register/Laws.antt =====
-- Which registers survive Encode and then Decode, and which do not.
use phev2mqtt.Base.{
  ℕ_discrete, ℕ, zero, suc, ◌-◌, ◌*◌, ◌/◌, ◌%◌, ◌≤◌, ◌<◌, ◌≡◌, ◌≢◌, refl, sym, ap, ◌⊎◌, inl, inr,
  Bool, true, false, List, [], ◌∷◌, ◌++◌, ◌==◌, arith, All, map, codes, if◌then◌else◌, length, set,
  take, replicate, ok, panic, byte, length-append, length-replicate, dec_lt, take-append,
  Bool-cases, lt→ltb, le→ltb, bit_or_comm, bit_or_shifted, same_text,
}
use phev2mqtt.Protocol.Types.{
  RegisterVin, RegisterEcuVersion, RegisterBatteryLevel, RegisterBatteryWarning, RegisterDoorStatus,
  RegisterChargeStatus, RegisterAcOperStatus, RegisterAcMode, RegisterChargePlug, RegisterWifiSsid,
  PhevMessage, empty_message,
}
use phev2mqtt.Protocol.Constants.{wifi_ssid_register}
use phev2mqtt.Protocol.Register.Identity.{
  decode_vin, encode_vin, decode_ecu_version, encode_ecu_version, decode_wifi_ssid,
  encode_wifi_ssid,
}
use phev2mqtt.Protocol.Register.Battery.{
  decode_battery_level, encode_battery_level, decode_battery_warning, encode_battery_warning,
  decode_charge_status, encode_charge_status, decode_charge_plug, encode_charge_plug,
}
use phev2mqtt.Protocol.Register.Body.{decode_door_status, encode_door_status}
use phev2mqtt.Protocol.Register.Climate.{
  decode_ac_oper_status, encode_ac_oper_status, decode_ac_mode, encode_ac_mode,
}

-- Two door states agree on the lock, the doors and the headlights.
pub record SameDoors (r q : RegisterDoorStatus) : Type 0 where
  pub locked : q.locked ≡ r.locked
  pub driver : q.driver ≡ r.driver
  pub front_passenger : q.front_passenger ≡ r.front_passenger
  pub rear_left : q.rear_left ≡ r.rear_left
  pub rear_right : q.rear_right ≡ r.rear_right
  pub bonnet : q.bonnet ≡ r.bonnet
  pub boot : q.boot ≡ r.boot
  pub headlights : q.headlights ≡ r.headlights

abbrev flag_byte : Bool → ℕ
flag_byte b = if b then 1 else 0

set_flag :
    (b : Bool) (i : ℕ) (xs : List ℕ)
    → set xs i 0 ≡ xs
    → (if b then set xs i 0x1 else xs) ≡ set xs i (flag_byte b)
set_flag true i xs h = refl
set_flag false i xs h = sym h

door_bytes :
    (r : RegisterDoorStatus)
    → (encode_door_status r).data_bytes
      ≡ flag_byte r.locked
        ∷ 0
        ∷ 0
        ∷ flag_byte r.driver
        ∷ flag_byte r.front_passenger
        ∷ flag_byte r.rear_right
        ∷ flag_byte r.rear_left
        ∷ flag_byte r.boot
        ∷ flag_byte r.bonnet
        ∷ flag_byte r.headlights
        ∷ []
unfolding encode_door_status
door_bytes r =
    let a = flag_byte r.locked in
    let b = flag_byte r.driver in
    let c = flag_byte r.front_passenger in
    let d = flag_byte r.rear_right in
    let e = flag_byte r.rear_left in
    let f = flag_byte r.boot in
    let g = flag_byte r.bonnet in
    rw
      (
        set_flag r.locked 0 (0 ∷ 0 ∷ 0 ∷ 0 ∷ 0 ∷ 0 ∷ 0 ∷ 0 ∷ 0 ∷ 0 ∷ []) refl,
        set_flag r.driver 3 (a ∷ 0 ∷ 0 ∷ 0 ∷ 0 ∷ 0 ∷ 0 ∷ 0 ∷ 0 ∷ 0 ∷ []) refl,
        set_flag r.front_passenger 4 (a ∷ 0 ∷ 0 ∷ b ∷ 0 ∷ 0 ∷ 0 ∷ 0 ∷ 0 ∷ 0 ∷ []) refl,
        set_flag r.rear_right 5 (a ∷ 0 ∷ 0 ∷ b ∷ c ∷ 0 ∷ 0 ∷ 0 ∷ 0 ∷ 0 ∷ []) refl,
        set_flag r.rear_left 6 (a ∷ 0 ∷ 0 ∷ b ∷ c ∷ d ∷ 0 ∷ 0 ∷ 0 ∷ 0 ∷ []) refl,
        set_flag r.boot 7 (a ∷ 0 ∷ 0 ∷ b ∷ c ∷ d ∷ e ∷ 0 ∷ 0 ∷ 0 ∷ []) refl,
        set_flag r.bonnet 8 (a ∷ 0 ∷ 0 ∷ b ∷ c ∷ d ∷ e ∷ f ∷ 0 ∷ 0 ∷ []) refl,
        set_flag r.headlights 9 (a ∷ 0 ∷ 0 ∷ b ∷ c ∷ d ∷ e ∷ f ∷ g ∷ 0 ∷ []) refl,
      )
      refl

flag_byte-set : (b : Bool) → (flag_byte b == 1) ≡ b
flag_byte-set true = refl
flag_byte-set false = refl

door_register : (r : RegisterDoorStatus) → (encode_door_status r).register ≡ 0x24
unfolding encode_door_status
door_register r = refl

-- The lock, the six doors and the headlights survive Encode and then Decode, whatever the struct
-- that Decode fills held before.
pub decode_door_status-encode_door_status :
    (r before : RegisterDoorStatus) → SameDoors r (decode_door_status before (encode_door_status r))
unfolding decode_door_status
decode_door_status-encode_door_status r before =
    rw (door_bytes r, door_register r)
      (record {
        locked = flag_byte-set r.locked;
        driver = flag_byte-set r.driver;
        front_passenger = flag_byte-set r.front_passenger;
        rear_left = flag_byte-set r.rear_left;
        rear_right = flag_byte-set r.rear_right;
        bonnet = flag_byte-set r.bonnet;
        boot = flag_byte-set r.boot;
        headlights = flag_byte-set r.headlights;
      })

-- A charge that runs, with fewer than 0xff00 minutes left, survives Encode and then Decode; a
-- charge that does not run comes back with no minutes left.
pub decode_charge_status-encode_charge_status :
    (r before : RegisterChargeStatus)
    → r.remaining < 0xff00
    → let q = decode_charge_status before (encode_charge_status r) in
      (q.charging ≡ r.charging) × (q.remaining ≡ (if r.charging then r.remaining else 0))
unfolding decode_charge_status encode_charge_status
decode_charge_status-encode_charge_status r before h = elim (Bool-cases r.charging) [
  | inl e ↦ rw e (
      ground (
        arith,
        bit_or_comm (byte (r.remaining / 256) * 256) (byte (r.remaining % 256)),
        bit_or_shifted 8 (byte (r.remaining % 256)) (byte (r.remaining / 256)) (omega arith),
      ))
  | inr e ↦ rw e (refl, refl)
]

-- A mode that Decode can name, other than unknown, survives Encode and then Decode. Encode drops
-- the duration, which comes back as 10 minutes.
pub decode_ac_mode-encode_ac_mode :
    (r before : RegisterAcMode)
    → (r.mode ≡ codes "off")
      ⊎ (r.mode ≡ codes "cool")
      ⊎ (r.mode ≡ codes "heat")
      ⊎ (r.mode ≡ codes "windscreen")
    → let q = decode_ac_mode before (encode_ac_mode r) in (q.mode ≡ r.mode) × (q.duration ≡ 10)
unfolding decode_ac_mode encode_ac_mode same_text
decode_ac_mode-encode_ac_mode r before (inl e) = rw e (refl, refl)
decode_ac_mode-encode_ac_mode r before (inr (inl e)) = rw e (refl, refl)
decode_ac_mode-encode_ac_mode r before (inr (inr (inl e))) = rw e (refl, refl)
decode_ac_mode-encode_ac_mode r before (inr (inr (inr e))) = rw e (refl, refl)

-- The plug, the running state of the air conditioning, and a battery warning that is a byte survive
-- Encode and then Decode.
pub decode_flags-encode_flags :
    (p p₀ : RegisterChargePlug) (a a₀ : RegisterAcOperStatus) (w w₀ : RegisterBatteryWarning)
    → w.warning < 256
    → ((decode_charge_plug p₀ (encode_charge_plug p)).connected ≡ p.connected)
      × ((decode_ac_oper_status a₀ (encode_ac_oper_status a)).operating ≡ a.operating)
      × ((decode_battery_warning w₀ (encode_battery_warning w)).warning ≡ w.warning)
unfolding decode_charge_plug encode_charge_plug decode_ac_oper_status encode_ac_oper_status
    decode_battery_warning encode_battery_warning
decode_flags-encode_flags p p₀ a a₀ w w₀ h = (ground arith, ground arith, omega arith)

abbrev masked : List ℕ → List ℕ
masked = map (λ b. if b == 0xff then 0x0 else b)

masked-zeros : (n : ℕ) → masked (replicate n 0) ≡ replicate n 0
masked-zeros zero = refl
masked-zeros (suc n) = ap (◌∷◌ 0) (masked-zeros n)

masked_none :
    (xs ys : List ℕ) → All (λ b. b ≢ 0xff) xs → masked ys ≡ ys → masked (xs ++ ys) ≡ xs ++ ys
masked_none [] ys h e = e
masked_none (x ∷ xs) ys h e =
    let kept : (if x == 0xff then 0x0 else x) ≡ x = ground (arith, h.0) in
    rw (kept, masked_none xs ys h.1 e) refl

-- A network name of at most 32 bytes, none of them 0xff, comes back with zero bytes up to 32; a
-- longer one makes Encode panic.
pub decode_wifi_ssid-encode_wifi_ssid :
    (r before : RegisterWifiSsid)
    → All (λ b. b ≢ 0xff) r.ssid
    → ((length r.ssid ≤ 32)
        × ((m : PhevMessage) × (encode_wifi_ssid r ≡ ok m)
            × ((decode_wifi_ssid before m).ssid ≡ r.ssid ++ replicate (32 - length r.ssid) 0)))
      ⊎ ((32 < length r.ssid) × (encode_wifi_ssid r ≡ panic))
unfolding decode_wifi_ssid encode_wifi_ssid
decode_wifi_ssid-encode_wifi_ssid r before h = elim (dec_lt 32 (length r.ssid)) [
  | yes long ↦ inr (long, rw (lt→ltb 32 (length r.ssid) long) refl)
  | no short ↦
      let pad : List ℕ = replicate (32 - length r.ssid) 0 in
      let m : PhevMessage = record empty_message {
        register = wifi_ssid_register;
        data_bytes = r.ssid ++ pad;
      } in
      let size : (length (r.ssid ++ pad) == 32) ≡ true =
        ground (arith, length-append r.ssid pad, length-replicate {A = ℕ} (32 - length r.ssid) 0) in
      inl (
        omega arith,
        (
          m,
          rw (le→ltb 32 (length r.ssid) (omega arith)) refl,
          rw size (masked_none r.ssid pad h (masked-zeros (32 - length r.ssid))),
        ),
      )
]

-- A battery level never survives: Encode writes three bytes and Decode wants four, so the struct
-- that Decode is to fill stays as it was.
pub decode_battery_level-encode_battery_level :
    (r before : RegisterBatteryLevel)
    → decode_battery_level before (encode_battery_level r) ≡ before
unfolding decode_battery_level encode_battery_level
decode_battery_level-encode_battery_level r before = ground arith

-- Encode writes a VIN as three bytes more than its length, and Decode takes 20 bytes and the first
-- 16 of the VIN: a VIN of 17 characters loses its last one, and after any other the struct that
-- Decode is to fill stays as it was.
pub decode_vin-encode_vin :
    (r before : RegisterVin)
    → ((length r.vin ≡ 17) × ((decode_vin before (encode_vin r)).vin ≡ take 16 r.vin))
      ⊎ ((length r.vin ≢ 17) × (decode_vin before (encode_vin r) ≡ before))
unfolding decode_vin encode_vin
decode_vin-encode_vin r before =
    let tail : List ℕ = 0x0 ∷ byte r.registrations ∷ [] in
    elim (ℕ_discrete (length r.vin) 17) [
      | yes e ↦
          let size : (suc (length (r.vin ++ tail)) == 20) ≡ true =
            ground (arith, length-append r.vin tail) in
          inl (e, rw size (take-append r.vin tail 16 (omega arith)))
      | no e ↦
          let size : (suc (length (r.vin ++ tail)) == 20) ≡ false =
            ground (arith, length-append r.vin tail) in
          inr (e, rw size refl)
    ]

-- Encode writes an ECU version as three bytes more than its length, and Decode takes 13 bytes and
-- the first 9 of the version: a version of the 9 characters that Decode yields is refused.
pub decode_ecu_version-encode_ecu_version :
    (r before : RegisterEcuVersion)
    → ((length r.version ≡ 10)
        × ((decode_ecu_version before (encode_ecu_version r)).version ≡ take 9 r.version))
      ⊎ ((length r.version ≢ 10) × (decode_ecu_version before (encode_ecu_version r) ≡ before))
unfolding decode_ecu_version encode_ecu_version
decode_ecu_version-encode_ecu_version r before =
    let tail : List ℕ = 0x11 ∷ 0x00 ∷ 0x00 ∷ [] in
    elim (ℕ_discrete (length r.version) 10) [
      | yes e ↦
          let size : (length (r.version ++ tail) == 13) ≡ true =
            ground (arith, length-append r.version tail) in
          inl (e, rw size (take-append r.version tail 9 (omega arith)))
      | no e ↦
          let size : (length (r.version ++ tail) == 13) ≡ false =
            ground (arith, length-append r.version tail) in
          inr (e, rw size refl)
    ]
