-- ===== src/Emulator/Car/Laws.antt =====
-- NewCar and the messages of a car with the default registers and settings.
use phev2mqtt.Base.{
  ◌<◌, hex_decode, ℕ, ◌≡◌, refl, Bool, true, false, ◌&&◌, ltb, leb, List, [], ◌∷◌, All, length,
  take, replicate, ◌++◌, ◌-◌, arith, ok,
}
use phev2mqtt.Protocol.Types.{Register, empty_message}
use phev2mqtt.Protocol.Constants.{wifi_ssid_register}
use phev2mqtt.Protocol.Register.{encode}
use phev2mqtt.Protocol.Register.Plain.{Clock}
use phev2mqtt.Protocol.Register.Identity.{encode_wifi_ssid}
use phev2mqtt.Protocol.Settings.{from_register}
use phev2mqtt.Emulator.Car.{Car, new_car, address_option}
use phev2mqtt.Emulator.Connection.{Connection, new_connection}
use phev2mqtt.Emulator.Connection.Schedule.{schedule, send_registers, send_registers-schedule}
use phev2mqtt.Emulator.Connection.Laws.{Encodes}

-- The registers whose Encode does not panic.
abbrev pub can_encode : Register → Bool
can_encode (Register.pre_ac_state r) = false
can_encode (Register.light_status r) = false
can_encode (Register.wifi_ssid r) = leb (length r.ssid) 32
can_encode (Register.generic r) = true
can_encode (Register.time r) = true
can_encode (Register.settings r) = true
can_encode (Register.vin r) = true
can_encode (Register.ecu_version r) = true
can_encode (Register.battery_level r) = true
can_encode (Register.battery_warning r) = true
can_encode (Register.door_status r) = true
can_encode (Register.charge_status r) = true
can_encode (Register.ac_oper_status r) = true
can_encode (Register.ac_mode r) = true
can_encode (Register.charge_plug r) = true

abbrev pub all_encode : List Register → Bool
all_encode [] = true
all_encode (r ∷ rs) = can_encode r && all_encode rs

pub can_encode-Encodes : (clock : Clock) (r : Register) → can_encode r ≡ true → Encodes clock r
unfolding encode encode_wifi_ssid
can_encode-Encodes clock (Register.pre_ac_state r) h = cc
can_encode-Encodes clock (Register.light_status r) h = cc
can_encode-Encodes clock (Register.wifi_ssid r) h =
    let short : ltb 32 (length r.ssid) ≡ false = ground (arith, h) in
    (
      record empty_message {
        register = wifi_ssid_register;
        data_bytes = r.ssid ++ replicate (32 - length r.ssid) 0;
      },
      rw short refl,
    )
can_encode-Encodes clock (Register.generic r) h = (_, refl)
can_encode-Encodes clock (Register.time r) h = (_, refl)
can_encode-Encodes clock (Register.settings r) h = (_, refl)
can_encode-Encodes clock (Register.vin r) h = (_, refl)
can_encode-Encodes clock (Register.ecu_version r) h = (_, refl)
can_encode-Encodes clock (Register.battery_level r) h = (_, refl)
can_encode-Encodes clock (Register.battery_warning r) h = (_, refl)
can_encode-Encodes clock (Register.door_status r) h = (_, refl)
can_encode-Encodes clock (Register.charge_status r) h = (_, refl)
can_encode-Encodes clock (Register.ac_oper_status r) h = (_, refl)
can_encode-Encodes clock (Register.ac_mode r) h = (_, refl)
can_encode-Encodes clock (Register.charge_plug r) h = (_, refl)

all_encode-Encodes :
    (clock : Clock) (rs : List Register) → all_encode rs ≡ true → All (Encodes clock) rs
all_encode-Encodes clock [] h = tt
all_encode-Encodes clock (r ∷ rs) h = (
  can_encode-Encodes clock r (ground (arith, h)),
  all_encode-Encodes clock rs (ground (arith, h)),
)

-- The car that NewCar makes: its 42 registers can all be encoded.
new_car_lem :
    (address : List ℕ)
    → (car : Car) × (new_car (address_option address ∷ []) ≡ ok car)
      × (car.address ≡ address)
      × (length car.registers ≡ 42)
      × (all_encode car.registers ≡ true)
unfolding new_car address_option hex_decode from_register
new_car_lem address = (_, refl, refl, refl, refl)

-- NewCar with an address does not fail: the car has that address and the 42 default registers, and
-- on a new connection with it `n` calls of sendNextRegister put on Send the first `n` messages of
-- its schedule, the registers in order and then the settings.
pub new_car-schedule :
    (clock : Clock) (address : List ℕ) (n : ℕ)
    → (car : Car) × (s : Connection) × (new_car (address_option address ∷ []) ≡ ok car)
      × (car.address ≡ address)
      × (length car.registers ≡ 42)
      × (send_registers clock n (new_connection car) ≡ ok s)
      × (s.sent ≡ take n (schedule clock car))
new_car-schedule clock address n =
    let (car, made, named, size, all) = new_car_lem address in
    let (s, sent, whole) =
      send_registers-schedule clock car n (all_encode-Encodes clock car.registers all)
        (omega (arith, size)) in
    (car, s, made, named, size, sent, whole)

-- Every register of a new car can be encoded.
pub new_car-Encodes :
    (clock : Clock) (address : List ℕ)
    → (car : Car) × (new_car (address_option address ∷ []) ≡ ok car)
      × All (Encodes clock) car.registers
      × (0 < length car.registers)
new_car-Encodes clock address =
    let (car, made, named, size, all) = new_car_lem address in
    (car, made, all_encode-Encodes clock car.registers all, omega (arith, size))
