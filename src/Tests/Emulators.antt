-- ===== src/Tests/Emulators.antt =====
-- The emulator at concrete inputs.
use phev2mqtt.Base.{false, ◌≡◌, refl, [], ◌∷◌, codes, length, take, arith, some, none, ok}
use phev2mqtt.Protocol.SecurityKey.{new_key}
use phev2mqtt.Protocol.Types.{Register}
use phev2mqtt.Protocol.Register.{encode}
use phev2mqtt.Protocol.Register.Plain.{encode_generic}
use phev2mqtt.Emulator.Connection.{Connection, new_connection, con_tcp_open, send_next_register}
use phev2mqtt.Emulator.Connection.Laws.{Encodes}
use phev2mqtt.Emulator.Car.{Car, new_car, address_option}
use phev2mqtt.Emulator.Car.Laws.{new_car-schedule}
use phev2mqtt.Emulator.Connection.Schedule.{
  IsReady, Refines, schedule, send_registers, send_next_register-Refines,
}
use phev2mqtt.Tests.Data.{test_clock}

abbrev pub odometer : Register
odometer = Register.generic (record { reg = 0x2c; value = 0x1 ∷ 0x2 ∷ [] })

pub odometer-Encodes : Encodes test_clock odometer
unfolding encode encode_generic
odometer-Encodes = (_, refl)

-- A connection of a car with two registers, the first of which was sent.
abbrev half_sent : Connection
half_sent = record {
  car = record {
    registers = odometer ∷ odometer ∷ [];
    settings = record { settings = [] };
    address = [];
  };
  key = new_key;
  sent = [];
  state = con_tcp_open;
  register_index = some 1;
  settings_sender = none;
  ping_count = 12;
  listeners = [];
  next_pointer = 0;
  conn_closed = false;
}

half_sent-IsReady : IsReady test_clock half_sent
half_sent-IsReady = record {
  encodes = (odometer-Encodes, (odometer-Encodes, tt));
  in_range = omega arith;
  exclusive = tt;
}

send_next_register-Refines_example :
    Refines test_clock half_sent (send_next_register test_clock half_sent)
send_next_register-Refines_example =
    send_next_register-Refines test_clock half_sent half_sent-IsReady

new_car-schedule_example :
    (car : Car) × (s : Connection) × (new_car (address_option (codes ":8080") ∷ []) ≡ ok car)
    × (car.address ≡ codes ":8080")
    × (length car.registers ≡ 42)
    × (send_registers test_clock 3 (new_connection car) ≡ ok s)
    × (s.sent ≡ take 3 (schedule test_clock car))
new_car-schedule_example = new_car-schedule test_clock (codes ":8080") 3
