-- ===== src/Tests/Cars.antt =====
-- The emulator command at concrete inputs.
use phev2mqtt.Base.{
  ℕ, ◌≡◌, refl, true, List, [], ◌∷◌, ◌++◌, arith, codes, same_text, replicate, Option, some, ok,
}
use phev2mqtt.Protocol.Message.Encode.{frame_of}
use phev2mqtt.Emulator.Car.{Car}
use phev2mqtt.Emulator.Car.Laws.{new_car-Encodes}
use phev2mqtt.Emulator.Connection.{Connection, manage}
use phev2mqtt.Emulator.Connection.Threads.{Reach, Step, received}
use phev2mqtt.Command.Emulator.{Emu, publish}
use phev2mqtt.Command.StartUp.{run_emulator, fresh_emu}
use phev2mqtt.Command.StartUp.Cars.{leading, at_start, run_emulator-Manages}
use phev2mqtt.Tests.Data.{test_clock}
use phev2mqtt.Tests.Exchanges.{draw, request, served_by, served-IsRead, served-runs}

abbrev server : List ℕ
server = codes "tcp://127.0.0.1:1883"

abbrev set_topic : Option (List ℕ)
set_topic = some (codes "phev/emu" ++ codes "/set/#")

-- The emulator has started, and accepted one connection.
emulator_runs :
    (car : Car) × (e : Emu) × (run_emulator server
        (codes "phev/emu")
        (codes ":8080")
        true
        true
        true
        (true ∷ [])
      ≡ ok (set_topic, car, served_by car ∷ [], e))
unfolding run_emulator same_text
emulator_runs =
    let (car, made, encodes, some_register) = new_car-Encodes test_clock (codes ":8080") in
    (
      car,
      publish (codes "/available") (codes "online")
          (record (fresh_emu (codes "phev/emu") true) { car = some car }),
      rw made refl,
    )

run_emulator-Manages_example :
    let (car, e, _) = emulator_runs in
    let (s, q, _, _) = served-IsRead car in
    (e.car ≡ some car)
    × ((served_by car ∷ []) ≡ replicate (leading (true ∷ [])) (at_start car))
    × ((s' : Connection) × (manage test_clock draw q (received 0 s) ≡ ok s'))
run_emulator-Manages_example =
    let (car, e, runs) = emulator_runs in
    run_emulator-Manages test_clock draw server (codes "phev/emu") (codes ":8080") true true true
      (true ∷ []) set_topic car (served_by car ∷ []) e 0 (served-IsRead car).1 runs
      (Reach.stepped Reach.accepted
        (Step.reads (frame_of request) (served-runs car) (omega arith) (served-IsRead car).2))
      (served-IsRead car).3
