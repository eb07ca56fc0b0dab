-- ===== src/Tests/Exchanges.antt =====
-- The emulator and its exchanges with the client at concrete inputs.
use phev2mqtt.Base.{
  ℕ, false, inl, ◌≡◌, refl, ap, List, [], ◌∷◌, arith, codes, All, some, ok, panic, ◌⊎◌, length, ◌≤◌,
}
use phev2mqtt.Protocol.SecurityKey.{new_key}
use phev2mqtt.Protocol.SecurityKey.Counters.{new_key-IsValid}
use phev2mqtt.Protocol.Message.Kinds.{IsTyped}
use phev2mqtt.Protocol.Message.Encode.{IsSendable, frame_of}
use phev2mqtt.Protocol.Frame.{xor_message_with}
use phev2mqtt.Protocol.Stream.{Scan, new_from_bytes}
use phev2mqtt.Protocol.Stream.Each.{new_from_bytes-IsTyped}
use phev2mqtt.Protocol.Types.{PhevMessage}
use phev2mqtt.Client.Listener.{Listener}
use phev2mqtt.Client.Listener
use phev2mqtt.Client.State.{Client, new, address_option, add_listener}
use phev2mqtt.Client.SetRegister.{set_message}
use phev2mqtt.Emulator.Car.{Car}
use phev2mqtt.Emulator.Connection.{Connection, new_connection, manage}
use phev2mqtt.Emulator.Connection.Loops.{start, reader}
use phev2mqtt.Emulator.Connection.Loops
use phev2mqtt.Emulator.Connection.Threads.{Reach, Step, front, received}
use phev2mqtt.Emulator.Connection.Threads.Fit.{IsFit}
use phev2mqtt.Emulator.Connection.Threads.Safe.{Reach-Manages}
use phev2mqtt.Emulator.Exchange.{IsExchanged, set_register-IsExchanged}
use phev2mqtt.Emulator.Exchange.Sides.{HasRoom, car_reads, request_prints}
use phev2mqtt.Tests.Data.{test_clock, keyed, keyed-IsValid, noise}
use phev2mqtt.Tests.Emulators.{odometer, odometer-Encodes}

abbrev pub draw : List ℕ → List ℕ
draw _ = 8 ∷ 0 ∷ 0 ∷ 8 ∷ 0 ∷ 0 ∷ 0 ∷ 8 ∷ []

abbrev small_car : Car
small_car = record { registers = odometer ∷ []; settings = record { settings = [] }; address = [] }

-- A connection whose `manage` has started, and a client with one listener and a key in use.
abbrev pub served_by : Car → Connection
served_by car = (start (new_connection car)).1

abbrev served : Connection
served = served_by small_car

abbrev dialled : Client
dialled = record (add_listener (new (address_option (codes "car:8080") ∷ []))).1 { key = keyed }

served-HasRoom : (car : Car) → All HasRoom (served_by car).listeners
unfolding start new_connection Loops.add_listener Listener.start
served-HasRoom car = ((refl, omega arith), tt)

dialled-HasRoom : All HasRoom dialled.listeners
unfolding add_listener new address_option Listener.start
dialled-HasRoom = ((refl, omega arith), tt)

served-key : (car : Car) → (served_by car).key ≡ new_key
unfolding start new_connection Loops.add_listener
served-key car = refl

set_register-IsExchanged_example : IsExchanged test_clock draw 0xa (0x1 ∷ []) dialled served
set_register-IsExchanged_example =
    set_register-IsExchanged test_clock draw 0xa (0x1 ∷ []) dialled served (omega arith)
      keyed-IsValid (rw (served-key small_car) new_key-IsValid) dialled-HasRoom
      (served-HasRoom small_car)

-- A notification of the door register, behind bytes of no frame.
abbrev mixed : List ℕ
mixed = 0x6f ∷ 4 ∷ 0 ∷ 0x24 ∷ 1 ∷ 0x98 ∷ noise

new_from_bytes-IsTyped_example :
    (new_from_bytes test_clock mixed keyed ≡ some panic)
    ⊎ ((s : Scan) × (new_from_bytes test_clock mixed keyed ≡ some (ok s))
        × All (λ q. IsTyped q × (4 ≤ length q.original)) s.msgs)
new_from_bytes-IsTyped_example = new_from_bytes-IsTyped test_clock mixed keyed

-- The set request for register 0xa reaches the connection, and waits for `manage`.
abbrev pub request : PhevMessage
request = set_message 0xa (0x1 ∷ []) 0

request-IsSendable : IsSendable request
request-IsSendable = record { fits = omega arith; flag = inl refl }

pub served-IsRead :
    (car : Car)
    → (s : Connection) × (q : PhevMessage) × (reader test_clock (frame_of request) (served_by car)
        ≡ ok s)
      × (front 0 s.listeners ≡ some q)
unfolding start new_connection Loops.add_listener Listener.start xor_message_with
served-IsRead car =
    let (s, q, e, copy, hears, _, _) =
      car_reads test_clock request 0 request-IsSendable (served_by car)
        (request_prints test_clock 0xa (0x1 ∷ []) 0) refl (rw (served-key car) new_key-IsValid)
        (served-HasRoom car) in
    (s, q, e, ap (front 0) hears)

pub served-runs : (car : Car) → (served_by car).conn_closed ≡ false
unfolding start new_connection Loops.add_listener
served-runs car = refl

Reach-Manages_example :
    let s = (served-IsRead small_car).0 in
    let q = (served-IsRead small_car).1 in
    All IsFit s.listeners × ((s' : Connection) × (manage test_clock draw q (received 0 s) ≡ ok s'))
Reach-Manages_example =
    Reach-Manages test_clock draw small_car (odometer-Encodes, tt) (omega arith) 0
      (served-IsRead small_car).1
      (Reach.stepped Reach.accepted (
        Step.reads (frame_of request) (served-runs small_car) (omega arith)
          (served-IsRead small_car).2))
      (served-IsRead small_car).3
