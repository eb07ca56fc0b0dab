-- ===== src/Tests/Commands.antt =====
-- The commands at concrete inputs.
use phev2mqtt.Base.{
  ◌⊎◌, count, hex_byte, hex_encode, ℕ, ◌≡◌, refl, true, false, List, [], ◌∷◌, ◌++◌, arith, codes,
  none, some, ok,
}
use phev2mqtt.Protocol.SecurityKey.{new_key}
use phev2mqtt.Protocol.Constants.{cmd_in_resp}
use phev2mqtt.Protocol.Types.{Register, PhevMessage, empty_message}
use phev2mqtt.Protocol.Stream.{Scan, new_from_bytes}
use phev2mqtt.Client.State.{Client, new}
use phev2mqtt.Client.SetRegister.{
  Event, message, closed, started, set_register, await_reply, succeeded,
}
use phev2mqtt.Command.Set.{finished, run_set}
use phev2mqtt.Command.Set.Laws.{print_args, attempts, run_set-finished}
use phev2mqtt.Command.Register.{Registration, read_messages, ack_of}
use phev2mqtt.Command.Register.Laws.{acks_for, IsVin, read_messages-second_vin}
use phev2mqtt.Command.Watch.{Watch, logged}
use phev2mqtt.Command.Watch.Laws.{IsShown}
use phev2mqtt.Command.Decode.{short_forms, is_ping, process_payload}
use phev2mqtt.Command.Decode.Laws.{process_payload-ping}
use phev2mqtt.Command.Emulator.{Emu, called, crashing, handle_emulator}
use phev2mqtt.Command.Emulator.Laws.{NotifiesAll, handle_emulator-register}
use phev2mqtt.Emulator.Car.{Car, Goroutine, set_register_all}
use phev2mqtt.Tests.Data.{test_clock, acknowledgement, ack_frame, ping_frame}

abbrev fresh : Client
fresh = new []

abbrev lights : List (ℕ × List ℕ)
lights = (0xa, 0x2 ∷ []) ∷ []

abbrev acked : List (List Event)
acked = (message acknowledgement ∷ []) ∷ []

acknowledged : (set_register 0xa (0x2 ∷ []) (message acknowledgement ∷ [])).result ≡ succeeded
unfolding set_register await_reply
acknowledged = refl

run_set-finished_example :
    run_set (print_args lights) true started acked fresh
    ≡ finished (record fresh { sent = fresh.sent ++ attempts lights acked })
run_set-finished_example =
    run_set-finished lights acked fresh ((omega arith, (omega arith, tt)), tt) (acknowledged, tt)

abbrev vin_message : PhevMessage
vin_message = record empty_message {
  typ = cmd_in_resp;
  register = 0x15;
  reg =
      some (Register.vin (record { vin = codes "JMBXDGG2WEZ000001"; registrations = 1; raw = [] }));
}

abbrev door_message : PhevMessage
door_message = record empty_message {
  typ = cmd_in_resp;
  register = 0x24;
  data_bytes = 0x1 ∷ [];
  reg = some (Register.generic (record { reg = 0x24; value = 0x1 ∷ [] }));
}

vin_message-IsVin : IsVin (codes "JMBXDGG2WEZ000001") vin_message
vin_message-IsVin = record { is_response = refl; is_notification = refl; names = refl }

abbrev reading : Registration
reading = record { sent = []; vin = none; stuck = false }

read_messages-second_vin_example :
    read_messages
      ((door_message ∷ [])
        ++ (vin_message ∷ ((door_message ∷ []) ++ (vin_message ∷ (door_message ∷ [])))))
      reading
    ≡ record {
      sent =
          (([] ++ acks_for (door_message ∷ [])) ++ (ack_of vin_message ∷ []))
          ++ acks_for (door_message ∷ []);
      vin = some (codes "JMBXDGG2WEZ000001");
      stuck = true;
    }
read_messages-second_vin_example =
    read_messages-second_vin vin_message vin_message (codes "JMBXDGG2WEZ000001")
      (codes "JMBXDGG2WEZ000001") (door_message ∷ []) (door_message ∷ []) (door_message ∷ [])
      reading refl refl (refl, tt) (refl, tt) vin_message-IsVin vin_message-IsVin

abbrev watching : Watch
watching = record { registers = []; sent = [] }

door_message-IsShown : IsShown test_clock door_message
unfolding logged
door_message-IsShown = ([], refl)

abbrev packet : List ℕ
packet = ping_frame ++ ack_frame

-- The messages of the packet: a ping and an acknowledgement.
packet_scan :
    (s : Scan) × (p : PhevMessage) × (q : PhevMessage) × (new_from_bytes test_clock packet new_key
      ≡ some (ok s))
    × (s.msgs ≡ p ∷ q ∷ [])
    × (is_ping p ≡ true)
unfolding new_from_bytes phev2mqtt.Protocol.Stream.scan_loop phev2mqtt.Protocol.Stream.scan_step
    phev2mqtt.Protocol.Frame.slice phev2mqtt.Protocol.Frame.validate_and_decode_message
    phev2mqtt.Protocol.Frame.validate_checksum phev2mqtt.Protocol.Frame.xor_message_with
    phev2mqtt.Protocol.Frame.checksum phev2mqtt.Protocol.Frame.sum_bytes
    phev2mqtt.Protocol.Frame.cut_frame phev2mqtt.Protocol.Message.decode_from_bytes
    phev2mqtt.Protocol.Message.track_key phev2mqtt.Protocol.SecurityKey.r_key
packet_scan = (_, _, _, refl, refl, refl)

no_lines : short_forms test_clock [] ≡ ok []
unfolding short_forms
no_lines = refl

process_payload-ping_example :
    process_payload test_clock false false packet new_key [] ≡ ok ([], (packet_scan.0.key, []))
process_payload-ping_example =
    process_payload-ping test_clock packet new_key [] packet_scan.0 [] (packet_scan.2 ∷ [])
      packet_scan.1 [] packet_scan.3 packet_scan.4 tt packet_scan.5 no_lines

abbrev small_car : Car
small_car = record { registers = []; settings = record { settings = [] }; address = [] }

-- The emulator with the default prefix.
abbrev emu : Emu
emu = record {
  prefix = codes "phev/emu";
  has_broker = true;
  car = some small_car;
  mqtt_data = [];
  published = [];
}

phev_slash : count b'/' (codes "phev") ≡ 0
unfolding count
phev_slash = refl

emu_slash : count b'/' (codes "emu") ≡ 0
unfolding count
emu_slash = refl

abbrev setting : List ℕ
setting = 0x50 ∷ 0 ∷ 0 ∷ 0 ∷ []

-- Two connections, of which the second one is closed.
abbrev goroutines : List Goroutine
goroutines =
    record { connection = 0; events = [] } ∷ record { connection = 1; events = closed ∷ [] } ∷ []

handle_emulator-register_example :
    let h =
      handle_emulator
        ((emu.prefix ++ codes "/set/register/") ++ hex_byte 0x1d)
        (hex_encode setting)
        goroutines
        emu in
    ((emu.car ≡ none) × (h ≡ crashing))
    ⊎ ((car : Car) × (emu.car ≡ some car)
        × (h ≡ called (set_register_all 0x1d setting goroutines))
        × NotifiesAll 0x1d setting goroutines (set_register_all 0x1d setting goroutines).0)
handle_emulator-register_example =
    handle_emulator-register (codes "phev") (codes "emu") 0x1d setting goroutines emu phev_slash
      emu_slash refl (omega arith) (omega arith, (omega arith, (omega arith, (omega arith, tt))))
