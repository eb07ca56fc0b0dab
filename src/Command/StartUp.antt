-- ===== src/Command/StartUp.antt =====
-- How the commands of cmd/ start: the log and the configuration of cmd/root.go, the client of
-- cmd/watch.go and cmd/register.go, and the car of cmd/emulator.go.
pub mod Cars
use phev2mqtt.Base.{
  ℕ, Bool, true, false, List, [], ◌∷◌, ◌++◌, if◌then◌else◌, codes, same_text, Option, none, some,
  Outcome, ok, err, panic, ◌>>=◌,
}
use phev2mqtt.Protocol.Types.{PhevMessage}
use phev2mqtt.Protocol.Register.Plain.{Clock}
use phev2mqtt.Client.State.{Client, new, address_option}
use phev2mqtt.Client.SetRegister.{
  Event, StartEvent, StartResult, ready, no_receiver, start_timed_out, await_start,
}
use phev2mqtt.Emulator.Car.{Car, new_car}
use phev2mqtt.Emulator.Car
use phev2mqtt.Emulator.Connection.{Connection}
use phev2mqtt.Emulator.Connection.Loops.{begin}
use phev2mqtt.Command.Emulator.{Emu, publish}
use phev2mqtt.Command.Register.{RegisterEnd, read_messages, run_register}
use phev2mqtt.Command.Watch.{Watch, watch_message}

pub data Formatter : Type 0 where
  timestamps plain : Formatter

pub record Logging : Type 0 where
  pub level : ℕ
  pub to_syslog : Bool
  pub formatter : Formatter

-- PersistentPreRun. `parse_level` is ParseLevel of package logrus, whose error panics.
unfoldable pub set_up_log : (List ℕ → Option ℕ) → List ℕ → (syslog times : Bool) → Outcome Logging
set_up_log parse_level level syslog times = elim (parse_level level) [
  | none ↦ panic
  | some n ↦
      ok (record { level = n; to_syslog = syslog; formatter = if times then timestamps else plain })
]

-- Where viper looks for the configuration: in the file of the flag, or by name in a directory.
pub data ConfigFile : Type 0 where
  named : List ℕ → ConfigFile
  searched : (directory config_type name : List ℕ) → ConfigFile

-- initConfig. `home` is none where UserHomeDir fails, which ends the program.
unfoldable pub init_config : List ℕ → (home : Option (List ℕ)) → Outcome ConfigFile
init_config cfg_file home =
    if same_text cfg_file []
    then elim home [ none ↦ err | some dir ↦ ok (searched dir (codes "yaml") (codes ".phev2mqtt")) ]
    else ok (named cfg_file)

after_start : StartResult → Client → Outcome Client
after_start ready c = ok c
after_start no_receiver c = panic
after_start start_timed_out c = panic

-- The client of watch and of register, connected and started; an error of either panics.
unfoldable pub started_client : List ℕ → (connects : Bool) → StartEvent → Outcome Client
unfolding after_start
started_client address connects e =
    if connects then after_start (await_start e) (new (address_option address ∷ [])) else panic

-- What the loop of watch sees: its timeout, a message on Recv, or the end of Recv.
pub data WatchEvent : Type 0 where
  timeout recv_ended : WatchEvent
  received : PhevMessage → WatchEvent

pub data WatchEnd : Type 0 where
  client_closed connection_ended watching : WatchEnd

module _ (clock : Clock) where
  watch_loop : List WatchEvent → Watch → Outcome (Watch × WatchEnd)
  watch_loop [] s = ok (s, watching)
  watch_loop (timeout ∷ es) s = ok (s, client_closed)
  watch_loop (recv_ended ∷ es) s = ok (s, connection_ended)
  watch_loop (received m ∷ es) s = do s' ← watch_message clock m s; watch_loop es s'

  unfoldable pub run_watch :
      List ℕ → (connects : Bool) → StartEvent → List WatchEvent → Outcome (Watch × WatchEnd)
  unfolding started_client watch_loop
  run_watch address connects e es = do
    _ ← started_client address connects e
    watch_loop es (record { registers = []; sent = [] })

-- The command register, or unregister: `before` are the messages that come before the VIN is taken
-- or the 30 seconds are over.
unfoldable pub register_client :
    List ℕ
    → (connects : Bool) → StartEvent
    → (unregister : Bool) → (before : List PhevMessage) → List Event
    → Outcome (List PhevMessage × RegisterEnd)
unfolding started_client read_messages run_register
register_client address connects e unregister before es = do
  _ ← started_client address connects e
  ok (
      run_register unregister es
        (read_messages before (record { sent = []; vin = none; stuck = false })))

-- manageCar: the car is made and started, and the emulator goes on with its connections.
unfoldable pub manage_car :
    List ℕ → (listens : Bool) → List Bool → Emu → Outcome (Car × List Connection × Emu)
unfolding begin publish
manage_car address listens cs e = do
  car ← new_car (Car.address_option address ∷ [])
  connections ← begin car listens cs
  ok (car, connections, publish (codes "/available") (codes "online") (record e { car = some car }))

abbrev pub fresh_emu : List ℕ → Bool → Emu
fresh_emu prefix broker = record {
  prefix = prefix;
  has_broker = broker;
  car = none;
  mqtt_data = [];
  published = [];
}

-- Run of the emulator command: with a server it connects to the broker and subscribes, and an error
-- of either ends it. The topic that is subscribed to, if any, comes with what manageCar leaves.
unfoldable pub run_emulator :
    (server prefix address : List ℕ)
    → (connects subscribes listens : Bool) → List Bool
    → Outcome (Option (List ℕ) × Car × List Connection × Emu)
unfolding manage_car
run_emulator server prefix address connects subscribes listens cs =
    if same_text server []
    then (do
      (car, ss, e) ← manage_car address listens cs (fresh_emu prefix false)
      ok (none, car, ss, e))
    else if connects
    then (if subscribes
        then (do
          (car, ss, e) ← manage_car address listens cs (fresh_emu prefix true)
          ok (some (prefix ++ codes "/set/#"), car, ss, e))
        else err)
    else err
