-- ===== src/Lib.antt =====
-- A verification library of phev2mqtt, the gateway that talks to a Mitsubishi Outlander PHEV over
-- its WiFi protocol and relays it to MQTT.
--
-- The program. A TCP read is scanned for frames by NewFromBytes (protocol/message.go). A frame is
-- xored with a key byte, carries its length and a checksum (protocol/raw.go), and decodes to a
-- message of a type, a register and data. Both sides keep a SecurityKey: a key map of 256 bytes
-- and one index for each direction, which messages move on. The client (client/client.go) runs
-- four goroutines, reader, writer, pinger and manage, over one connection; SetRegister waits for
-- the reply through a listener. The emulator (emulator/) plays the car: it proposes keys and sends
-- its registers and settings. The bridge (cmd/mqtt.go) publishes the registers that the client
-- receives to a broker, through a cache of what was published last.
--
-- Which file models which part.
--   Protocol/SecurityKey: SecurityKey of protocol/raw.go (Update, RKey, SKey, ...). Update is
--     split into extract_key, fill_key_map and mix_key_map, its three stretches.
--   Protocol/Frame: XorMessageWith, Checksum, ValidateChecksum, ValidateAndDecodeMessage.
--   Protocol/Types, Protocol/Constants, Protocol/Message: PhevMessage of protocol/message.go,
--     EncodeToBytes and DecodeFromBytes, ShortForm and String.
--   Protocol/Register and its children: the fifteen register types; the interface is their sum.
--     Protocol/Message/Dispatch and Kinds: the register that a message gets.
--   Protocol/Stream: NewFromBytes, as a step on its loop variables.
--   Protocol/Settings: Settings and SettingsSender of protocol/settings.go.
--   Client/Listener, Client/State, Client/SetRegister, Client/Loops: client/client.go.
--     Client/Threads: the goroutines as steps in any order; Client/Waits: manage on the channel
--     started.
--   Command/Set, Command/Register, Command/Watch, Command/Decode, Command/Packets: cmd/set.go,
--     cmd/register.go, cmd/watch.go, and cmd/hex.go, cmd/file.go and cmd/pcap.go, which use the
--     client or the scan; Command/Emulator: cmd/emulator.go, which uses the emulator;
--     Command/StartUp: how these start, with cmd/root.go.
--   Emulator/Car, Emulator/Connection: emulator/car.go, emulator/connection.go and
--     emulator/state_machine.go. Emulator/Connection/Schedule: what a connection has yet to send,
--     as a queue; Emulator/Connection/Loops: its reader and writer, its listeners, and Begin;
--     Emulator/Connection/Threads: its goroutines as steps in any order. Emulator/Handshake and
--     Emulator/Exchange: the key exchange and SetRegister between the emulator and the client.
--   Mqtt/Climate, Mqtt/Publish: the climate state, the publish cache and publishRegister of
--     cmd/mqtt.go. Mqtt/Incoming: handleIncomingMqtt, which calls SetRegister of the client;
--     Mqtt/Incoming/Registers, Asked, Climate, Kept, Frame and Acks are about its topics; there
--     SetRegister has its listener in the client's table while it waits. Mqtt/Session:
--     handlePhev, whose loop and the handler of incoming topics take turns on one client.
--     Mqtt/Run: Run, whose rounds call handlePhev, and restartWifi. Mqtt/Discovery: the texts of
--     the Home Assistant discovery, which Mqtt/Publish takes as a parameter; the order of its map
--     of replacements is one.
--   Base: shared tests, lists, bytes and bits, outcomes and texts; Tests: concrete inputs.
--
-- Conventions. Bytes are natural numbers below 256, with wrap-around written out. Go code that may
-- return an error or stop with a run-time panic is an `Outcome`: ok, err or panic. Pointers to a
-- SecurityKey are passed and returned. A channel is the list of what was put on it; a `select` is
-- a function of the events that it sees, in order. Package time is the record Clock and
-- crypto/rand.Read a function. Log calls are left out, but for the texts that their arguments
-- compute where these may panic.
--
-- Fuel. NewFromBytes runs on one round more than there are bytes; each round takes at least one
-- byte, so that the rounds never run out. All other loops are structural.
--
-- Not modelled: the declarations of commands and flags, and main.go; the options of the broker's
-- client, messages of the broker while Start waits, and what the update ticker of handlePhev puts on
-- Send; Connect and the deadlines of a connection; waits on the channels Send and
-- Recv; the listener of SetRegister in the commands set and register, where the calls are functions
-- of what their listener yields. Client/State treats one message of `manage` with no wait on the
-- channel started, which only Client/Waits has. What
-- packages net, viper, logrus, paho and gopacket yield is an argument. strings.ToLower is a
-- parameter, since it lowers letters beyond ASCII.
pub mod Base
pub mod Protocol
pub mod Client
pub mod Command
pub mod Emulator
pub mod Mqtt
pub mod Tests
