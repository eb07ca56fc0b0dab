-- ===== src/Emulator/Connection/Threads.antt =====
-- How the goroutines of one connection of the emulator take turns: each step is one round of one of
-- them, or what Car.SetRegister does to the connection, and the steps come in any order. The lock
-- lMu makes the calls on the listener table steps of their own.
pub mod Fit
pub mod Sound
pub mod Safe
use phev2mqtt.Base.{
  ℕ, false, List, [], ◌∷◌, ◌==◌, ◌≡◌, if◌then◌else◌, Option, none, some, ok, Bool, IsBytes,
}
use phev2mqtt.Protocol.Types.{PhevMessage}
use phev2mqtt.Protocol.Register.Plain.{Clock}
use phev2mqtt.Client.Listener.{Listener}
use phev2mqtt.Client.Threads.{on_pointer, take_front}
use phev2mqtt.Emulator.Car.{Car}
use phev2mqtt.Emulator.Connection.{Connection, new_connection, put, manage}
use phev2mqtt.Emulator.Connection.Loops.{
  reader, reader_error, writer, close, start, add_listener, remove_listener,
}

abbrev pub first : List PhevMessage → Option PhevMessage
first [] = none
first (m ∷ ms) = some m

-- The message that the owner of the listener `p` receives next.
abbrev pub front : ℕ → List (ℕ × Listener) → Option PhevMessage
front p [] = none
front p ((q, l) ∷ ls) = if q == p then first l.c.queue else front p ls

-- The connection after the owner of the listener `p` has received that message.
abbrev pub received : ℕ → Connection → Connection
received p s = record s { listeners = on_pointer take_front p s.listeners }

pub data Step (clock : Clock) (rand_read : List ℕ → List ℕ) (s : Connection)
    : Connection → Type 0 where
  -- `reader`, until a read fails.
  reads :
      {s' : Connection} (bytes : List ℕ)
      → s.conn_closed ≡ false
      → IsBytes bytes
      → reader clock bytes s ≡ ok s'
      → Step clock rand_read s s'
  read_fails : Step clock rand_read s (reader_error s)
  writes :
      {s' : Connection} (write_succeeds : Bool) (msg : PhevMessage) (bytes : List ℕ)
      → writer clock write_succeeds msg s ≡ ok (bytes, s')
      → Step clock rand_read s s'
  -- `manage`, on the message that its listener receives next.
  manages :
      {s' : Connection} (p : ℕ) (msg : PhevMessage)
      → front p s.listeners ≡ some msg
      → manage clock rand_read msg (received p s) ≡ ok s'
      → Step clock rand_read s s'
  -- Car.SetRegister: its listener, its message, what it receives, and the end of its listener.
  listens : Step clock rand_read s (add_listener s).1
  notifies : (msg : PhevMessage) → Step clock rand_read s (put msg s)
  receives : (p : ℕ) → Step clock rand_read s (received p s)
  unlistens : (p : ℕ) → Step clock rand_read s (remove_listener p s)
  closes : Step clock rand_read s (close s)

-- The connections that the steps lead to from one that was accepted.
pub data Reach (clock : Clock) (rand_read : List ℕ → List ℕ) (car : Car) : Connection → Type 0 where
  accepted : Reach clock rand_read car (start (new_connection car)).1
  stepped :
      {s s' : Connection}
      → Reach clock rand_read car s
      → Step clock rand_read s s'
      → Reach clock rand_read car s'
