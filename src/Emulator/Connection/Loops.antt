-- ===== src/Emulator/Connection/Loops.antt =====
-- The listener table and Close of a connection of emulator/connection.go, one round of its
-- goroutines `reader` and `writer`, and Start, up to the listener that `manage` begins with. What
-- the connection reads and whether a write succeeds are arguments.
-- `begin` is Begin of emulator/car.go.
use phev2mqtt.Base.{
  ℕ, ◌+◌, Bool, true, false, List, [], ◌∷◌, ◌++◌, ◌==◌, if◌then◌else◌, Outcome, ok, err, panic,
  ◌>>=◌, Option, none, some,
}
use phev2mqtt.Protocol.Types.{PhevMessage}
use phev2mqtt.Protocol.Constants.{cmd_out_ping_req, cmd_in_ping_resp}
use phev2mqtt.Protocol.Register.Plain.{Clock}
use phev2mqtt.Protocol.Message.{encode_to_bytes, short_form}
use phev2mqtt.Protocol.Stream.{Scan, new_from_bytes}
use phev2mqtt.Client.Listener.{Listener}
use phev2mqtt.Client.Listener
use phev2mqtt.Emulator.Car.{Car}
use phev2mqtt.Emulator.Connection.{Connection, new_connection, con_closed, con_tcp_open}

-- The TCP connection is never nil.
unfoldable pub close : Connection → Connection
close s = record s { state = con_closed; conn_closed = true }

-- The pointer of the new listener, and the connection.
unfoldable pub add_listener : Connection → ℕ × Connection
add_listener s = (
  s.next_pointer,
  record s {
    listeners = s.listeners ++ ((s.next_pointer, Listener.start) ∷ []);
    next_pointer = s.next_pointer + 1;
  },
)

unfoldable pub drop_pointer : ℕ → List (ℕ × Listener) → List (ℕ × Listener)
drop_pointer l [] = []
drop_pointer l ((p, lis) ∷ ls) = if p == l then drop_pointer l ls else (p, lis) ∷ drop_pointer l ls

unfoldable pub remove_listener : ℕ → Connection → Connection
unfolding drop_pointer
remove_listener l s = record s { listeners = drop_pointer l s.listeners }

unfoldable pub send_all : PhevMessage → List (ℕ × Listener) → Outcome (List (ℕ × Listener))
send_all m [] = ok []
send_all m ((p, l) ∷ ls) = do l' ← Listener.send m l; ls' ← send_all m ls; ok ((p, l') ∷ ls')

-- The branch of `reader` on a read error. The listeners stay as they are.
unfoldable pub reader_error : Connection → Connection
reader_error s = record s { conn_closed = true }

module _ (clock : Clock) where
  -- The log line on a message, whose arguments are computed also when it is not printed.
  unfoldable pub log_line : ℕ → PhevMessage → Outcome (List ℕ)
  log_line quiet m = if m.typ == quiet then ok [] else short_form clock m

  -- The loop of `reader` over the messages of one read.
  unfoldable pub deliver : List PhevMessage → Connection → Outcome Connection
  unfolding send_all log_line
  deliver [] s = ok s
  deliver (m ∷ ms) s = do
    _ ← log_line cmd_out_ping_req m
    ls ← send_all m s.listeners
    deliver ms (record s { listeners = ls })

  unfoldable pub after_scan : Connection → Option (Outcome Scan) → Outcome Connection
  unfolding deliver
  after_scan s none = ok s
  after_scan s (some (ok scan)) = deliver scan.msgs (record s { key = scan.key })
  after_scan s (some err) = err
  after_scan s (some panic) = panic

  -- One read of `reader` that yields `bytes`; the scan never runs out of rounds.
  unfoldable pub reader : List ℕ → Connection → Outcome Connection
  unfolding after_scan
  reader bytes s = after_scan s (new_from_bytes clock bytes s.key)

  -- One message of `writer`: the bytes written, and the connection after it.
  unfoldable pub writer : Bool → PhevMessage → Connection → Outcome (List ℕ × Connection)
  unfolding close log_line
  writer write_succeeds msg s = do
    _ ← log_line cmd_in_ping_resp msg
    (bytes, _, key') ← encode_to_bytes msg s.key
    let s' : Connection = record s { key = key' }
    ok (bytes, if write_succeeds then s' else close s')

-- The state that the goroutines start from; `manage` begins with a listener of its own.
unfoldable pub start : Connection → ℕ × Connection
unfolding add_listener
start s = add_listener (record s { state = con_tcp_open })

-- The loop of Begin, on what Accept yields: a connection, or an error, which ends it. The
-- connections share the car.
unfoldable pub accept : Car → List Bool → List Connection → List Connection
unfolding start new_connection
accept car [] connections = connections
accept car (false ∷ cs) connections = connections
accept car (true ∷ cs) connections =
    accept car cs (connections ++ ((start (new_connection car)).1 ∷ []))

-- `listens` says whether Listen succeeds; if it does not, Begin returns its error.
unfoldable pub begin : Car → Bool → List Bool → Outcome (List Connection)
unfolding accept
begin car listens cs = if listens then ok (accept car cs []) else err
