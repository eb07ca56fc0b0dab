-- ===== src/Client/Loops.antt =====
-- The goroutines `reader`, `writer` and `pinger` of client/client.go, one round each. What the
-- connection reads and whether a write succeeds are arguments.
pub mod Laws
use phev2mqtt.Base.{
  ℕ, ◌+◌, Bool, true, false, List, [], ◌∷◌, ◌++◌, ltb, not, ◌==◌, ◌&&◌, if◌then◌else◌, length, byte,
  Outcome, ok, err, panic, ◌>>=◌, Option, none, some,
}
use phev2mqtt.Protocol.Types.{PhevMessage, new_ping_request_message}
use phev2mqtt.Protocol.Register.Plain.{Clock}
use phev2mqtt.Protocol.Message.{encode_to_bytes, short_form}
use phev2mqtt.Protocol.Stream.{Scan, new_from_bytes}
use phev2mqtt.Client.Listener.{Listener, send, request_stop, process_stop}
use phev2mqtt.Client.State.{Client}

unfoldable pub send_all : PhevMessage → List (ℕ × Listener) → Outcome (List (ℕ × Listener))
send_all m [] = ok []
send_all m ((p, l) ∷ ls) = do l' ← send m l; ls' ← send_all m ls; ok ((p, l') ∷ ls')

unfoldable pub stop_all : List (ℕ × Listener) → Outcome (List (ℕ × Listener))
stop_all [] = ok []
stop_all ((p, l) ∷ ls) = do
  (l', _) ← process_stop (request_stop l)
  ls' ← stop_all ls
  ok ((p, l') ∷ ls')

-- The branch of `reader` on a read error: the client is closed, Recv is closed, and every listener
-- is stopped and its channel closed.
unfoldable pub reader_error : Client → Outcome Client
unfolding stop_all
reader_error c = do
  ls ← stop_all c.listeners
  ok (record c { closed = true; recv_closed = true; listeners = ls })

module _ (clock : Clock) where
  -- The loop of `reader` over the messages of one read. Its log line calls ShortForm.
  unfoldable pub deliver : List PhevMessage → Client → Outcome Client
  unfolding send_all
  deliver [] c = ok c
  deliver (m ∷ ms) c = do
    _ ← short_form clock m
    ls ← send_all m c.listeners
    deliver ms (record c { listeners = ls; recv = c.recv ++ (m ∷ []) })

  unfoldable pub after_scan : Client → Option (Outcome Scan) → Outcome Client
  unfolding deliver
  after_scan c none = ok c
  after_scan c (some (ok s)) = deliver s.msgs (record c { key = s.key })
  after_scan c (some err) = err
  after_scan c (some panic) = panic

  -- One read of `reader` that yields `bytes`; the scan never runs out of rounds.
  unfoldable pub reader : List ℕ → Client → Outcome Client
  unfolding after_scan
  reader bytes c = after_scan c (new_from_bytes clock bytes c.key)

  -- One message of `writer`: the bytes written, and the client after it. A write error closes the
  -- client.
  unfoldable pub writer : Bool → PhevMessage → Client → Outcome (List ℕ × Client)
  writer write_succeeds msg c = do
    (bytes, msg', key') ← encode_to_bytes (record msg { xor = 0 }) c.key
    _ ← short_form clock msg'
    let c' : Client = record c { key = key' }
    ok (bytes, if write_succeeds then c' else record c' { closed = true })

-- One tick of `pinger`: `recent` says that a message came in the last 500 ms, and `room` that Send
-- has room. The result is what is put on Send, and the next sequence number.
unfoldable pub pinger : (recent room : Bool) → ℕ → List PhevMessage × ℕ
unfolding new_ping_request_message
pinger recent room seq =
    let next = byte (seq + 1) in
    if recent
    then ([], seq)
    else (if room then new_ping_request_message seq ∷ [] else [], if ltb 0x63 next then 0 else next)
