-- ===== src/Emulator/Connection/Threads/Sound.antt =====
-- The rounds of `reader` and `writer` keep a connection ready for `manage`, and its listeners fit.
use phev2mqtt.Base.{
  ℕ, byte, ◌+◌, ◌≡◌, Bool, true, false, List, [], ◌∷◌, ◌++◌, length, All, some, Outcome, ok, err,
  panic, IsBytes, Gives, >>=-Gives, >>=-Gives_from, ok-Gives, err-Gives, panic-Gives, if◌then◌else◌,
}
use phev2mqtt.Protocol.SecurityKey.{SecurityKey}
use phev2mqtt.Protocol.SecurityKey.Counters.{IsValid}
use phev2mqtt.Protocol.Types.{PhevMessage}
use phev2mqtt.Protocol.Register.Plain.{Clock}
use phev2mqtt.Protocol.Message.{encode_to_bytes}
use phev2mqtt.Protocol.Frame.{checksum}
use phev2mqtt.Protocol.Constants.{cmd_out_ping_req, cmd_in_ping_resp}
use phev2mqtt.Protocol.Message.Kinds.{decode_from_bytes-IsRead}
use phev2mqtt.Protocol.Message.Encode.{choose_xor-IsValid}
use phev2mqtt.Protocol.Stream.{Scan, new_from_bytes}
use phev2mqtt.Protocol.Stream.Keys.{Ends, new_from_bytes-Ends}
use phev2mqtt.Protocol.Stream.Each.{new_from_bytes-good}
use phev2mqtt.Client.Listener.{Listener}
use phev2mqtt.Emulator.Connection.{Connection, ConnState, con_closed}
use phev2mqtt.Emulator.Connection.Kept.{CanManage}
use phev2mqtt.Emulator.Connection.Loops.{reader, writer, close, deliver, after_scan, log_line}
use phev2mqtt.Emulator.Connection.Threads.Fit.{IsLong, IsFit, send_all-IsFit}

module _ (clock : Clock) where
  -- Ready for `manage`, with listeners that are fit.
  pub record IsSound (s : Connection) : Type 0 where
    pub can : CanManage clock s
    pub fit : All IsFit s.listeners

  -- Nothing that the invariant reads has changed but the key and the listeners.
  pub changed :
      (s : Connection) (key : SecurityKey) (sent : List PhevMessage) (ls : List (ℕ × Listener))
      (next : ℕ) (state : ConnState) (conn_closed : Bool)
      → CanManage clock s
      → IsValid key
      → All IsFit ls
      → IsSound (record s {
        key = key;
        sent = sent;
        listeners = ls;
        next_pointer = next;
        state = state;
        conn_closed = conn_closed;
      })
  changed s key sent ls next state conn_closed v k f = record {
    can = record {
      ready = record {
        encodes = v.ready.encodes;
        in_range = v.ready.in_range;
        exclusive = v.ready.exclusive;
      };
      key = k;
    };
    fit = f;
  }

  deliver-IsSound :
      (ms : List PhevMessage) (s : Connection)
      → IsSound s
      → All IsLong ms
      → Gives IsSound (deliver clock ms s)
  unfolding deliver
  deliver-IsSound [] s h k = ok-Gives IsSound s h
  deliver-IsSound (m ∷ ms) s h k = >>=-Gives IsSound (log_line clock cmd_out_ping_req m) _ (λ text.
      let (ls, sent, fits) = send_all-IsFit m s.listeners h.fit k.0 in
      rw sent (
        deliver-IsSound ms (record s { listeners = ls })
          (changed s s.key s.sent ls s.next_pointer s.state s.conn_closed h.can h.can.key fits)
          k.1))

  pub reader-IsSound :
      (bytes : List ℕ) (s : Connection)
      → IsSound s
      → IsBytes bytes
      → Gives IsSound (reader clock bytes s)
  unfolding reader
  reader-IsSound bytes s h b =
      let (r, e, ends) = new_from_bytes-Ends clock bytes s.key b h.can.key in
      rw e (scanned r e ends)
    where
      scanned :
          (r : Outcome Scan)
          → new_from_bytes clock bytes s.key ≡ some r
          → Ends clock bytes r
          → Gives IsSound (after_scan clock s (some r))
      scanned (ok scan) e valid =
          deliver-IsSound scan.msgs (record s { key = scan.key })
            (changed s scan.key s.sent s.listeners s.next_pointer s.state s.conn_closed h.can valid
              h.fit)
            (new_from_bytes-good clock IsLong
              (λ bs key key' q f. (decode_from_bytes-IsRead clock bs key key' q f).1) bytes s.key
              scan e)
      scanned err e valid = err-Gives IsSound
      scanned panic e valid = panic-Gives IsSound

  encode_to_bytes-IsValid :
      (m : PhevMessage) (key : SecurityKey)
      → IsValid key
      → Gives (λ r. IsValid r.2) (encode_to_bytes m key)
  unfolding encode_to_bytes
  encode_to_bytes-IsValid m key k =
      let Valid = λ (r : List ℕ × PhevMessage × SecurityKey). IsValid r.2 in
      let (x, key', e, k') = choose_xor-IsValid m.typ key k in
      let head = m.typ ∷ byte (length m.data_bytes + 3) ∷ m.ack ∷ m.register ∷ [] in
      >>=-Gives Valid (checksum (head ++ m.data_bytes)) _ (λ sum. rw e (ok-Gives Valid _ k'))

  pub writer-IsSound :
      (write_succeeds : Bool) (m : PhevMessage) (s : Connection)
      → IsSound s
      → Gives (λ r. IsSound r.1) (writer clock write_succeeds m s)
  unfolding writer close
  writer-IsSound write_succeeds m s h =
      let Sound = λ (r : List ℕ × Connection). IsSound r.1 in
      >>=-Gives Sound (log_line clock cmd_in_ping_resp m) _ (λ text.
        >>=-Gives_from Sound (λ r. IsValid r.2) (encode_to_bytes m s.key) _
          (encode_to_bytes-IsValid m s.key h.can.key)
          (λ (bytes, m', key') k. ok-Gives Sound _ (written write_succeeds key' k)))
    where
      written :
          (b : Bool) (key : SecurityKey)
          → IsValid key
          → IsSound (if b then record s { key = key } else close (record s { key = key }))
      written true key k =
          changed s key s.sent s.listeners s.next_pointer s.state s.conn_closed h.can k h.fit
      written false key k =
          changed s key s.sent s.listeners s.next_pointer con_closed true h.can k h.fit
