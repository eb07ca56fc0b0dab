-- ===== src/Emulator/Exchange.antt =====
-- One SetRegister between the client and the emulator: what the client's writer writes, the
-- emulator's reader reads and its `manage` answers, and the answer goes back the same way.
pub mod Sides
use mathlib.Core.List.{append_assoc}
use mathlib.Core.Path.{subst}
use phev2mqtt.Base.{
  ℕ, ◌+◌, ◌≤◌, ◌<◌, ◌%◌, ◌≡◌, refl, sym, ap, ◌∙◌, inl, inr, Bool-cases, true, false, List, [], ◌∷◌,
  ◌++◌, ltb, ◌==◌, arith, length, All, ok, some, lt→ltb,
}
use phev2mqtt.Protocol.SecurityKey.Counters.{IsValid}
use phev2mqtt.Protocol.Frame.{xor_message_with}
use phev2mqtt.Protocol.Message.{short_form, encode_to_bytes}
use phev2mqtt.Protocol.Message.Encode.{IsSendable, frame_of, IsCopy, encode_to_bytes_lem}
use phev2mqtt.Protocol.Stream.Single.{new_from_bytes-sendable}
use phev2mqtt.Protocol.Types.{PhevMessage, new_message}
use phev2mqtt.Protocol.Register.Plain.{Clock}
use phev2mqtt.Client.Listener.{Listener, send}
use phev2mqtt.Client.State.{Client}
use phev2mqtt.Client.SetRegister.{Event, message, succeeded, set_message, set_register, await_reply}
use phev2mqtt.Client.Loops
use phev2mqtt.Client.Loops.Laws.{IsAnswered, set_register-succeeds}
use phev2mqtt.Emulator.Connection.{Connection, manage, handle_set_register}
use phev2mqtt.Emulator.Connection.Loops.{reader, writer, send_all, deliver, after_scan}
use phev2mqtt.Emulator.Exchange.Sides.{
  HasRoom, push_all, acknowledged, car_reads, client_reads, request_prints, answer_prints,
  client_writes, car_writes, car_answers, ack-IsSendable, ended,
}

-- A run of the exchange.
pub record IsExchanged (clock : Clock) (rand_read : List ℕ → List ℕ) (register : ℕ) (value : List ℕ)
    (c : Client) (s : Connection) : Type 0 where
  pub request : List ℕ
  pub asked : Client
  pub q : PhevMessage
  pub read : Connection
  pub answered : Connection
  pub more : List PhevMessage
  pub reply : List ℕ
  pub written : Connection
  pub told : Client
  pub a : PhevMessage
  pub client_writes : Loops.writer clock true (set_message register value 0) c ≡ ok (request, asked)
  pub car_reads : reader clock request s ≡ ok read
  pub car_hears : read.listeners ≡ push_all q s.listeners
  pub car_manages : manage clock rand_read q read ≡ ok answered
  pub car_sends : answered.sent ≡ s.sent ++ (acknowledged register ∷ more)
  pub car_writes : writer clock true (acknowledged register) answered ≡ ok (reply, written)
  pub client_reads : Loops.reader clock reply asked ≡ ok told
  pub client_hears : told.listeners ≡ push_all a c.listeners
  pub ends : (es : List Event) → (set_register register value (message a ∷ es)).result ≡ succeeded

-- For a value of at most 251 bytes, with a valid key and room in the open channel of every listener on
-- both sides: what the client's writer writes for SetRegister, the emulator reads and hands to its
-- listeners; its manage puts the acknowledgement on Send at once, perhaps with more behind it; what
-- its writer writes for that, the client reads and hands to its listeners; and as the next event it
-- ends the call of SetRegister with success. Nothing panics on the way.
pub set_register-IsExchanged :
    (clock : Clock) (rand_read : List ℕ → List ℕ) (register : ℕ) (value : List ℕ) (c : Client)
    (s : Connection)
    → length value ≤ 251
    → IsValid c.key
    → IsValid s.key
    → All HasRoom c.listeners
    → All HasRoom s.listeners
    → IsExchanged clock rand_read register value c s
set_register-IsExchanged clock rand_read register value c s fits kc ks room_c room_s =
    let ask = set_message register value 0 in
    let ack = acknowledged register in
    let (x, asked, wrote, kc', same) = client_writes clock register value c fits kc in
    let (read, q, got, copy, hears, unsent, ks') =
      car_reads clock ask x (record { fits = fits; flag = inl refl }) s
        (request_prints clock register value x) refl ks room_s in
    let (answered, more, managed, sends, same_key) =
      car_answers clock register value rand_read x q read copy in
    let (y, written, replied) =
      car_writes clock register value answered (subst IsValid (sym same_key) ks') in
    let (told, a, back, answer, told_all) =
      client_reads clock ack y (ack-IsSendable register) asked
        (answer_prints clock register value y) kc' (subst (All HasRoom) (sym same) room_c) in
    record {
      request = xor_message_with (frame_of ask) x;
      asked = asked;
      q = q;
      read = read;
      answered = answered;
      more = more;
      reply = xor_message_with (frame_of ack) y;
      written = written;
      told = told;
      a = a;
      client_writes = wrote;
      car_reads = got;
      car_hears = hears;
      car_manages = managed;
      car_sends = sends ∙ ap (λ (ms : List PhevMessage). ms ++ (ack ∷ more)) unsent;
      car_writes = replied;
      client_reads = back;
      client_hears = told_all ∙ ap (push_all a) same;
      ends = λ es. ended register value es a y answer;
    }
