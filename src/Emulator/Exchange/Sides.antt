-- ===== src/Emulator/Exchange/Sides.antt =====
-- The rounds of the goroutines of the client and of the emulator that one SetRegister takes.
use mathlib.Core.List.{append_assoc}
use phev2mqtt.Base.{
  ℕ, ◌≤◌, ◌<◌, ◌≡◌, refl, ◌∙◌, inl, inr, Bool-cases, true, false, List, [], ◌∷◌, ◌++◌, ◌==◌, arith,
  length, All, ok, lt→ltb,
}
use phev2mqtt.Protocol.SecurityKey.Counters.{IsValid}
use phev2mqtt.Protocol.Frame.{xor_message_with}
use phev2mqtt.Protocol.Message.{short_form}
use phev2mqtt.Protocol.Message.Encode.{IsSendable, frame_of, IsCopy, encode_to_bytes_lem}
use phev2mqtt.Protocol.Stream.Single.{new_from_bytes-sendable}
use phev2mqtt.Protocol.Types.{PhevMessage, new_message}
use phev2mqtt.Protocol.Register.Plain.{Clock}
use phev2mqtt.Client.Listener.{Listener, send}
use phev2mqtt.Client.State.{Client}
use phev2mqtt.Client.SetRegister.{Event, message, succeeded, set_message, set_register}
use phev2mqtt.Client.Loops
use phev2mqtt.Client.Loops.Laws.{IsAnswered, set_register-succeeds}
use phev2mqtt.Emulator.Connection.{Connection, manage, handle_set_register}
use phev2mqtt.Emulator.Connection.Loops.{reader, writer, send_all}

-- An open channel that can take a message.
abbrev pub HasRoom : ℕ × Listener → Type 0
HasRoom e = (e.1.c.is_closed ≡ false) × (length e.1.c.queue < 5)

-- Each listener has the message in its channel, behind what is there.
abbrev pub push_all : PhevMessage → List (ℕ × Listener) → List (ℕ × Listener)
push_all m [] = []
push_all m ((p, l) ∷ ls) =
    (p, record l { c = record { queue = l.c.queue ++ (m ∷ []); is_closed = false } })
    ∷ push_all m ls

at_client :
    (m : PhevMessage) (ls : List (ℕ × Listener))
    → All HasRoom ls
    → Loops.send_all m ls ≡ ok (push_all m ls)
unfolding Loops.send_all send
at_client m [] h = refl
at_client m ((p, l) ∷ ls) h = rw (h.0.0, lt→ltb (length l.c.queue) 5 h.0.1, at_client m ls h.1) refl

at_car :
    (m : PhevMessage) (ls : List (ℕ × Listener))
    → All HasRoom ls
    → send_all m ls ≡ ok (push_all m ls)
unfolding send_all send
at_car m [] h = refl
at_car m ((p, l) ∷ ls) h = rw (h.0.0, lt→ltb (length l.c.queue) 5 h.0.1, at_car m ls h.1) refl

module _ (clock : Clock) (p : PhevMessage) (x : ℕ) (v : IsSendable p) where
  abbrev bytes : List ℕ
  bytes = xor_message_with (frame_of p) x

  -- ShortForm prints what is read back.
  abbrev Prints : Type 0
  Prints = (q : PhevMessage) → IsCopy p x q → (text : List ℕ) × (short_form clock q ≡ ok text)

  pub car_reads :
      (s : Connection)
      → Prints
      → (p.typ == 0xf3) ≡ false
      → IsValid s.key
      → All HasRoom s.listeners
      → (s' : Connection) × (q : PhevMessage) × (reader clock bytes s ≡ ok s')
        × IsCopy p x q
        × (s'.listeners ≡ push_all q s.listeners)
        × (s'.sent ≡ s.sent)
        × IsValid s'.key
  unfolding reader
  car_reads s prints no_ping k room =
      let (scan, q, e, one, copy, k') = new_from_bytes-sendable clock p x s.key v k in
      let (text, printed) = prints q copy in
      (
        record s { key = scan.key; listeners = push_all q s.listeners },
        q,
        rw (e, one, copy.typ, no_ping, printed, at_car q s.listeners room) refl,
        copy,
        refl,
        refl,
        k',
      )

  pub client_reads :
      (c : Client)
      → Prints
      → IsValid c.key
      → All HasRoom c.listeners
      → (c' : Client) × (q : PhevMessage) × (Loops.reader clock bytes c ≡ ok c')
        × IsCopy p x q
        × (c'.listeners ≡ push_all q c.listeners)
  unfolding Loops.reader
  client_reads c prints k room =
      let (scan, q, e, one, copy, k') = new_from_bytes-sendable clock p x c.key v k in
      let (text, printed) = prints q copy in
      (
        record c { key = scan.key; listeners = push_all q c.listeners; recv = c.recv ++ (q ∷ []) },
        q,
        rw (e, one, printed, at_client q c.listeners room) refl,
        copy,
        refl,
      )

-- The acknowledgement of the emulator.
abbrev pub acknowledged : ℕ → PhevMessage
acknowledged register = new_message 0x6f register true (0x0 ∷ [])

module _ (clock : Clock) (register : ℕ) (value : List ℕ) where
  pub request_prints :
      (x : ℕ) (q : PhevMessage)
      → IsCopy (set_message register value 0) x q
      → (text : List ℕ) × (short_form clock q ≡ ok text)
  unfolding short_form
  request_prints x q copy = rw copy.typ (_, refl)

  pub answer_prints :
      (x : ℕ) (q : PhevMessage)
      → IsCopy (acknowledged register) x q
      → (text : List ℕ) × (short_form clock q ≡ ok text)
  unfolding short_form new_message
  answer_prints x q copy = rw (copy.typ, copy.ack) (_, refl)

  pub client_writes :
      (c : Client)
      → length value ≤ 251
      → IsValid c.key
      → (x : ℕ) × (c' : Client) × (Loops.writer clock true (set_message register value 0) c
          ≡ ok (xor_message_with (frame_of (set_message register value 0)) x, c'))
        × IsValid c'.key
        × (c'.listeners ≡ c.listeners)
  unfolding Loops.writer short_form
  client_writes c fits k =
      let (x, key', e, k') =
        encode_to_bytes_lem (set_message register value 0) c.key (omega arith) k in
      (x, record c { key = key' }, rw e refl, k', refl)

  pub car_writes :
      (s : Connection)
      → IsValid s.key
      → (x : ℕ) × (s' : Connection) × (writer clock true (acknowledged register) s
          ≡ ok (xor_message_with (frame_of (acknowledged register)) x, s'))
  unfolding writer short_form new_message
  car_writes s k =
      let (x, key', e, k') = encode_to_bytes_lem (acknowledged register) s.key (omega arith) k in
      (x, record s { key = key' }, rw e refl)

  -- The set request is answered first; the battery level and the time may follow.
  pub car_answers :
      (rand_read : List ℕ → List ℕ) (x : ℕ) (q : PhevMessage) (s : Connection)
      → IsCopy (set_message register value 0) x q
      → (s' : Connection) × (more : List PhevMessage) × (manage clock rand_read q s ≡ ok s')
        × (s'.sent ≡ s.sent ++ (acknowledged register ∷ more))
        × (s'.key ≡ s.key)
  unfolding manage handle_set_register new_message
  car_answers rand_read x q s copy = elim (Bool-cases (register == 0x05)) [
    | inl clock_set ↦
        let time = new_message 0x6f 0x12 false value in
        let level = new_message 0x6f 0x1d false (0x50 ∷ 0x00 ∷ 0x00 ∷ 0x00 ∷ []) in
        (
          record s { sent = s.sent ++ (acknowledged register ∷ []) ++ (time ∷ []) ++ (level ∷ []) },
          time ∷ level ∷ [],
          rw (copy.typ, copy.ack, copy.register, clock_set, copy.data_bytes) refl,
          append_assoc (s.sent ++ (acknowledged register ∷ [])) (time ∷ []) (level ∷ [])
              ∙ append_assoc s.sent (acknowledged register ∷ []) (time ∷ level ∷ []),
          refl,
        )
    | inr other ↦ (
      record s { sent = s.sent ++ (acknowledged register ∷ []) },
      [],
      rw (copy.typ, copy.ack, copy.register, other) refl,
      refl,
      refl,
    )
  ]

pub ack-IsSendable : (register : ℕ) → IsSendable (acknowledged register)
unfolding new_message
ack-IsSendable register = record { fits = omega arith; flag = inr (refl, refl) }

pub ended :
    (register : ℕ) (value : List ℕ) (es : List Event) (a : PhevMessage) (y : ℕ)
    → IsCopy (acknowledged register) y a
    → (set_register register value (message a ∷ es)).result ≡ succeeded
unfolding new_message
ended register value es a y h =
    (set_register-succeeds register value (message a ∷ es)).1
      (IsAnswered.answer a es (h.typ, h.ack, h.register))
