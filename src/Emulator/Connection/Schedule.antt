-- ===== src/Emulator/Connection/Schedule.antt =====
-- sendNextRegister refines a queue: what a connection has yet to send, the registers in the car's
-- order and then its settings, goes out one message for each call.
use mathlib.Core.List.{append_assoc, append-nil}
use mathlib.Core.Path.{subst}
use phev2mqtt.Base.{
  ℕ, zero, suc, ◌+◌, ◌<◌, ◌≡◌, refl, sym, ap, ◌∙◌, inl, inr, List, [], ◌∷◌, ◌++◌, leb, arith,
  length, take, drop, drop_all, get_elem?, All, Option, none, some, Outcome, ok, err, panic, ◌>>=◌,
  Bool-cases,
}
use phev2mqtt.Protocol.Constants.{cmd_in_resp, request_flag}
use phev2mqtt.Protocol.Settings.{new_sender, start}
use phev2mqtt.Protocol.Types.{Register, PhevMessage}
use phev2mqtt.Protocol.Register.{encode}
use phev2mqtt.Protocol.Register.Plain.{Clock}
use phev2mqtt.Emulator.Car.{Car}
use phev2mqtt.Emulator.Connection.{
  Connection, new_connection, put, send_register, at_index, from_sender, send_next_register,
}
use phev2mqtt.Emulator.Connection.Laws.{InRange, Encodes}

-- The abstract view: what went out, and what is left to go.
pub record Queue : Type 0 where
  pub out : List PhevMessage
  pub left : List PhevMessage

-- The one operation on it: the first message that is left goes out.
abbrev pub pop : Queue → Queue
pop q = elim q.left [ [] ↦ q | m ∷ ms ↦ record { out = q.out ++ (m ∷ []); left = ms } ]

abbrev pub pop_all : ℕ → Queue → Queue
pop_all zero q = q
pop_all (suc n) q = pop_all n (pop q)

-- The notification that an encoded register is sent as.
abbrev pub notification : Outcome PhevMessage → List PhevMessage
notification (ok m) = record m { typ = cmd_in_resp; ack = request_flag } ∷ []
notification err = []
notification panic = []

take_none : (n : ℕ) → take {A = PhevMessage} n [] ≡ []
take_none zero = refl
take_none (suc n) = refl

pub pop_all-out :
    (n : ℕ) (out left : List PhevMessage)
    → (pop_all n (record { out = out; left = left })).out ≡ out ++ take n left
pop_all-out zero out left = sym (append-nil out)
pop_all-out (suc n) out [] =
    pop_all-out n out [] ∙ ap (λ (xs : List PhevMessage). out ++ xs) (take_none n)
pop_all-out (suc n) out (m ∷ ms) =
    pop_all-out n (out ++ (m ∷ [])) ms ∙ append_assoc out (m ∷ []) (take n ms)

module _ (clock : Clock) where
  abbrev pub notifications : List Register → List PhevMessage
  notifications [] = []
  notifications (r ∷ rs) = notification (encode clock r) ++ notifications rs

  -- All that a car has to say: its registers, then its settings.
  abbrev pub schedule : Car → List PhevMessage
  schedule car = notifications car.registers ++ (start (new_sender car.settings)).c

  -- What is left, by the settings sender and the register index.
  abbrev pub remaining : Car → Option (List PhevMessage) → Option ℕ → List PhevMessage
  remaining car (some ms) index = ms
  remaining car none none = []
  remaining car none (some i) =
      notifications (drop i car.registers) ++ (start (new_sender car.settings)).c

  abbrev pub view : Connection → Queue
  view s = record { out = s.sent; left = remaining s.car s.settings_sender s.register_index }

  -- While the settings go out there is no register index.
  abbrev pub Exclusive : Option (List PhevMessage) → Option ℕ → Type 0
  Exclusive (some ms) index = index ≡ none
  Exclusive none index = Unit

  pub record IsReady (s : Connection) : Type 0 where
    pub encodes : All (Encodes clock) s.car.registers
    pub in_range : InRange s.register_index (length s.car.registers)
    pub exclusive : Exclusive s.settings_sender s.register_index

  register_at :
      (rs : List Register) (i : ℕ)
      → All (Encodes clock) rs
      → i < length rs
      → (r : Register) × (m : PhevMessage) × (get_elem? rs i ≡ some r)
        × (encode clock r ≡ ok m)
        × (drop i rs ≡ r ∷ drop (suc i) rs)
  register_at [] i h p = absurd (omega arith)
  register_at (r ∷ rs) zero h p = (r, h.0.0, refl, h.0.1, refl)
  register_at (r ∷ rs) (suc i) h p = register_at rs i h.1 (omega arith)

  -- The step of a connection, against the abstract one.
  abbrev pub Refines : Connection → Outcome Connection → Type 0
  Refines s o =
      (s' : Connection) × (o ≡ ok s') × (view s' ≡ pop (view s)) × IsReady s' × (s'.car ≡ s.car)

  at_index-Refines :
      (s : Connection) (index : Option ℕ)
      → IsReady s
      → s.settings_sender ≡ none
      → s.register_index ≡ index
      → Refines s (at_index clock index s)
  unfolding at_index send_register
  at_index-Refines s none v e f = (s, refl, rw (e, f) refl, v, refl)
  at_index-Refines s (some i) v e f =
      let inside : i < length s.car.registers =
        subst (λ (x : Option ℕ). InRange x (length s.car.registers)) f v.in_range in
      let (r, m, found, encoded, cut) = register_at s.car.registers i v.encodes inside in
      let msg : PhevMessage = record m { typ = cmd_in_resp; ack = request_flag } in
      let sent : Connection = put msg s in
      let one_more : i + 1 ≡ suc i = omega arith in
      let settings : List PhevMessage = (start (new_sender s.car.settings)).c in
      elim (Bool-cases (leb (length s.car.registers) (i + 1))) [
        | inl last ↦
            let none_left : drop (suc i) s.car.registers ≡ [] =
              drop_all s.car.registers (suc i) (ground arith) in
            (
              record sent { register_index = none; settings_sender = some settings },
              rw (found, encoded, last) refl,
              rw (e, f, cut, encoded, none_left) refl,
              record { encodes = v.encodes; in_range = tt; exclusive = refl },
              refl,
            )
        | inr next ↦ (
          record sent { register_index = some (i + 1) },
          rw (found, encoded, next) refl,
          rw (e, f, cut, encoded, one_more) refl,
          record { encodes = v.encodes; in_range = ground arith; exclusive = rw e tt },
          refl,
        )
      ]

  from_sender-Refines :
      (s : Connection) (sender : Option (List PhevMessage))
      → IsReady s
      → s.settings_sender ≡ sender
      → Refines s (from_sender clock sender s)
  unfolding from_sender
  from_sender-Refines s none v e = at_index-Refines s s.register_index v e refl
  from_sender-Refines s (some []) v e =
      let gone : s.register_index ≡ none =
        subst (λ (x : Option (List PhevMessage)). Exclusive x s.register_index) e v.exclusive in
      (
        record s { settings_sender = none },
        refl,
        rw (e, gone) refl,
        record { encodes = v.encodes; in_range = v.in_range; exclusive = tt },
        refl,
      )
  from_sender-Refines s (some (m ∷ ms)) v e =
      let gone : s.register_index ≡ none =
        subst (λ (x : Option (List PhevMessage)). Exclusive x s.register_index) e v.exclusive in
      (
        put m (record s { settings_sender = some ms }),
        refl,
        rw e refl,
        record { encodes = v.encodes; in_range = v.in_range; exclusive = gone },
        refl,
      )

  -- Where the registers can be encoded, the index is in range and there is none while the settings
  -- go out, sendNextRegister does not panic, does to the connection what `pop` does to its queue,
  -- and leaves it in such a state again, with the same car.
  pub send_next_register-Refines :
      (s : Connection) → IsReady s → Refines s (send_next_register clock s)
  unfolding send_next_register
  send_next_register-Refines s v = from_sender-Refines s s.settings_sender v refl

  -- As many calls as there are acknowledgements.
  abbrev pub send_registers : ℕ → Connection → Outcome Connection
  send_registers zero s = ok s
  send_registers (suc n) s = send_next_register clock s >>= send_registers n

  send_registers-Refines :
      (n : ℕ) (s : Connection)
      → IsReady s
      → (s' : Connection) × (send_registers n s ≡ ok s') × (view s' ≡ pop_all n (view s))
  send_registers-Refines zero s v = (s, refl, refl)
  send_registers-Refines (suc n) s v =
      let (t, e, same, w, _) = send_next_register-Refines s v in
      let (s', f, whole) = send_registers-Refines n t w in (s', rw e f, whole ∙ ap (pop_all n) same)

  -- On a new connection with a car that has a register, and whose registers can all be encoded, `n`
  -- calls of sendNextRegister put on Send the first `n` messages of the car's schedule: each
  -- register once, in order, then each setting once, in order, then nothing.
  pub send_registers-schedule :
      (car : Car) (n : ℕ)
      → All (Encodes clock) car.registers
      → 0 < length car.registers
      → (s : Connection) × (send_registers n (new_connection car) ≡ ok s)
        × (s.sent ≡ take n (schedule car))
  unfolding new_connection
  send_registers-schedule car n h some_register =
      let (s, e, whole) =
        send_registers-Refines n (new_connection car)
          (record { encodes = h; in_range = some_register; exclusive = tt }) in
      (s, e, ap (λ (q : Queue). q.out) whole ∙ pop_all-out n [] (schedule car))
