-- ===== src/Emulator/Connection/Laws.antt =====
-- sendNextRegister: the register index stays in range, and one message goes out at a time.
use phev2mqtt.Base.{
  ℕ, zero, suc, ◌+◌, ◌<◌, ◌≡◌, ◌⊎◌, refl, inl, inr, List, [], ◌∷◌, ◌++◌, leb, arith, length,
  get_elem?, All, Option, none, some, ok, Bool-cases,
}
use phev2mqtt.Protocol.Constants.{cmd_in_resp, request_flag}
use phev2mqtt.Protocol.Settings.{new_sender, start}
use phev2mqtt.Protocol.Types.{Register, PhevMessage}
use phev2mqtt.Protocol.Register.{encode}
use phev2mqtt.Protocol.Register.Plain.{Clock}
use phev2mqtt.Emulator.Connection.{
  Connection, put, send_register, at_index, from_sender, send_next_register,
}

-- No index, or one below the number of registers.
abbrev pub InRange : Option ℕ → ℕ → Type 0
InRange none n = Unit
InRange (some i) n = i < n

-- The step from `s` to `s'` keeps the car, leaves the index in range and puts at most one message on
-- Send.
pub record IsSent (s s' : Connection) : Type 0 where
  pub same_car : s'.car ≡ s.car
  pub index : InRange s'.register_index (length s'.car.registers)
  pub one : (s'.sent ≡ s.sent) ⊎ ((m : PhevMessage) × (s'.sent ≡ s.sent ++ (m ∷ [])))

module _ (clock : Clock) where
  -- Encode does not panic on the register.
  abbrev pub Encodes : Register → Type 0
  Encodes r = (m : PhevMessage) × (encode clock r ≡ ok m)

  register_at :
      (rs : List Register) (i : ℕ)
      → All Encodes rs
      → i < length rs
      → (r : Register) × (m : PhevMessage) × (get_elem? rs i ≡ some r) × (encode clock r ≡ ok m)
  register_at [] i h p = absurd (omega arith)
  register_at (r ∷ rs) zero h p = (r, h.0.0, refl, h.0.1)
  register_at (r ∷ rs) (suc i) h p = register_at rs i h.1 (omega arith)

  at_index-IsSent :
      (s : Connection) (index : Option ℕ)
      → All Encodes s.car.registers
      → s.register_index ≡ index
      → InRange index (length s.car.registers)
      → (s' : Connection) × (at_index clock index s ≡ ok s') × IsSent s s'
  unfolding at_index send_register
  at_index-IsSent s none h e p =
      (s, refl, record { same_car = refl; index = rw e tt; one = inl refl })
  at_index-IsSent s (some i) h e p =
      let (r, m, found, encoded) = register_at s.car.registers i h p in
      let msg : PhevMessage = record m { typ = cmd_in_resp; ack = request_flag } in
      let sent = put msg s in
      elim (Bool-cases (leb (length s.car.registers) (i + 1))) [
        | inl last ↦ (
          record sent {
            register_index = none;
            settings_sender = some (start (new_sender s.car.settings)).c;
          },
          rw (found, encoded, last) refl,
          record { same_car = refl; index = tt; one = inr (msg, refl) },
        )
        | inr next ↦ (
          record sent { register_index = some (i + 1) },
          rw (found, encoded, next) refl,
          record { same_car = refl; index = ground arith; one = inr (msg, refl) },
        )
      ]

  -- With an index in range, and registers that can all be encoded, sendNextRegister does not panic:
  -- it keeps the car, leaves an index in range and puts at most one message on Send.
  pub send_next_register-IsSent :
      (s : Connection)
      → All Encodes s.car.registers
      → InRange s.register_index (length s.car.registers)
      → (s' : Connection) × (send_next_register clock s ≡ ok s') × IsSent s s'
  unfolding send_next_register from_sender
  send_next_register-IsSent s h p = next s.settings_sender
    where
      next :
          (sender : Option (List PhevMessage))
          → (s' : Connection) × (from_sender clock sender s ≡ ok s') × IsSent s s'
      next (some (m ∷ ms)) = (
        put m (record s { settings_sender = some ms }),
        refl,
        record { same_car = refl; index = p; one = inr (m, refl) },
      )
      next (some []) = (
        record s { settings_sender = none },
        refl,
        record { same_car = refl; index = p; one = inl refl },
      )
      next none = at_index-IsSent s s.register_index h refl p
